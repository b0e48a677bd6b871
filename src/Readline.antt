-- ===== src/Readline.antt =====
-- progs/stdlib/src/os.c: the line input of the user programs. `os_getkey` is a system call: the
-- model takes the list of what its calls return, 0 where no key was pressed, and gives the list of
-- the characters that are handed to `os_putchar`.
pub mod Editing
pub mod Typed
use tmp_os.Base.{
  ℕ, zero, suc, ◌+◌, ◌-◌, ◌%◌, ◌==◌, Bool, true, false, ◌&&◌, Option, none, some, List, [], ◌∷◌,
  ltb, leb, if◌then◌else◌, length, set,
}

-- What a call comes to: it waits for a further key, it writes outside of the buffer, or it returns
-- with the buffer, the characters shown and the keys that are left.
pub data Reading : Type 0 where
  waiting : Reading
  fault : Reading
  returned : List ℕ → List ℕ → List ℕ → Reading

-- The first key that is not 0, as the `char` that it is assigned to, and what follows it.
unfoldable pub getkey_block : List ℕ → Option (ℕ × List ℕ)
getkey_block [] = none
getkey_block (val ∷ keys) = if val == 0 then getkey_block keys else some (val % 256, keys)

abbrev pub show : Bool → ℕ → Reading → Reading
show out_while_type key (returned out shown keys) =
    returned out (if out_while_type then key ∷ shown else shown) keys
show out_while_type key waiting = waiting
show out_while_type key fault = fault

-- `out[i] = c` and what comes next.
abbrev pub store : List ℕ → ℕ → ℕ → (List ℕ → Reading) → Reading
store out i c next = if ltb i (length out) then next (set out i c) else fault

-- The loop, from `i` on; each round reads a key, so that a round for each key and one more are
-- enough. A backspace takes 2 from `i`, and the loop's step adds 1.
unfoldable pub readline_loop : ℕ → List ℕ → ℕ → Bool → ℕ → List ℕ → Reading
readline_loop zero keys max out_while_type i out = waiting
readline_loop (suc f) keys max out_while_type i out =
    if ltb i (max - 1)
    then elim (getkey_block keys) [
      | none ↦ waiting
      | some (key, keys') ↦
          let back = store out (i - 1) 0 (readline_loop f keys' max out_while_type (i - 1)) in
          let next = store out i key (readline_loop f keys' max out_while_type (i + 1)) in
          if key == 13
          then store out i 0 (λ out'. returned out' [] keys')
          else show out_while_type key (if (key == 8) && leb 1 i then back else next)
    ]
    else store out i 0 (λ out'. returned out' [] keys)

unfoldable pub terminal_readline : List ℕ → List ℕ → ℕ → Bool → Reading
terminal_readline keys out max out_while_type =
    readline_loop (length keys + 1) keys max out_while_type 0 out
