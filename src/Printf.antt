-- ===== src/Printf.antt =====
-- progs/stdlib/src/print.c: formatted output of the user programs, as the characters that it hands
-- to the system calls. The loops for the digits are written as in the kernel; `alloc` says whether
-- `malloc` yields memory for a text.
pub mod Output
use tmp_os.Base.{
  ℕ, zero, suc, ◌+◌, ◌-◌, ◌%◌, ◌^◌, ◌==◌, Bool, true, false, ◌||◌, Option, none, some, List, [],
  ◌∷◌, ◌++◌, ltb, if◌then◌else◌, length, replicate,
}
use tmp_os.Base.Int.{ℤ, pos, negsuc, signed32}
use tmp_os.Print.{count_digits, fill, fill_negative, magnitude, Arg, word, text, Got, fault, got}

-- What a call that allocates returns: NULL, or a text. `none`: it writes through NULL.
abbrev pub Made : Type 0
Made = Option (Option (List ℕ))

-- `malloc` of no bytes yields NULL, too, and the result is not checked.
unfoldable pub strdup_3 : Bool → List ℕ → Made
strdup_3 alloc [] = none
strdup_3 alloc (c ∷ s) = if alloc then some (some (c ∷ s)) else none

-- For a base that is not 0.
unfoldable pub itoau : Bool → ℕ → ℕ → Made
unfolding strdup_3
itoau alloc base num =
    if ltb 32 base
    then some none
    else if num == 0
    then strdup_3 alloc (b'0' ∷ [])
    else elim (count_digits (num + 1) base num 0) [
      | none ↦ some none
      | some size ↦ some (if alloc then some (fill size base num []) else none)
    ]

-- The case of the least `int`, by its magnitude.
unfoldable pub itoa_least : Bool → ℕ → ℕ → Made
itoa_least alloc base num =
    if ltb 32 base then some none else elim (count_digits (num + 1) base num 0) [
      | none ↦ some none
      | some size ↦ some (if alloc then some (fill_negative size base num []) else none)
    ]

unfoldable pub itoa : Bool → ℕ → ℤ → Made
unfolding itoau itoa_least
itoa alloc base num =
    if ltb (magnitude num) (2 ^ 31)
    then itoau alloc base (magnitude num)
    else itoa_least alloc base (magnitude num)

-- `none`: a string of more than 8 characters makes the padding run over the buffer.
unfoldable pub makeaddr : List ℕ → Option (List ℕ)
makeaddr s =
    if ltb 8 (length s) then none else some (b'0' ∷ b'x' ∷ (replicate (8 - length s) b'0' ++ s))

unfoldable pub made : Made → List Arg → Got
made none args = fault
made (some s) args = got s args

-- `va_arg` for a word, with what is made of it.
unfoldable pub arg_word : List Arg → (ℕ → Made) → Got
unfolding made
arg_word (word w ∷ args) f = made (f w) args
arg_word (text s ∷ args) f = fault
arg_word [] f = fault

-- And for a string, which is copied.
unfoldable pub arg_text : Bool → List Arg → Got
unfolding made strdup_3
arg_text alloc (text s ∷ args) = made (strdup_3 alloc s) args
arg_text alloc (word w ∷ args) = fault
arg_text alloc [] = fault

-- For `%p`, where nothing checks the text of the number or the memory for the address.
unfoldable pub address_text : Bool → ℕ → Made
unfolding itoau makeaddr
address_text alloc w = elim (itoau alloc 16 w) [
  | none ↦ none
  | some none ↦ none
  | some (some s) ↦ elim (makeaddr s) [ none ↦ none | some a ↦ some (some a) ]
]

-- By the character behind the `%`.
unfoldable pub getarg : Bool → ℕ → List Arg → Got
unfolding arg_word arg_text address_text made strdup_3 itoa
getarg alloc c args =
    if (c == b'i') || (c == b'd')
    then arg_word args (λ w. itoa alloc 10 (signed32 w))
    else if c == b'%'
    then made (strdup_3 alloc (b'%' ∷ [])) args
    else if c == b'X'
    then arg_word args (λ w. itoa alloc 16 (signed32 w))
    else if c == b's'
    then arg_text alloc args
    else if c == b'c'
    then arg_word args (λ w. strdup_3 alloc (if w % 256 == 0 then [] else (w % 256) ∷ []))
    else if c == b'p'
    then arg_word args (address_text alloc)
    else got none args

-- The count, and what is written.
unfoldable pub printarg : Option (List ℕ) → ℕ × List ℕ
printarg none = (0, [])
printarg (some s) = (length s, s)

-- The loop of `printf` over the bytes from `form` on, with the count so far. `none`: a byte beyond
-- the buffer is read, or `getarg` fails.
unfoldable pub printf_loop : Bool → List ℕ → List Arg → ℕ → Option (ℕ × List ℕ)
printf_loop alloc [] args i = none
printf_loop alloc (c ∷ []) args i = if c == 0 then some (i, []) else none
printf_loop alloc (c ∷ d ∷ form) args i =
    let plain : Option (ℕ × List ℕ) = elim (printf_loop alloc (d ∷ form) args (i + 1)) [
      | none ↦ none
      | some (n, s) ↦ some (n, c ∷ s)
    ] in
    let directive : Option (ℕ × List ℕ) = elim (getarg alloc d args) [
      | fault ↦ none
      | got arg args' ↦
          let (k, s) = printarg arg in
          elim (printf_loop alloc form args' (i + k)) [
            | none ↦ none
            | some (n, s') ↦ some (n, s ++ s')
          ]
    ] in
    if c == 0 then some (i, []) else if c == b'%' then directive else plain

-- With a format that is not NULL.
unfoldable pub printf : Bool → List ℕ → List Arg → Option (ℕ × List ℕ)
unfolding printf_loop
printf alloc form args = printf_loop alloc form args 0
