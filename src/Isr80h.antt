-- ===== src/Isr80h.antt =====
-- src/isr80h: the system calls, and their registration at start-up.
pub mod Memory
pub mod Print
use tmp_os.Base.{
  ℕ, ◌+◌, ◌-◌, ◌%◌, ◌^◌, ◌≤◌, ◌<◌, ◌≡◌, ◌∙◌, refl, ap, true, Option, none, some, List, [], ◌∷◌, ltb,
  leb, if◌then◌else◌, length, get_elem?, arith, get_elem?-set, length-set, set, get_elem?-cons,
}
use native.Mathlib.Nat.{sub-zero}
use tmp_os.Base.Int.{pos}
use tmp_os.Keyboard.{CurrentTask, keyboard_pop}
use tmp_os.Terminal.{Terminal}
use tmp_os.Print.{printk, word}
use tmp_os.Idt.{max_isr80h_commands, isr80h_register_command, find_command}
use tmp_os.Idt.Commands.{register-find}

-- What the commands below work on: the terminal, the current task's keys, and the words on the
-- task's stack, which `task_get_stack_item` reads by their index.
pub record Kernel : Type 0 where
  pub terminal : Terminal
  pub current : CurrentTask
  pub stack : ℕ → ℕ

abbrev pub Command : Type 0
Command = Kernel → Option (ℕ × Kernel)

pub isr80h_command0_sum : Command
isr80h_command0_sum k = let v2 = k.stack 1 in let v1 = k.stack 0 in some ((v1 + v2) % 2 ^ 32, k)

-- The character is a signed `char`, and widened to an `int` with its sign.
pub isr80h_command2_getkey : Command
isr80h_command2_getkey k = elim (keyboard_pop k.current) [
  | none ↦ none
  | some (c, current') ↦
      some (if ltb c 128 then c else c + 2 ^ 32 - 256, record k { current = current' })
]

-- `printk("%c", c)`; the format's bytes with their terminator.
pub isr80h_command3_putchar : Command
isr80h_command3_putchar k =
    let c = k.stack 0 % 256 in
    elim (printk true (b'%' ∷ b'c' ∷ 0 ∷ []) (word c ∷ []) k.terminal) [
      | none ↦ none
      | some (n, terminal') ↦ some (0, record k { terminal = terminal' })
    ]

module _ {F : Type 0} where
  -- The commands to register, each at the next identifier.
  register_from : ℕ → List F → List (Option F) → Option (List (Option F))
  register_from i [] table = some table
  register_from i (f ∷ fs) table = elim (isr80h_register_command (pos i) f table) [
    | none ↦ none
    | some table' ↦ register_from (i + 1) fs table'
  ]

  -- `none`: the kernel panics.
  pub isr80h_register_commands :
      (sum print getkey putchar malloc free : F) → List (Option F) → Option (List (Option F))
  unfolding register_from
  isr80h_register_commands sum print getkey putchar malloc free table =
      register_from 0 (sum ∷ print ∷ getkey ∷ putchar ∷ malloc ∷ free ∷ []) table

  abbrev IsUnused : ℕ → List (Option F) → Type 0
  IsUnused i table = (j : ℕ) → i ≤ j → j < max_isr80h_commands → get_elem? table j ≡ some none

  register_free :
      (i : ℕ) (f : F) (table : List (Option F))
      → length table ≡ max_isr80h_commands
      → i < max_isr80h_commands
      → get_elem? table i ≡ some none
      → isr80h_register_command (pos i) f table ≡ some (set table i (some f))
  unfolding isr80h_register_command
  register_free i f table l b u = ground (arith, u)

  unused_lem :
      (i : ℕ) (table : List (Option F)) (j : ℕ)
      → (i ≤ j → j < max_isr80h_commands → get_elem? table j ≡ some none)
      → find_command (pos j) table ≡ (if leb i j then none else find_command (pos j) table)
  unfolding find_command
  unused_lem i table j u = ground (arith, u)

  register_from-find :
      (fs : List F) (i : ℕ) (table : List (Option F))
      → length table ≡ max_isr80h_commands
      → i + length fs ≤ max_isr80h_commands
      → IsUnused i table
      → (table' : List (Option F)) × (register_from i fs table ≡ some table')
        × ((j : ℕ)
            → find_command (pos j) table'
              ≡ (if leb i j then get_elem? fs (j - i) else find_command (pos j) table))
  unfolding register_from
  register_from-find [] i table l b u = (table, refl, λ j. unused_lem i table j (u j))
  register_from-find (f ∷ fs) i table l b u =
      let table1 = set table i (some f) in
      let r = register_free i f table l (omega arith) (u i (omega arith) (omega arith)) in
      let (x, e, g) =
        register_from-find fs (i + 1) table1 (length-set table i (some f) ∙ l) (omega arith)
          (λ j p q. ground (arith, get_elem?-set table i j (some f), u j)) in
      (
        x,
        rw (r, register_from) e,
        λ j.
            ground
              (arith, g j, (register-find i f table table1 j l r).2, get_elem?-cons f fs (j - i)),
      )

  from_start :
      (a b : Option F) (fs : List F) (j : ℕ)
      → a ≡ (if leb 0 j then get_elem? fs (j - 0) else b)
      → a ≡ get_elem? fs j
  from_start a b fs j e = ground (arith, e, ap (get_elem? fs) (sub-zero j))

  -- At start-up no command is taken, and afterwards the six identifiers find the six commands,
  -- and no other identifier finds any.
  pub register_commands-find :
      (sum print getkey putchar malloc free : F) (table : List (Option F))
      → length table ≡ max_isr80h_commands
      → IsUnused 0 table
      → (table' : List (Option F)) × (isr80h_register_commands sum print getkey putchar malloc free
            table
          ≡ some table')
        × ((j : ℕ)
            → find_command (pos j) table'
              ≡ get_elem? (sum ∷ print ∷ getkey ∷ putchar ∷ malloc ∷ free ∷ []) j)
  unfolding isr80h_register_commands
  register_commands-find sum print getkey putchar malloc free table l u =
      let (x, e, g) =
        register_from-find (sum ∷ print ∷ getkey ∷ putchar ∷ malloc ∷ free ∷ []) 0 table l
          (omega arith) u in
      (x, e, λ j. from_start _ _ (sum ∷ print ∷ getkey ∷ putchar ∷ malloc ∷ free ∷ []) j (g j))
