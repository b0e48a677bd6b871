-- ===== src/Idt.antt =====
-- src/idt/idt.c: the interrupt descriptor table, the tables of callbacks and system calls.
pub mod Table
pub mod Commands
pub mod Paging
use tmp_os.Base.{
  ℕ, zero, suc, ◌+◌, ◌-◌, ◌*◌, ◌/◌, ◌%◌, ◌^◌, Bool, true, false, ◌||◌, Option, none, some, List, [],
  ◌∷◌, ◌++◌, ltb, leb, ◌==◌, if◌then◌else◌, length, get_elem?, set, replicate,
}
use tmp_os.Base.Int.{ℤ, pos, negsuc}
use tmp_os.Base.Errno.{neg_einvarg}

abbrev pub total_idescs : ℕ
total_idescs = 512

abbrev pub max_interrupts : ℕ
max_interrupts = 512

abbrev pub max_isr80h_commands : ℕ
max_isr80h_commands = 1024

-- `struct idt_desc`.
pub record IdtDesc : Type 0 where
  pub offset_1 : ℕ
  pub selector : ℕ
  pub zero_byte : ℕ
  pub type_attr : ℕ
  pub offset_2 : ℕ

abbrev pub empty_desc : IdtDesc
empty_desc = record { offset_1 = 0; selector = 0; zero_byte = 0; type_attr = 0; offset_2 = 0 }

unfoldable pub desc_for : ℕ → IdtDesc
desc_for address = record {
  offset_1 = address % 2 ^ 16;
  selector = 0x08;
  zero_byte = 0;
  type_attr = 0b11101110;
  offset_2 = address / 2 ^ 16;
}

unfoldable pub idt_set : ℕ → ℕ → List IdtDesc → List IdtDesc
idt_set int_num address descs = set descs int_num (desc_for address)

-- The loop of `idt_init` from entry `i`, over what is left of the pointer table.
unfoldable pub set_all : ℕ → List ℕ → List IdtDesc → List IdtDesc
set_all i [] descs = descs
set_all i (p ∷ pointers) descs = set_all (i + 1) pointers (idt_set i p descs)

-- `pointers` is the table of idt.asm, `idt_zero` and `wrapper` the addresses of two handlers.
unfoldable pub idt_init : List ℕ → ℕ → ℕ → List IdtDesc
idt_init pointers idt_zero wrapper =
    idt_set 0x80 wrapper
      (idt_set 0 idt_zero (set_all 0 pointers (replicate total_idescs empty_desc)))

-- Tables of function pointers; `none` is NULL.
module _ {ℓ} {F : Type ℓ} where
  unfoldable pub idt_register_interrupt_callback :
      ℤ → Option F → List (Option F) → ℤ × List (Option F)
  idt_register_interrupt_callback (negsuc n) callback callbacks = (neg_einvarg, callbacks)
  idt_register_interrupt_callback (pos i) callback callbacks =
      if leb max_interrupts i then (neg_einvarg, callbacks) else (pos 0, set callbacks i callback)

  -- `none`: the kernel panics.
  unfoldable pub isr80h_register_command : ℤ → F → List (Option F) → Option (List (Option F))
  isr80h_register_command (negsuc n) command commands = none
  isr80h_register_command (pos i) command commands =
      if leb max_isr80h_commands i then none else elim (get_elem? commands i) [
        | none ↦ none
        | some (some taken) ↦ none
        | some none ↦ some (set commands i (some command))
      ]

  -- The command that `isr80h_handle_command` calls.
  unfoldable pub find_command : ℤ → List (Option F) → Option F
  find_command (negsuc n) commands = none
  find_command (pos i) commands =
      if leb max_isr80h_commands i
      then none
      else elim (get_elem? commands i) [ none ↦ none | some c ↦ c ]

-- A command is called with the frame and changes the state of the kernel; without one the result
-- is 0.
module _ {ℓ κ} {Frame : Type ℓ} {S : Type κ} where
  unfoldable pub isr80h_handle_command : ℤ → Frame → List (Option (Frame → S → ℕ × S)) → S → ℕ × S
  unfolding find_command
  isr80h_handle_command command frame commands s = elim (find_command command commands) [
    | none ↦ (0, s)
    | some f ↦ f frame s
  ]
