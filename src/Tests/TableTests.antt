-- ===== src/Tests/TableTests.antt =====
-- src/gdt, src/idt and src/isr80h on small inputs.
use tmp_os.Base.{
  ℕ, ◌%◌, ◌<◌, ◌≡◌, ◌↔◌, refl, none, some, Option, List, [], ◌∷◌, arith, length, get_or, replicate,
  ◌==◌, if◌then◌else◌, get_elem?, set, length-replicate, get_elem?-replicate,
}
use tmp_os.Base.Int.{pos}
use tmp_os.Gdt.{GdtStructured, Gdt, encode_gdt_entry, decode, decode-encode, encode_panics_iff}
use tmp_os.Idt.{
  IdtDesc, idt_init, total_idescs, max_isr80h_commands, isr80h_register_command, find_command,
}
use tmp_os.Idt.Table.{handler, idt_init-handler}
use tmp_os.Idt.Commands.{register-find}
use tmp_os.Idt.Paging.{
  Runs, kernel, task, interrupt_handler, isr80h_handler, interrupt_handler-Runs,
  isr80h_handler-Runs, Action, load_kernel_page, save_state, call_callback, load_task_page,
  end_of_interrupt,
}
use tmp_os.Isr80h.{isr80h_register_commands, register_commands-find}

-- A flat code segment.
abbrev code_segment : GdtStructured
code_segment = record { base = 0; limit = 0xFFFFFFFF; type = 0x9A }

abbrev code_bytes : Gdt
code_bytes = record { b0 = 0xFF; b1 = 0xFF; b2 = 0; b3 = 0; b4 = 0; b5 = 0x9A; b6 = 0xCF; b7 = 0 }

decode-encode_example : decode code_bytes ≡ code_segment
unfolding encode_gdt_entry
decode-encode_example =
    decode-encode code_segment code_bytes
      (record { base_word = omega arith; limit_word = omega arith }) refl

encode_panics_iff_example :
    (encode_gdt_entry code_segment ≡ none) ↔ ((65536 < 0xFFFFFFFF) × (0xFFFFFFFF % 4096 < 4095))
encode_panics_iff_example = encode_panics_iff code_segment

abbrev pointers : List ℕ
pointers = replicate total_idescs 0x1234

idt_init-handler_example :
    (d : IdtDesc) × (get_elem? (idt_init pointers 0x10 0x20) 0x80 ≡ some d)
    × (handler d
        ≡ (if 0x80 == 0x80 then 0x20 else if 0x80 == 0 then 0x10 else get_or pointers 0x80 0))
    × (d.selector ≡ 0x08)
    × (d.type_attr ≡ 0xEE)
idt_init-handler_example =
    idt_init-handler pointers 0x10 0x20 0x80 (length-replicate {A = ℕ} total_idescs 0x1234)
      (omega arith)

abbrev unused : List (Option ℕ)
unused = replicate max_isr80h_commands none

register-find_example :
    (find_command (pos 2) unused ≡ none)
    × (length (set unused 2 (some 7)) ≡ max_isr80h_commands)
    × (find_command (pos 2) (set unused 2 (some 7))
        ≡ (if 2 == 2 then some 7 else find_command (pos 2) unused))
unfolding isr80h_register_command
register-find_example =
    register-find 2 7 unused (set unused 2 (some 7)) 2
      (length-replicate {A = Option ℕ} max_isr80h_commands none) refl

register_commands-find_example :
    (table' : List (Option ℕ)) × (isr80h_register_commands 10 11 12 13 14 15 unused ≡ some table')
    × ((j : ℕ) → find_command (pos j) table' ≡ get_elem? (10 ∷ 11 ∷ 12 ∷ 13 ∷ 14 ∷ 15 ∷ []) j)
register_commands-find_example =
    register_commands-find 10 11 12 13 14 15 unused
      (length-replicate {A = Option ℕ} max_isr80h_commands none)
      (λ j l h. get_elem?-replicate max_isr80h_commands j none h)

abbrev clock_steps : List Action
clock_steps =
    load_kernel_page ∷ save_state ∷ call_callback 0 ∷ load_task_page ∷ end_of_interrupt ∷ []

interrupt_handler-Runs_example : Runs kernel clock_steps task
unfolding interrupt_handler
interrupt_handler-Runs_example =
    interrupt_handler-Runs {F = ℕ} (some 5 ∷ []) 0 clock_steps kernel refl

isr80h_handler-Runs_example : Runs kernel (isr80h_handler unused (pos 3)) task
isr80h_handler-Runs_example = isr80h_handler-Runs unused (pos 3) kernel
