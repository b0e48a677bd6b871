-- ===== src/Isr80h/Print.antt =====
-- src/isr80h/io.c: the system call that prints a string of the task.
use tmp_os.Base.{
  ℕ, zero, suc, ◌+◌, ◌%◌, ◌^◌, ◌<◌, ◌≡◌, ◌≢◌, refl, ap, length, true, false, ◌==◌, Option, none,
  some, List, [], ◌∷◌, ◌++◌, if◌then◌else◌, arith,
}
use mathlib.Core.Option
use tmp_os.Memory.Heap.{Heap}
use tmp_os.Memory.Kheap.{Memory}
use tmp_os.Memory.Pages.{IsReady, free_blocks}
use tmp_os.Terminal.{Terminal, print}
use tmp_os.Print.{text, printk}
use tmp_os.Print.Format.{
  string, Renders, nil, cons, spell, spell_all, args_of, args_all, text_of, printk-Renders,
}
use mathlib.Core.List.{append-nil}
use tmp_os.Paging.Chunk.{paging_4gb_chunk_get_dir}
use tmp_os.Task.{Tasks}
use tmp_os.Task.Stack.{Mmu, Paged, task_get_stack_item}
use tmp_os.Task.Copying.{words_of, copy_string_from_task}
use tmp_os.Task.Stray.{copy_string-leaks}

-- The tasks, `kernel_chunk`, the heap, the bytes in memory, and the terminal.
pub record Printer : Type 0 where
  pub tasks : Tasks
  pub kernel_chunk : ℕ
  pub heap : Heap
  pub memory : Memory
  pub terminal : Terminal

abbrev pub printer_pages : Printer → Paged
printer_pages s = record { tasks = s.tasks; mem = words_of s.memory; kernel_chunk = s.kernel_chunk }

-- The text in memory from `a` on, through a page table, by the bytes that it has at most. `none`: it
-- is longer.
unfoldable pub text_at : Mmu → ℕ → ℕ → ℕ → Memory → Option (List ℕ)
text_at mmu directory zero a mem = none
text_at mmu directory (suc n) a mem =
    let c = mem (mmu directory (a % 2 ^ 32) (words_of mem)) in
    let rest = Option.map (λ s. c ∷ s) (text_at mmu directory n (a + 1) mem) in
    if c == 0 then some [] else rest

abbrev pub print_max : ℕ
print_max = 1024

-- `printk` of the string at `buf`, which is of 1024 bytes with its terminator behind them at most.
unfoldable pub print_copied : Mmu → ℕ → ℕ → Printer → Option (ℕ × Printer)
unfolding text_at
print_copied mmu directory buf s = elim (text_at mmu directory (print_max + 1) buf s.memory) [
  | none ↦ none
  | some str ↦ elim (printk true (b'%' ∷ b's' ∷ 0 ∷ []) (text str ∷ []) s.terminal) [
    | none ↦ none
    | some (n, terminal) ↦ some (0, record s { terminal = terminal })
  ]
]

-- With the buffer at `buf`, on the stack of the kernel. `none`: there is no current task, the buffer
-- has no terminator, or `kfree` does not return.
unfoldable pub isr80h_command1_print : Mmu → ℕ → Printer → Option (ℕ × Printer)
unfolding print_copied
isr80h_command1_print mmu buf s =
    let task = s.tasks.curr_task in
    let (str, paged) = task_get_stack_item mmu task 0 (printer_pages s) in
    let directory = paging_4gb_chunk_get_dir s.kernel_chunk (words_of s.memory) in
    let copied =
      copy_string_from_task mmu directory (s.tasks.task_at task).page_dir str buf print_max s.heap
        s.memory in
    if task == 0 then none else elim copied [
      | none ↦ none
      | some (res, heap, memory) ↦
          print_copied mmu directory buf
            (record s { tasks = paged.tasks; heap = heap; memory = memory })
    ]

-- Once the copy left the text `str` at the buffer, it is printed as it is.
pub print_copied-print :
    (mmu : Mmu) (directory buf : ℕ) (s : Printer) (str : List ℕ)
    → text_at mmu directory (print_max + 1) buf s.memory ≡ some str
    → print_copied mmu directory buf s ≡ some (0, record s { terminal = print str s.terminal })
unfolding print_copied text_of spell spell_all args_of args_all
print_copied-print mmu directory buf s str e =
    let r : Renders (string str ∷ []) (str ++ []) = cons {p = string str} tt refl nil in
    let p : printk true (b'%' ∷ b's' ∷ 0 ∷ []) (text str ∷ []) s.terminal
        ≡ some (length (str ++ []), print (str ++ []) s.terminal) =
      printk-Renders (string str ∷ []) (str ++ []) [] s.terminal r in
    rw (e, p, print_copied)
      (ap (λ x. some (0, record s { terminal = print x s.terminal })) (append-nil str))

-- A system call to print, where the heap is ready and has a free block and there is a current task:
-- the copy of the string returns 0, the call prints what lies in the buffer then, and the heap has
-- one block less.
pub print_call-leaks :
    (mmu : Mmu) (buf : ℕ) (s : Printer)
    → IsReady s.heap
    → 0 < free_blocks s.heap
    → s.tasks.curr_task ≢ 0
    → (s' : Printer) × (isr80h_command1_print mmu buf s
        ≡ print_copied mmu (paging_4gb_chunk_get_dir s.kernel_chunk (words_of s.memory)) buf s')
      × (free_blocks s'.heap + 1 ≡ free_blocks s.heap)
      × (s'.terminal ≡ s.terminal)
      × (s'.tasks.loaded ≡ s.kernel_chunk)
unfolding isr80h_command1_print task_get_stack_item
print_call-leaks mmu buf s ready free current =
    let task = s.tasks.curr_task in
    let (str, paged) = task_get_stack_item mmu task 0 (printer_pages s) in
    let some_task : (task == 0) ≡ false = ground (arith, current) in
    let (heap, memory, e, less) =
      copy_string-leaks mmu (paging_4gb_chunk_get_dir s.kernel_chunk (words_of s.memory))
        (s.tasks.task_at task).page_dir str buf print_max s.heap s.memory ready free (omega arith)
        (omega arith) in
    (
      record s { tasks = paged.tasks; heap = heap; memory = memory },
      rw (some_task, e, isr80h_command1_print) refl,
      less,
      refl,
      refl,
    )
