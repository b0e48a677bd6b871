-- ===== src/Isr80h/Memory.antt =====
-- src/isr80h/heap.c: the system calls for memory, with their argument from the stack of the task.
use tmp_os.Base.{
  ℕ, ◌+◌, ◌-◌, ◌*◌, ◌%◌, ◌^◌, ◌<◌, ◌≤◌, ◌≡◌, ◌≢◌, refl, ◌==◌, false, Option, none, some,
  if◌then◌else◌, arith,
}
use tmp_os.Memory.Pages.{IsReady, Given, free_blocks}
use tmp_os.Paging.{Words, page_size}
use tmp_os.Paging.Map.{IsDirectory}
use tmp_os.Paging.Chunk.{paging_4gb_chunk_get_dir}
use tmp_os.Process.{Process, Machine, find_allocation, process_malloc, process_free}
use tmp_os.Process.Loading.{program_virtual_stack_address_end, user_program_stack_size}
use tmp_os.Process.Allocations.{Recorded}
use tmp_os.Process.Asking.{process_malloc-Given}
use tmp_os.Task.{Tasks, program_virtual_stack_address_start}
use tmp_os.Task.Stack.{Mmu, IsMmu, Paged, task_get_stack_item}
use tmp_os.Task.Arguments.{with_stack, stack_item-mapped}

-- The tasks, `kernel_chunk`, the process of the current task, and the machine, whose page tables
-- are the words in memory.
pub record System : Type 0 where
  pub tasks : Tasks
  pub kernel_chunk : ℕ
  pub process : Process
  pub machine : Machine

abbrev pub paged : System → Paged
paged s = record { tasks = s.tasks; mem = s.machine.tables; kernel_chunk = s.kernel_chunk }

-- The first word on the stack of the current task, and the system behind the reading of it.
unfoldable pub first_argument : Mmu → System → ℕ × System
first_argument mmu s =
    let (item, after) = task_get_stack_item mmu s.tasks.curr_task 0 (paged s) in
    (item, record s { tasks = after.tasks })

-- The calls behind the reading of the argument.
unfoldable pub give : ℕ → System → Option (ℕ × System)
give size s = elim (process_malloc size s.process s.machine) [
  | none ↦ none
  | some (ptr, process, machine) ↦ some (ptr, record s { process = process; machine = machine })
]

unfoldable pub take_back : ℕ → System → Option System
take_back ptr s = elim (process_free ptr s.process s.machine) [
  | none ↦ none
  | some (process, machine) ↦ some (record s { process = process; machine = machine })
]

-- `none`: there is no current task, or a call below does not return.
unfoldable pub isr80h_command4_malloc : Mmu → System → Option (ℕ × System)
unfolding give
isr80h_command4_malloc mmu s =
    let (size, s') = first_argument mmu s in if s.tasks.curr_task == 0 then none else give size s'

unfoldable pub isr80h_command5_free : Mmu → System → Option System
unfolding take_back
isr80h_command5_free mmu s =
    let (ptr, s') = first_argument mmu s in
    if s.tasks.curr_task == 0 then none else take_back ptr s'

-- The current task's stack is mapped as for a new process, in a table that is present, and its
-- pointer lies inside it.
pub record HasStack (mmu : Mmu) (dir stack : ℕ) (mem : Words) (s : System) : Type 0 where
  pub is_mmu : IsMmu mmu
  pub directory : IsDirectory dir mem
  pub aligned : stack % page_size ≡ 0
  pub fits : stack + user_program_stack_size < 2 ^ 32
  pub tables : s.machine.tables ≡ with_stack dir stack mem
  pub present : s.machine.tables dir % 2 ≡ 1
  pub current : s.tasks.curr_task ≢ 0
  pub own :
      paging_4gb_chunk_get_dir (s.tasks.task_at s.tasks.curr_task).page_dir s.machine.tables ≡ dir
  pub lower : program_virtual_stack_address_end ≤ (s.tasks.task_at s.tasks.curr_task).registers.esp
  pub upper :
      (s.tasks.task_at s.tasks.curr_task).registers.esp < program_virtual_stack_address_start

-- The word on top of the stack, in physical memory.
abbrev pub top_word : ℕ → System → ℕ
top_word stack s = s.machine.tables (
    stack + ((s.tasks.task_at s.tasks.curr_task).registers.esp - program_virtual_stack_address_end))

not_zero : (n : ℕ) → n ≢ 0 → (n == 0) ≡ false
not_zero n h = ground (arith, h)

argument_lem :
    (mmu : Mmu) (dir stack : ℕ) (mem : Words) (s : System)
    → HasStack mmu dir stack mem s
    → first_argument mmu s
      ≡ (top_word stack s, record s { tasks = record (s.tasks) { loaded = s.kernel_chunk } })
unfolding first_argument
argument_lem mmu dir stack mem s h =
    let task = s.tasks.curr_task in
    let esp = (s.tasks.task_at task).registers.esp in
    let top : esp + 4 * 0 ≡ esp = omega arith in
    let item =
      stack_item-mapped mmu dir stack task 0 mem (paged s) h.is_mmu h.directory h.aligned h.fits
        h.tables h.present h.own (omega (arith, h.lower)) (omega (arith, h.upper)) in
    rw (item, top) refl

-- The system call `malloc` of a task whose stack is mapped, for the number of bytes that lies on top
-- of its stack and is at most a page: where the heap has a free block and the process a free slot,
-- it returns a page that nobody has, whose first bytes are set to zero, as many as were asked for,
-- and that is recorded with this size; the kernel's page tables are in use.
pub malloc-Given :
    (mmu : Mmu) (dir stack i : ℕ) (mem : Words) (s : System)
    → HasStack mmu dir stack mem s
    → IsReady s.machine.heap
    → 0 < free_blocks s.machine.heap
    → 0 < top_word stack s
    → top_word stack s ≤ page_size
    → find_allocation 0 s.process.allocations 0 ≡ some i
    → (p : ℕ) × (s' : System) × (isr80h_command4_malloc mmu s ≡ some (p, s'))
      × Given (top_word stack s) p s.machine.heap s'.machine.heap s.machine.blocks s'.machine.blocks
      × Recorded s.process p (top_word stack s) s'.process
      × (s'.tasks ≡ record (s.tasks) { loaded = s.kernel_chunk })
unfolding isr80h_command4_malloc
malloc-Given mmu dir stack i mem s h ready free a b slot =
    let size = top_word stack s in
    let (p, process', machine', e, g, r) =
      process_malloc-Given size i s.process s.machine ready free a b slot in
    let tasks = record (s.tasks) { loaded = s.kernel_chunk } in
    let current : (s.tasks.curr_task == 0) ≡ false = not_zero s.tasks.curr_task h.current in
    (
      p,
      record s { tasks = tasks; process = process'; machine = machine' },
      rw (current, argument_lem mmu dir stack mem s h, isr80h_command4_malloc) (rw (e, give) refl),
      g,
      r,
      refl,
    )
