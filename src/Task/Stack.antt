-- ===== src/Task/Stack.antt =====
-- src/task/task.c and src/kernel.c: the kernel reads the memory of a task under the task's page
-- tables. How the processor translates an address is a parameter, `mmu`: by the directory in use,
-- the virtual address and the memory.
use tmp_os.Base.{ℕ, ◌+◌, ◌-◌, ◌*◌, ◌/◌, ◌%◌, ◌^◌, ◌<◌, ◌≡◌, Option, none, some}
use tmp_os.Base.Int.{ℤ}
use tmp_os.Memory.Heap.{Heap}
use tmp_os.Memory.Kheap.{kfree}
use tmp_os.Paging.{Words, page_size, table_span, address_only, paging_get}
use tmp_os.Paging.Chunk.{paging_4gb_chunk_get_dir, paging_free_chunk}
use tmp_os.Task.{Tasks, task_switch, task_list_remove}

abbrev pub Mmu : Type 0
Mmu = ℕ → ℕ → Words → ℕ

-- The documented behaviour of the processor: where the entry of the directory and the entry of the
-- table are present, a page is at the address of its entry.
pub record IsMmu (mmu : Mmu) : Type 0 where
  pub translates :
      (dir virt : ℕ) (mem : Words)
      → virt < 2 ^ 32
      → mem (dir + 4 * (virt / table_span)) % 2 ≡ 1
      → paging_get dir (virt - virt % page_size) mem % 2 ≡ 1
      → mmu dir virt mem
        ≡ address_only (paging_get dir (virt - virt % page_size) mem) + virt % page_size

-- The tasks, the words in memory, and `kernel_chunk`.
pub record Paged : Type 0 where
  pub tasks : Tasks
  pub mem : Words
  pub kernel_chunk : ℕ

-- `paging_switch` to the directory of a chunk.
abbrev pub switch_to : ℕ → Paged → Paged
switch_to chunk s = record s { tasks = record (s.tasks) { loaded = chunk } }

abbrev pub kernel_page : Paged → Paged
kernel_page s = switch_to s.kernel_chunk s

abbrev pub task_page : Paged → ℤ × Paged
task_page s =
    let (res, tasks) = task_switch s.tasks.curr_task s.tasks in (res, record s { tasks = tasks })

abbrev pub task_page_task : ℕ → Paged → Paged
task_page_task task s = switch_to (s.tasks.task_at task).page_dir s

-- A word that is read through the page tables in use.
unfoldable pub read_virtual : Mmu → ℕ → Paged → ℕ
read_virtual mmu virt s =
    s.mem (mmu (paging_4gb_chunk_get_dir s.tasks.loaded s.mem) (virt % 2 ^ 32) s.mem)

unfoldable pub task_get_stack_item : Mmu → ℕ → ℕ → Paged → ℕ × Paged
unfolding read_virtual
task_get_stack_item mmu task index s =
    let sp_ptr = (s.tasks.task_at task).registers.esp in
    let paged = task_page_task task s in
    (read_virtual mmu (sp_ptr + 4 * index) paged, kernel_page paged)

-- The release of a task, over the heap; `none`: `kfree` reads beyond the table of blocks.
unfoldable pub task_free : ℕ → Paged → Heap → Option (Paged × Heap)
task_free task s heap = elim (paging_free_chunk (s.tasks.task_at task).page_dir s.mem heap) [
  | none ↦ none
  | some heap' ↦
      let s' = record s { tasks = task_list_remove task s.tasks } in
      elim (kfree task heap') [ none ↦ none | some heap'' ↦ some (s', heap'') ]
]
