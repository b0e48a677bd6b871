-- ===== src/Task/Arguments.antt =====
-- src/task/task.c: the arguments that a task has pushed.
use tmp_os.Base.{
  ℕ, ◌+◌, ◌-◌, ◌*◌, ◌/◌, ◌%◌, ◌^◌, ◌<◌, ◌≤◌, ◌≡◌, ◌∙◌, ap, ltb, leb, ◌&&◌, true, arith,
}
use tmp_os.Base.Bits.{bit_or_page}
use tmp_os.Paging.{Words, page_size, table_span, paging_get, paging_map_to}
use tmp_os.Paging.Map.{IsDirectory, map_to-get}
use tmp_os.Paging.Chunk.{paging_4gb_chunk_get_dir}
use tmp_os.Process.{user_flags}
use tmp_os.Process.Loading.{program_virtual_stack_address_end, user_program_stack_size}
use tmp_os.Task.{program_virtual_stack_address_start}
use tmp_os.Task.Stack.{Mmu, IsMmu, Paged, kernel_page, task_get_stack_item, read_virtual}

-- The memory with a stack mapped as `process_map_memory_process` does it.
abbrev pub with_stack : ℕ → ℕ → Words → Words
with_stack dir stack mem =
    (paging_map_to dir program_virtual_stack_address_end stack (stack + user_program_stack_size)
      user_flags mem).1

module _ (dir stack : ℕ) (mem : Words) (d : IsDirectory dir mem) (aligned : stack % page_size ≡ 0)
    (fits : stack + user_program_stack_size < 2 ^ 32) where
  stack_entry :
      (b : ℕ)
      → program_virtual_stack_address_end ≤ b
      → b < program_virtual_stack_address_start
      → b % page_size ≡ 0
      → paging_get dir b (with_stack dir stack mem)
        ≡ stack + (b - program_virtual_stack_address_end) + user_flags
  stack_entry b l m e =
      let found =
        map_to-get dir program_virtual_stack_address_end stack (stack + user_program_stack_size)
          user_flags b mem d (omega arith) aligned (omega arith) (omega arith) fits (omega arith)
          (omega arith) e in
      let inside : (leb program_virtual_stack_address_end b
            && ltb b (
                program_virtual_stack_address_end
                + (stack + user_program_stack_size - stack) / page_size * page_size))
          ≡ true =
        ground arith in
      found.2
      ∙ rw inside (
          bit_or_page (stack + (b - program_virtual_stack_address_end)) user_flags (omega arith)
            (omega arith))

  translated :
      (mmu : Mmu) (a : ℕ)
      → IsMmu mmu
      → with_stack dir stack mem dir % 2 ≡ 1
      → program_virtual_stack_address_end ≤ a
      → a < program_virtual_stack_address_start
      → mmu dir a (with_stack dir stack mem) ≡ stack + (a - program_virtual_stack_address_end)
  translated mmu a is_mmu present l m =
      let first : dir + 4 * (a / table_span) ≡ dir = omega arith in
      let b = a - a % page_size in
      let entry = stack_entry b (omega arith) (omega arith) (omega arith) in
      is_mmu.translates dir a (with_stack dir stack mem) (omega arith) (rw first present)
        (omega (arith, entry))
      ∙ omega (arith, entry)

-- Where a task's stack is mapped as for a new process and the first table of its directory is
-- present, `task_get_stack_item` reads the word that the
-- task has at this place of its stack, from the physical memory of the stack, and leaves the
-- kernel's page tables in use and all else as it was.
pub stack_item-mapped :
    (mmu : Mmu) (dir stack task index : ℕ) (mem : Words) (s : Paged)
    → IsMmu mmu
    → IsDirectory dir mem
    → stack % page_size ≡ 0
    → stack + user_program_stack_size < 2 ^ 32
    → s.mem ≡ with_stack dir stack mem
    → s.mem dir % 2 ≡ 1
    → paging_4gb_chunk_get_dir (s.tasks.task_at task).page_dir s.mem ≡ dir
    → program_virtual_stack_address_end ≤ (s.tasks.task_at task).registers.esp + 4 * index
    → (s.tasks.task_at task).registers.esp + 4 * index < program_virtual_stack_address_start
    → task_get_stack_item mmu task index s ≡ (
      s.mem (
          stack
          + ((s.tasks.task_at task).registers.esp + 4 * index - program_virtual_stack_address_end)),
      kernel_page s,
    )
unfolding task_get_stack_item read_virtual
stack_item-mapped mmu dir stack task index mem s is_mmu d aligned fits m present own l u =
    let a = (s.tasks.task_at task).registers.esp + 4 * index in
    let word : a % 2 ^ 32 ≡ a = omega arith in
    let address : mmu (paging_4gb_chunk_get_dir (s.tasks.task_at task).page_dir s.mem) (a % 2 ^ 32)
          s.mem
        ≡ stack + (a - program_virtual_stack_address_end) =
      rw (own, word, m)
        (translated dir stack mem d aligned fits mmu a is_mmu (rw (← m) present) l u) in
    ap (λ x. (s.mem x, kernel_page s)) address
