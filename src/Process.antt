-- ===== src/Process.antt =====
-- src/task/process.c: the table of processes, and the memory that a process asks for. The page
-- tables are taken to lie apart from the blocks that are handed out.
pub mod Allocations
pub mod Asking
pub mod Loading
pub mod Segments
pub mod Starting
pub mod Outcome
use tmp_os.Base.{
  ℕ, zero, suc, ◌+◌, ◌-◌, ◌%◌, ◌^◌, ◌==◌, Bool, true, false, ◌||◌, ltb, leb, Option, none, some,
  List, [], ◌∷◌, if◌then◌else◌, get_elem?, set,
}
use tmp_os.Base.Int.{ℤ, pos, negsuc, is_neg}
use tmp_os.Base.Errno.{neg_eistkn}
use tmp_os.Memory.Heap.{Heap}
use tmp_os.Memory.Kheap.{Memory, kzalloc, kfree}
use tmp_os.Paging.{Words, page_size, paging_is_aligned, paging_map_to}
use tmp_os.File.{first_free}

abbrev pub max_processes : ℕ
max_processes = 12

abbrev pub max_program_allocations : ℕ
max_program_allocations = 1024

-- PAGING_IS_WRITABLE | PAGING_IS_PRESENT | PAGING_ACESS_FROM_ALL
abbrev pub user_flags : ℕ
user_flags = 7

pub record ProcessAllocation : Type 0 where
  pub ptr : ℕ
  pub size : ℕ

-- A process as far as its memory goes: its allocations and its task's page directory.
pub record Process : Type 0 where
  pub allocations : List ProcessAllocation
  pub page_dir : ℕ

-- The kernel's heap, the contents of its blocks, and the page tables.
pub record Machine : Type 0 where
  pub heap : Heap
  pub blocks : Memory
  pub tables : Words

-- The outer `none`: an element beyond the table is read.
unfoldable pub process_get : ℤ → List (Option Process) → Option (Option Process)
process_get (negsuc n) processes = some none
process_get (pos id) processes = if ltb max_processes id then some none else get_elem? processes id

unfoldable pub process_get_free_slot : List (Option Process) → ℤ
process_get_free_slot processes = elim (first_free processes 0) [
  | none ↦ neg_eistkn
  | some i ↦ pos i
]

unfoldable pub paging_align_address : ℕ → ℕ
paging_align_address addr =
    if addr % page_size == 0 then addr else (addr + page_size - addr % page_size) % 2 ^ 32

-- The first allocation with this pointer, from number `i` on; a free one has the pointer 0.
unfoldable pub find_allocation : ℕ → List ProcessAllocation → ℕ → Option ℕ
find_allocation p [] i = none
find_allocation p (a ∷ l) i =
    let rest = find_allocation p l (i + 1) in if a.ptr == p then some i else rest

-- `none` for -ENOMEM.
unfoldable pub process_find_free_alloc_index : Process → Option ℕ
unfolding find_allocation
process_find_free_alloc_index process = find_allocation 0 process.allocations 0

unfoldable pub process_get_allocation_by_addr : Process → ℕ → Option ProcessAllocation
unfolding find_allocation
process_get_allocation_by_addr process addr = elim (find_allocation addr process.allocations 0) [
  | none ↦ none
  | some i ↦ get_elem? process.allocations i
]

-- `process_malloc` behind the allocation of `ptr`. Its mapping's result is not looked at.
unfoldable pub record_allocation : ℕ → ℕ → Process → Machine → Option (ℕ × Process × Machine)
record_allocation ptr size process m = elim (process_find_free_alloc_index process) [
  | none ↦ elim (kfree ptr m.heap) [
    | none ↦ none
    | some heap ↦ some (0, process, record m { heap = heap })
  ]
  | some index ↦
      let end = paging_align_address ((ptr + size) % 2 ^ 32) in
      let (res, tables) = paging_map_to process.page_dir ptr ptr end user_flags m.tables in
      some (
        ptr,
        record process {
          allocations = set process.allocations index (record { ptr = ptr; size = size });
        },
        record m { tables = tables },
      )
]

-- `none`: `kfree` reads beyond the heap's table.
unfoldable pub process_malloc : ℕ → Process → Machine → Option (ℕ × Process × Machine)
unfolding record_allocation
process_malloc size process m =
    let (ptr, heap, blocks) = kzalloc size m.heap m.blocks in
    let m' = record m { heap = heap; blocks = blocks } in
    if ptr == 0 then some (0, process, m') else record_allocation ptr size process m'

-- The loop that gives back all allocations with this pointer.
unfoldable pub clear_allocations : ℕ → List ProcessAllocation → List ProcessAllocation
clear_allocations p [] = []
clear_allocations p (a ∷ l) =
    (if a.ptr == p then (record { ptr = 0; size = 0 }) else a) ∷ clear_allocations p l

-- `process_free` from the mapping on.
unfoldable pub release : ℕ → ProcessAllocation → Process → Machine → Option (Process × Machine)
release ptr pa process m =
    let end = paging_align_address ((pa.ptr + pa.size) % 2 ^ 32) in
    let (res, tables) = paging_map_to process.page_dir pa.ptr pa.ptr end 0 m.tables in
    if is_neg res then some (process, record m { tables = tables }) else elim (kfree ptr m.heap) [
      | none ↦ none
      | some heap ↦ some (
        record process { allocations = clear_allocations ptr process.allocations },
        record m { heap = heap; tables = tables },
      )
    ]

unfoldable pub process_free : ℕ → Process → Machine → Option (Process × Machine)
unfolding release
process_free ptr process m = elim (process_get_allocation_by_addr process ptr) [
  | none ↦ some (process, m)
  | some pa ↦ release ptr pa process m
]
