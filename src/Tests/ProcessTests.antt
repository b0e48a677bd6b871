-- ===== src/Tests/ProcessTests.antt =====
-- src/memory/paging.c, src/task/process.c and the names of src/fs/fat/fat16.c on small inputs.

use tmp_os.Base.{
  ℕ, ◌+◌, ◌-◌, ◌*◌, ◌/◌, ◌≡◌, ◌↔◌, ◌⊎◌, refl, none, some, Option, List, [], ◌∷◌, ◌++◌, arith,
  replicate,
}
use tmp_os.Base.Int.{pos}
use tmp_os.Memory.Heap.{Heap, HeapTable, heap_malloc}
use tmp_os.Memory.Kheap.{memset, kzalloc}
use tmp_os.Paging.{Words, page_size, paging_map_to, paging_get, address_only}
use tmp_os.Paging.Map.{IsDirectory, mapped, map_to-get}
use tmp_os.Process.{
  Process, ProcessAllocation, Machine, max_processes, process_get, process_malloc, process_free,
  find_allocation, user_flags,
}
use tmp_os.Process.Allocations.{
  Recorded, process_get_faults, process_malloc_cases, process_free_cases, Frees,
}
use tmp_os.Fat16.{fat16_get_full_relative_filename}
use tmp_os.Fat16.Names.{item_of, dotted, filename-dotted, full_name_runs_on}

-- A directory at 0x400000, and its tables behind 0x800000.
abbrev dir : ℕ
dir = 0x400000

abbrev tables : Words
tables a = 0x800000 + (a - dir) / 4 * page_size + 7

dir-IsDirectory : IsDirectory dir tables
dir-IsDirectory = record {
  aligned = refl;
  apart = λ i j l m ne e. omega arith;
  tables = λ i l e. omega arith;
}

map_to-get_example :
    let r = paging_map_to dir 0x400000 0x1000000 0x1003000 7 tables in
    (r.0 ≡ pos 0)
    × IsDirectory dir r.1
    × (paging_get dir 0x401000 r.1
        ≡ mapped 0x400000 0x1000000
            ((0x1003000 - 0x1000000) / page_size)
            7
            0x401000
            (paging_get dir 0x401000 tables))
map_to-get_example =
    map_to-get dir 0x400000 0x1000000 0x1003000 7 0x401000 tables dir-IsDirectory refl refl refl
      (omega arith) (omega arith) (omega arith) (omega arith) refl

mapped_page : mapped 0x400000 0x1000000 3 7 0x401000 0 ≡ 0x1001007
mapped_page = refl

abbrev no_processes : List (Option Process)
no_processes = replicate max_processes none

process_get_faults_example :
    (process_get (pos 12) no_processes ≡ none) ↔ (pos 12 ≡ pos max_processes)
process_get_faults_example = process_get_faults (pos 12) no_processes refl

abbrev heap8 : Heap
heap8 = record { table = record { entries = replicate 8 0; total = 8 }; saddr = 0x1000000 }

abbrev block_at : ℕ
block_at = 0x1000000

abbrev machine : Machine
machine = record { heap = heap8; blocks = λ a. 1; tables = tables }

abbrev idle : Process
idle = record { allocations = replicate 3 (record { ptr = 0; size = 0 }); page_dir = dir }

abbrev grown : Process
grown = record idle {
  allocations =
      (record { ptr = 0x1000000; size = 100 }) ∷ replicate 2 (record { ptr = 0; size = 0 });
}

abbrev after : Machine
after = record {
  heap = record heap8 { table = record { entries = 1 ∷ replicate 7 0; total = 8 } };
  blocks = memset 0x1000000 0 100 (λ a. 1);
  tables = (paging_map_to dir 0x1000000 0x1000000 0x1001000 user_flags tables).1;
}

malloc_run : process_malloc 100 idle machine ≡ some (0x1000000, grown, after)
unfolding process_malloc kzalloc heap_malloc tmp_os.Memory.Heap.heap_malloc_blocks
    tmp_os.Memory.Heap.find tmp_os.Memory.Heap.scan tmp_os.Memory.Heap.heap_align_value
    tmp_os.Process.process_find_free_alloc_index tmp_os.Memory.Heap.mark_blocks_taken
    tmp_os.Process.paging_align_address tmp_os.Memory.Heap.mark_loop
malloc_run = refl

process_malloc_cases_example : ((block_at ≡ 0) × (grown ≡ idle)) ⊎ Recorded idle 0x1000000 100 grown
process_malloc_cases_example =
    process_malloc_cases 100 0x1000000 idle grown machine after malloc_run

abbrev freed : Machine
freed = record after { tables = (paging_map_to dir 0x1000000 0x1000000 0x1001000 0 after.tables).1 }

free_run : process_free 0x1000000 grown after ≡ some (idle, freed)
unfolding process_free tmp_os.Process.process_get_allocation_by_addr paging_map_to
    tmp_os.Process.paging_align_address tmp_os.Paging.paging_map_range tmp_os.Paging.map_pages
    tmp_os.Paging.paging_map tmp_os.Memory.Heap.heap_free tmp_os.Memory.Heap.free_loop
    tmp_os.Process.clear_allocations
free_run = refl

process_free_cases_example : Frees 0x1000000 grown after idle freed
process_free_cases_example =
    process_free_cases 0x1000000 grown idle after freed (omega arith) free_run

abbrev tx : List ℕ
tx = b'T' ∷ b'X' ∷ []

abbrev eight : List ℕ
eight = replicate 8 b'A'

filename-dotted_example :
    fat16_get_full_relative_filename (item_of (b'A' ∷ []) 7 tx (0x20 ∷ []))
    ≡ some (dotted (b'A' ∷ []) tx)
filename-dotted_example =
    filename-dotted (b'A' ∷ []) tx [] 6 0x20 (omega arith, omega arith, tt)
      (omega arith, omega arith, (omega arith, omega arith, tt)) refl refl

full_name_runs_on_example :
    fat16_get_full_relative_filename (item_of eight 0 tx (0x20 ∷ []))
    ≡ some (dotted (eight ++ tx) tx)
full_name_runs_on_example =
    full_name_runs_on eight tx [] 0x20
      (
        omega arith,
        omega arith,
        (
          omega arith,
          omega arith,
          (
            omega arith,
            omega arith,
            (
              omega arith,
              omega arith,
              (
                omega arith,
                omega arith,
                (
                  omega arith,
                  omega arith,
                  (omega arith, omega arith, (omega arith, omega arith, tt)),
                ),
              ),
            ),
          ),
        ),
      )
      (omega arith, omega arith, (omega arith, omega arith, tt)) refl refl
