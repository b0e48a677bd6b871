-- ===== src/Memory/Heap.antt =====
-- src/memory/heap.c: a table with one byte for each block of 4096 bytes.
-- A function that changes the heap returns the new one. Pointers are 32-bit numbers, 0 is NULL.
pub mod Mark
pub mod Search
pub mod Malloc
pub mod Free
pub mod Laws
pub mod Create
use tmp_os.Base.{
  ℕ, zero, suc, ◌+◌, ◌-◌, ◌*◌, ◌/◌, ◌%◌, ◌^◌, Bool, true, false, not, ◌||◌, Option, none, some,
  List, [], ◌∷◌, ltb, leb, ◌==◌, if◌then◌else◌, length, get_or, get_elem?, set, take, drop,
  replicate, ◌++◌,
}
use tmp_os.Base.Int.{ℤ, pos, add32, sub32}
use tmp_os.Base.Errno.{neg_einvarg}

abbrev pub block_size : ℕ
block_size = 4096

-- HEAP_BLOCK_TABLE_ENTRY_TAKEN, and its combinations with the two flags that the code writes.
abbrev pub entry_taken : ℕ
entry_taken = 0x01

abbrev pub entry_taken_first : ℕ
entry_taken_first = 0x41

abbrev pub entry_taken_has_next : ℕ
entry_taken_has_next = 0x81

abbrev pub entry_free : ℕ
entry_free = 0x00

pub record HeapTable : Type 0 where
  pub entries : List ℕ
  pub total : ℕ

pub record Heap : Type 0 where
  pub table : HeapTable
  pub saddr : ℕ

-- `(entry & 0x0f) != 0` and `entry & HEAP_BLOCK_HAS_NEXT`, for a byte.
abbrev pub is_taken : ℕ → Bool
is_taken e = not (e % 16 == 0)

abbrev pub has_next : ℕ → Bool
has_next e = e / 128 % 2 == 1

-- The result is a `bool`: -EINVARG reads as true.
heap_validate_table : ℕ → ℕ → HeapTable → Bool
heap_validate_table ptr end table = not (table.total == sub32 end ptr / block_size)

heap_validate_aligment : ℕ → Bool
heap_validate_aligment ptr = ptr % block_size == 0

-- `memset(table->entries, FREE, table->total)` over the memory that `entries` points at.
unfoldable pub clear_entries : HeapTable → List ℕ
clear_entries t = replicate t.total entry_free ++ drop t.total t.entries

-- On an error after the `memset` of `*heap` the fields are already written.
unfoldable pub heap_create : Heap → ℕ → ℕ → HeapTable → ℤ × Heap
unfolding heap_validate_table heap_validate_aligment
heap_create heap ptr end table =
    if not (heap_validate_aligment ptr) || not (heap_validate_aligment end)
    then (neg_einvarg, heap)
    else if heap_validate_table ptr end table
    then (neg_einvarg, record { table = table; saddr = ptr })
    else (pos 0, record { table = record table { entries = clear_entries table }; saddr = ptr })

unfoldable pub heap_align_value : ℕ → ℕ
heap_align_value val =
    if val % block_size == 0 then val else (val / block_size + 1) * block_size % 2 ^ 32

abbrev pub block_to_addr : ℕ → ℕ → ℕ
block_to_addr saddr block = (saddr + block * block_size) % 2 ^ 32

-- The loop of `mark_blocks_taken`, by the rounds left.
unfoldable pub mark_loop : ℕ → ℕ → List ℕ → List ℕ
mark_loop zero i es = es
mark_loop (suc k) i es = mark_loop k (i + 1) (set es i entry_taken_has_next)

unfoldable pub mark_blocks_taken : ℕ → ℕ → List ℕ → List ℕ
mark_blocks_taken start n es =
    let last = sub32 (add32 start n) 1 in
    set (mark_loop (last - start) start (set es start entry_taken_first)) last entry_taken

-- How the inner loop of `heap_malloc_blocks` ends: a run is complete, it meets a taken block `j`,
-- or the table ends.
pub data Scan : Type 0 where
  found : Scan
  stopped : ℕ → Scan
  ended : Scan

-- The inner loop, by the blocks left.
unfoldable pub scan : ℕ → List ℕ → ℕ → ℕ → ℕ → Scan
scan zero es n i j = ended
scan (suc k) es n i j =
    let rest = scan k es n i (j + 1) in
    if is_taken (get_or es j 0) then stopped j else if j - i + 1 == n then found else rest

-- The outer loop: the first block of the run that is chosen. Each round raises `i`, so as many
-- rounds as there are blocks are enough.
unfoldable pub find : ℕ → List ℕ → ℕ → ℕ → ℕ → Option ℕ
find zero es total n i = none
find (suc f) es total n i =
    let next = find f es total n (i + 1) in
    let here : Option ℕ = elim (scan (total - i) es n i i) [
      | found ↦ some i
      | stopped j ↦ find f es total n (j + 1)
      | ended ↦ find f es total n (i + 1)
    ] in
    if leb total i then none else if is_taken (get_or es i 0) then next else here

unfoldable pub heap_malloc_blocks : ℕ → Heap → ℕ × Heap
heap_malloc_blocks n heap = elim (find heap.table.total heap.table.entries heap.table.total n 0) [
  | none ↦ (0, heap)
  | some i ↦ (
    block_to_addr heap.saddr i,
    record heap {
      table = record (heap.table) { entries = mark_blocks_taken i n heap.table.entries };
    },
  )
]

unfoldable pub heap_malloc : ℕ → Heap → ℕ × Heap
heap_malloc size heap =
    if size == 0 then (0, heap) else heap_malloc_blocks (heap_align_value size / block_size) heap

-- The loop of `heap_free` from block `i`. `none`: it reads an entry beyond the table.
unfoldable pub free_loop : ℕ → ℕ → List ℕ → Option (List ℕ)
free_loop zero i es = none
free_loop (suc f) i es =
    let rest = free_loop f (i + 1) (set es i entry_free) in
    elim (get_elem? es i) [ none ↦ none | some e ↦ if has_next e then rest else some es ]

-- One round for each entry and one more read at most.
unfoldable pub heap_free : ℕ → Heap → Option Heap
heap_free ptr heap =
    elim (free_loop (length heap.table.entries + 1) (sub32 ptr heap.saddr / block_size)
      heap.table.entries) [
        | none ↦ none
        | some es ↦ some (record heap { table = record (heap.table) { entries = es } })
      ]
