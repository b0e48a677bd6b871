-- ===== src/Tests/MemoryTests.antt =====
-- src/memory/heap.c, src/memory/kheap.c: a heap of eight blocks.
use tmp_os.Base.{
  ℕ, zero, suc, ◌+◌, ◌*◌, ◌/◌, ◌%◌, ◌≤◌, ◌<◌, ◌≡◌, ◌↔◌, ◌⊎◌, refl, false, some, [], ◌∷◌, arith,
  get_or, replicate, ltb, leb, ◌&&◌, if◌then◌else◌,
}
use tmp_os.Base.Int.{pos, sub32}
use tmp_os.Memory.Heap.{
  Heap, HeapTable, heap_create, heap_malloc, heap_free, block_size, entry_free, entry_taken,
  heap_malloc_blocks, has_next, find, scan, heap_align_value, entry_free,
}
use tmp_os.Memory.Heap.Search.{FreeRun}
use tmp_os.Memory.Heap.Malloc.{IsValid, Allocated, blocks_for, malloc_blocks-Allocated}
use tmp_os.Memory.Heap.Free.{NextInside, Chain}
use tmp_os.Memory.Heap.Laws.{
  heap_malloc-Allocated, heap_free_lem, heap_free-leaks, Allocated-IsValid,
}
use tmp_os.Memory.Heap.Create.{heap_create_iff, heap_create-IsValid}
use tmp_os.Memory.Kheap.{ksize, ksize-Allocated}

abbrev base : ℕ
base = 0x1000000

abbrev table8 : HeapTable
table8 = record { entries = replicate 8 7; total = 8 }

abbrev unset : Heap
unset = record { table = record { entries = []; total = 0 }; saddr = 0 }

-- The first three blocks are taken.
abbrev used : Heap
used = record {
  table = record { entries = 0x81 ∷ 0x81 ∷ 0x01 ∷ replicate 5 0; total = 8 };
  saddr = base;
}

used-IsValid : IsValid used
used-IsValid = record { sized = refl; nonzero = omega arith; fits = omega arith }

free_has_no_next : (n m : ℕ) → has_next (get_or (replicate n 0) m 0) ≡ false
free_has_no_next zero m = refl
free_has_no_next (suc n) zero = refl
free_has_no_next (suc n) (suc m) = free_has_no_next n m

used-NextInside : NextInside (used.table.entries)
used-NextInside zero h = omega arith
used-NextInside (suc zero) h = omega arith
used-NextInside (suc (suc zero)) h = omega arith
used-NextInside (suc (suc (suc m))) h = absurd (cc (free_has_no_next 5 m))

-- 5000 bytes take two blocks.
used_twice : Allocated used 2 3 (heap_malloc_blocks 2 used).0 (heap_malloc_blocks 2 used).1
unfolding find scan
used_twice = malloc_blocks-Allocated used 2 3 used-IsValid refl

heap_malloc_run : (heap_malloc 5000 used).0 ≡ base + 3 * block_size
unfolding heap_malloc heap_malloc_blocks heap_align_value find scan
heap_malloc_run = refl

heap_malloc-Allocated_example :
    ((s : ℕ) × Allocated used
        (blocks_for 5000)
        s
        (heap_malloc 5000 used).0
        (heap_malloc 5000 used).1
      × (5000 ≤ blocks_for 5000 * block_size))
    ⊎ (((heap_malloc 5000 used).0 ≡ 0)
        × ((heap_malloc 5000 used).1 ≡ used)
        × ((s : ℕ) → ¬ FreeRun used.table.entries 8 (blocks_for 5000) s))
heap_malloc-Allocated_example =
    heap_malloc-Allocated used 5000 used-IsValid (omega arith) (omega arith)

heap_free_lem_example :
    (k : ℕ) × (h' : Heap) × (heap_free (base + 0 * block_size) used ≡ some h')
    × Chain used.table.entries 0 k
    × ((m : ℕ)
        → get_or h'.table.entries m 0
          ≡ (if leb 0 m && ltb m (0 + k) then entry_free else get_or used.table.entries m 0))
    × IsValid h'
    × NextInside h'.table.entries
heap_free_lem_example = heap_free_lem used 0 used-IsValid used-NextInside (omega arith)

heap_free-leaks_example :
    (h'' : Heap) × (heap_free (heap_malloc_blocks 2 used).0 (heap_malloc_blocks 2 used).1
      ≡ some h'')
    × ((m : ℕ) → 3 ≤ m → m + 1 < 5 → get_or h''.table.entries m 0 ≡ entry_free)
    × (get_or h''.table.entries 4 0 ≡ entry_taken)
heap_free-leaks_example =
    heap_free-leaks used 2 3 (heap_malloc_blocks 2 used).0 (heap_malloc_blocks 2 used).1
      used-IsValid used-NextInside used_twice

Allocated-IsValid_example :
    IsValid (heap_malloc_blocks 2 used).1 × NextInside (heap_malloc_blocks 2 used).1.table.entries
Allocated-IsValid_example =
    Allocated-IsValid used 2 3 (heap_malloc_blocks 2 used).0 (heap_malloc_blocks 2 used).1
      used_twice used-IsValid used-NextInside

ksize-Allocated_example :
    ksize (heap_malloc_blocks 2 used).0 (heap_malloc_blocks 2 used).1 ≡ some block_size
ksize-Allocated_example =
    ksize-Allocated used 2 3 (heap_malloc_blocks 2 used).0 (heap_malloc_blocks 2 used).1
      used-IsValid used-NextInside used_twice

heap_create_iff_example : ((heap_create unset base (base + 8 * block_size) table8).0 ≡ pos 0) ↔ (
    (base % block_size ≡ 0)
    × ((base + 8 * block_size) % block_size ≡ 0)
    × (8 ≡ sub32 (base + 8 * block_size) base / block_size))
heap_create_iff_example = heap_create_iff unset base (base + 8 * block_size) table8

heap_create-IsValid_example :
    let h' = (heap_create unset base (base + 8 * block_size) table8).1 in
    IsValid h'
    × NextInside h'.table.entries
    × (h'.saddr ≡ base)
    × (h'.table.total ≡ 8)
    × ((m : ℕ) → get_or h'.table.entries m 0 ≡ entry_free)
unfolding heap_create
heap_create-IsValid_example =
    heap_create-IsValid unset base (base + 8 * block_size) table8 refl refl (omega arith)
      (omega arith) (omega arith)
