-- ===== src/Memory/Heap/Malloc.antt =====
-- `heap_malloc`: which run of blocks it hands out, and when it fails.
use tmp_os.Base.{
  ℕ, ◌+◌, ◌-◌, ◌*◌, ◌/◌, ◌%◌, ◌^◌, ◌≤◌, ◌<◌, ◌≡◌, refl, List, arith, ltb, leb, ◌==◌, if◌then◌else◌,
  ◌&&◌, length, get_or, some, none,
}
use tmp_os.Memory.Heap.{
  Heap, heap_malloc_blocks, heap_align_value, find, block_size, entry_taken, entry_taken_has_next,
}
use tmp_os.Memory.Heap.Search.{FreeRun, find-FreeRun}
use tmp_os.Memory.Heap.Mark.{length-mark, get_or-mark}

-- The table has an entry for each block, and the blocks lie inside the 32-bit address space.
pub record IsValid (h : Heap) : Type 0 where
  pub sized : length h.table.entries ≡ h.table.total
  pub nonzero : 0 < h.saddr
  pub fits : h.saddr + h.table.total * block_size < 2 ^ 32

-- The blocks that a request of `size` bytes takes.
abbrev pub blocks_for : ℕ → ℕ
blocks_for size = heap_align_value size / block_size

-- What a run of `n` blocks from `s` on looks like once it is marked.
abbrev pub Marked : List ℕ → List ℕ → ℕ → ℕ → Type 0
Marked es es' s n =
    (m : ℕ)
    → get_or es' m 0 ≡ (
        if leb s m && ltb m (s + n)
        then (if m + 1 == s + n then entry_taken else entry_taken_has_next)
        else get_or es m 0)

-- A heap after a successful request for `n` blocks at block `s`.
pub record Allocated (h : Heap) (n s p : ℕ) (h' : Heap) : Type 0 where
  pub positive : 0 < n
  pub address : p ≡ h.saddr + s * block_size
  pub run : FreeRun h.table.entries h.table.total n s
  pub marked : Marked h.table.entries h'.table.entries s n
  pub same_size : length h'.table.entries ≡ length h.table.entries
  pub same_total : h'.table.total ≡ h.table.total
  pub same_base : h'.saddr ≡ h.saddr

-- Rounding up to whole blocks wraps round only for the sizes of the last block of the range.
pub align_bounds :
    (size : ℕ)
    → size ≤ 2 ^ 32 - block_size
    → (size ≤ heap_align_value size)
      × (heap_align_value size < size + block_size)
      × (heap_align_value size % block_size ≡ 0)
unfolding heap_align_value
align_bounds size h = ground arith

pub align_wraps : (size : ℕ) → 2 ^ 32 - block_size < size → size < 2 ^ 32 → blocks_for size ≡ 0
unfolding heap_align_value
align_wraps size h l = ground arith

pub malloc_blocks-Allocated :
    (h : Heap) (n s : ℕ)
    → IsValid h
    → find h.table.total h.table.entries h.table.total n 0 ≡ some s
    → Allocated h n s (heap_malloc_blocks n h).0 (heap_malloc_blocks n h).1
unfolding heap_malloc_blocks
malloc_blocks-Allocated h n s v e =
    let (run, positive, _) = find-FreeRun h.table.total h.table.entries h.table.total n 0 s e in
    rw (e, heap_malloc_blocks)
      (record {
        positive = positive;
        address = omega (arith, run.fits, v.fits);
        run = run;
        marked = λ m.
            get_or-mark s n h.table.entries m positive (omega (arith, run.fits, v.sized))
              (omega (arith, v.fits, v.sized));
        same_size = length-mark s n h.table.entries;
        same_total = refl;
        same_base = refl;
      })

pub malloc_blocks-none :
    (h : Heap) (n : ℕ)
    → find h.table.total h.table.entries h.table.total n 0 ≡ none
    → heap_malloc_blocks n h ≡ (0, h)
unfolding heap_malloc_blocks
malloc_blocks-none h n e = rw (e, heap_malloc_blocks)
