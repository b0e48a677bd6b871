-- ===== src/Memory/Heap/Laws.antt =====
-- The contract of `heap_malloc` and `heap_free`.
use tmp_os.Base.{
  ℕ, ◌+◌, ◌-◌, ◌*◌, ◌/◌, ◌^◌, ◌≤◌, ◌<◌, ◌≡◌, ◌∙◌, refl, List, arith, ltb, leb, ◌==◌, if◌then◌else◌,
  ◌&&◌, length, get_or, Bool-cases, Option-cases, sym, ap, inl, inr, some, ◌⊎◌,
}
use tmp_os.Base.Int.{sub32}
use tmp_os.Memory.Heap.{
  Heap, heap_malloc, heap_malloc_blocks, heap_free, free_loop, find, block_size, entry_free,
  entry_taken,
}
use tmp_os.Memory.Heap.Search.{FreeRun, find-FreeRun, find-none}
use tmp_os.Memory.Heap.Malloc.{
  IsValid, blocks_for, Allocated, align_bounds, align_wraps, malloc_blocks-none,
  malloc_blocks-Allocated,
}
use tmp_os.Memory.Heap.Free.{NextInside, Chain, Chain-intro, Chain-lt, Chain-from, free_loop-Chain}

pub malloc_eq_blocks :
    (h : Heap) (size : ℕ) → 0 < size → heap_malloc size h ≡ heap_malloc_blocks (blocks_for size) h
unfolding heap_malloc
malloc_eq_blocks h size a = elim (Bool-cases (size == 0)) [
  | inl e ↦ absurd (ground arith)
  | inr e ↦ rw e
]

blocks_for_bounds :
    (size : ℕ)
    → 0 < size
    → size ≤ 2 ^ 32 - block_size
    → (0 < blocks_for size) × (size ≤ blocks_for size * block_size)
blocks_for_bounds size a b = omega (arith, align_bounds size b)

-- A request of a possible size either takes a free run that is long enough, and then returns its
-- address, marks exactly its blocks and leaves all other entries as they were, or it returns NULL
-- and changes nothing, and then no free run of that length exists.
pub heap_malloc-Allocated :
    (h : Heap) (size : ℕ)
    → IsValid h
    → 0 < size
    → size ≤ 2 ^ 32 - block_size
    → let (p, h') = heap_malloc size h in
      ((s : ℕ) × Allocated h (blocks_for size) s p h' × (size ≤ blocks_for size * block_size))
      ⊎ ((p ≡ 0)
          × (h' ≡ h)
          × ((s : ℕ) → ¬ FreeRun h.table.entries h.table.total (blocks_for size) s))
heap_malloc-Allocated h size v a b =
    rw (malloc_eq_blocks h size a)
      (elim (Option-cases (find h.table.total h.table.entries h.table.total (blocks_for size) 0)) [
        | inr (s, e) ↦
            inl
              (s, malloc_blocks-Allocated h (blocks_for size) s v e, (blocks_for_bounds size a b).1)
        | inl e ↦
            let same = malloc_blocks-none h (blocks_for size) e in
            inr (
              ap (λ r. r.0) same,
              ap (λ r. r.1) same,
              λ s.
                  find-none h.table.total h.table.entries h.table.total (blocks_for size) 0
                    (blocks_for_bounds size a b).0 (omega arith) e s (omega arith),
            )
      ])

-- A request beyond the last whole block of the 32-bit range is rounded to 0 and refused.
pub heap_malloc_too_big :
    (h : Heap) (size : ℕ) → 2 ^ 32 - block_size < size → size < 2 ^ 32 → heap_malloc size h ≡ (0, h)
heap_malloc_too_big h size a b =
    malloc_eq_blocks h size (omega arith)
    ∙ (rw (align_wraps size a b)
        (elim (Option-cases (find h.table.total h.table.entries h.table.total 0 0)) [
          | inl e ↦ malloc_blocks-none h 0 e
          | inr (s, e) ↦
              absurd
                (omega (arith, find-FreeRun h.table.total h.table.entries h.table.total 0 0 s e))
        ]))

-- Allocation keeps the heap valid, and no entry gets to claim a block beyond the table.
pub Allocated-IsValid :
    (h : Heap) (n s p : ℕ) (h' : Heap)
    → Allocated h n s p h'
    → IsValid h
    → NextInside h.table.entries
    → IsValid h' × NextInside h'.table.entries
Allocated-IsValid h n s p h' a v x = (
  record {
    sized = a.same_size ∙ v.sized ∙ sym a.same_total;
    nonzero = rw a.same_base v.nonzero;
    fits = rw (a.same_base, a.same_total) v.fits;
  },
  λ m e. ground (arith, a.marked m, x m, a.same_size, a.run.fits, v.sized),
)

pub block_of :
    (h : Heap) (i : ℕ)
    → IsValid h
    → i < h.table.total
    → sub32 (h.saddr + i * block_size) h.saddr / block_size ≡ i
block_of h i v l = omega (arith, v.fits)

pub heap_free_ok :
    (h : Heap) (i p : ℕ) (es : List ℕ)
    → IsValid h
    → i < h.table.total
    → p ≡ h.saddr + i * block_size
    → free_loop (length h.table.entries + 1) i h.table.entries ≡ some es
    → heap_free p h ≡ some (record h { table = record (h.table) { entries = es } })
unfolding heap_free
heap_free_ok h i p es v l q e = rw (q, block_of h i v l, e, heap_free)

-- `heap_free` of the address of any block of the heap ends inside the table and keeps the heap
-- valid; it clears the entries that carry the flag, from that block on, and no others.
pub heap_free_lem :
    (h : Heap) (i : ℕ)
    → IsValid h
    → NextInside h.table.entries
    → i < h.table.total
    → (k : ℕ) × (h' : Heap) × (heap_free (h.saddr + i * block_size) h ≡ some h')
      × Chain h.table.entries i k
      × ((m : ℕ)
          → get_or h'.table.entries m 0
            ≡ (if leb i m && ltb m (i + k) then entry_free else get_or h.table.entries m 0))
      × IsValid h'
      × NextInside h'.table.entries
heap_free_lem h i v x l =
    let es = h.table.entries in
    let inside : i < length es = rw v.sized l in
    let (k, c) = Chain-from (length es) es i x inside (omega arith) in
    let (es', e, len, g) =
      free_loop-Chain (length es + 1) i k es c (omega (arith, Chain-lt k i es c)) in
    (
      k,
      record h { table = record (h.table) { entries = es' } },
      heap_free_ok h i (h.saddr + i * block_size) es' v l refl e,
      c,
      g,
      record { sized = len ∙ v.sized; nonzero = v.nonzero; fits = v.fits },
      λ m q. ground (arith, g m, x m, len),
    )

-- A fresh run of `n` blocks is a chain of `n - 1` links.
pub Allocated-Chain :
    (h : Heap) (n s p : ℕ) (h' : Heap)
    → IsValid h
    → Allocated h n s p h'
    → Chain h'.table.entries s (n - 1)
Allocated-Chain h n s p h' v a =
    Chain-intro (n - 1) s h'.table.entries
      (omega (arith, a.positive, a.run.fits, a.same_size, v.sized))
      (λ m q r. ground (arith, a.marked m)) (λ m q. ground (arith, a.marked m, a.positive))

-- A run that is allocated and then freed gets all its blocks back but the last, which stays taken.
pub heap_free-leaks :
    (h : Heap) (n s p : ℕ) (h' : Heap)
    → IsValid h
    → NextInside h.table.entries
    → Allocated h n s p h'
    → (h'' : Heap) × (heap_free p h' ≡ some h'')
      × ((m : ℕ) → s ≤ m → m + 1 < s + n → get_or h''.table.entries m 0 ≡ entry_free)
      × (get_or h''.table.entries (s + n - 1) 0 ≡ entry_taken)
heap_free-leaks h n s p h' v x a =
    let es' = h'.table.entries in
    let (v', x') = Allocated-IsValid h n s p h' a v x in
    let c = Allocated-Chain h n s p h' v a in
    let (es'', e, len, g) =
      free_loop-Chain (length es' + 1) s (n - 1) es' c
        (omega (arith, a.run.fits, a.same_size, v.sized)) in
    (
      record h' { table = record (h'.table) { entries = es'' } },
      heap_free_ok h' s p es'' v' (omega (arith, a.run.fits, a.positive, a.same_total))
          (omega (arith, a.address, a.same_base)) e,
      λ m q r. ground (arith, g m),
      ground (arith, g (s + n - 1), a.marked (s + n - 1), a.positive),
    )
