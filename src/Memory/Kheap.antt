-- ===== src/Memory/Kheap.antt =====
-- src/memory/kheap.c: the kernel's heap of 100 MB, and the measuring of a block by `ksize`.
use tmp_os.Base.{
  ℕ, zero, suc, ◌+◌, ◌-◌, ◌*◌, ◌/◌, ◌^◌, ◌%◌, ◌<◌, ◌≡◌, ◌∙◌, ap, List, arith, Option, none, some,
  length, get_elem?, get_elem?-eq-get_or, ◌==◌, if◌then◌else◌, ltb, leb, ◌&&◌, Bool-cases, inl, inr,
}
use tmp_os.Base.Int.{ℤ, sub32}
use tmp_os.Memory.Heap.{Heap, heap_create, heap_malloc, heap_free, block_size, has_next}
use tmp_os.Memory.Heap.Malloc.{IsValid, Allocated}
use tmp_os.Memory.Heap.Free.{Chain, NextInside}
use tmp_os.Memory.Heap.Laws.{Allocated-Chain, block_of, Allocated-IsValid}

abbrev pub heap_size : ℕ
heap_size = 104857600

abbrev pub heap_address : ℕ
heap_address = 0x1000000

-- `memory` is what lies at HEAP_TABLE_ADDRESS; the result of `heap_create` is only reported.
unfoldable pub kheap_init : Heap → List ℕ → ℤ × Heap
kheap_init heap memory =
    heap_create heap heap_address (heap_address + heap_size)
      (record { entries = memory; total = heap_size / block_size })

abbrev pub kmalloc : ℕ → Heap → ℕ × Heap
kmalloc = heap_malloc

abbrev pub kfree : ℕ → Heap → Option Heap
kfree = heap_free

abbrev pub vmalloc : ℕ → Heap → ℕ × Heap
vmalloc = heap_malloc

abbrev pub vfree : ℕ → Heap → Option Heap
vfree = heap_free

-- Physical memory, by the address of a byte.
abbrev pub Memory : Type 0
Memory = ℕ → ℕ

-- `memset(ptr, c, size)`.
unfoldable pub memset : ℕ → ℕ → ℕ → Memory → Memory
memset ptr c size mem a = if leb ptr a && ltb a (ptr + size) then c else mem a

unfoldable pub kzalloc : ℕ → Heap → Memory → ℕ × Heap × Memory
kzalloc size heap mem =
    let (p, heap') = kmalloc size heap in
    if p == 0 then (0, heap', mem) else (p, heap', memset p 0 size mem)

-- The loop of `ksize` and `vsize` from block `i`. `none`: it reads an entry beyond the table.
pub size_loop : ℕ → ℕ → List ℕ → ℕ → Option ℕ
size_loop zero i es ret = none
size_loop (suc f) i es ret =
    let rest = size_loop f (i + 1) es ((ret + block_size) % 2 ^ 32) in
    elim (get_elem? es i) [ none ↦ none | some e ↦ if has_next e then rest else some ret ]

unfoldable pub ksize : ℕ → Heap → Option ℕ
ksize ptr heap =
    if ptr == 0
    then some 0
    else size_loop (length heap.table.entries + 1) (sub32 ptr heap.saddr / block_size)
        heap.table.entries 0

size_loop-Chain :
    (f i k : ℕ) (es : List ℕ) (ret : ℕ)
    → Chain es i k
    → k < f
    → ret + k * block_size < 2 ^ 32
    → size_loop f i es ret ≡ some (ret + k * block_size)
unfolding size_loop
size_loop-Chain zero i k es ret c h b = absurd (omega arith)
size_loop-Chain (suc f) i zero es ret c h b =
    rw (get_elem?-eq-get_or es i 0 c.0, c.1, size_loop) (ap some (omega arith))
size_loop-Chain (suc f) i (suc k) es ret (a, e, c) h b =
    rw (get_elem?-eq-get_or es i 0 a, e, size_loop)
      (size_loop-Chain f (i + 1) k es ((ret + block_size) % 2 ^ 32) c (omega arith) (omega arith)
        ∙ ap some (omega arith))

-- `ksize` of a fresh allocation of `n` blocks counts one block less than was taken: its last block
-- carries no flag and is not counted.
pub ksize-Allocated :
    (h : Heap) (n s p : ℕ) (h' : Heap)
    → IsValid h
    → NextInside h.table.entries
    → Allocated h n s p h'
    → ksize p h' ≡ some ((n - 1) * block_size)
unfolding ksize
ksize-Allocated h n s p h' v x a =
    let v' = (Allocated-IsValid h n s p h' a v x).0 in
    let c = Allocated-Chain h n s p h' v a in
    let block : sub32 p h'.saddr / block_size ≡ s =
      rw (a.address, ← a.same_base)
        (block_of h' s v' (omega (arith, a.run.fits, a.positive, a.same_total))) in
    elim (Bool-cases (p == 0)) [
      | inl e ↦ absurd (ground (arith, a.address, v.nonzero))
      | inr e ↦
          rw (e, block)
            (size_loop-Chain (length h'.table.entries + 1) s (n - 1) h'.table.entries 0 c
                (omega (arith, a.run.fits, a.same_size, v.sized))
                (omega (arith, a.run.fits, v.fits))
              ∙ ap some (omega arith))
    ]
