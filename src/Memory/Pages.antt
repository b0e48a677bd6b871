-- ===== src/Memory/Pages.antt =====
-- src/memory/kheap.c: what a request of at most one page gets, and what is left.
use tmp_os.Base.{
  ℕ, zero, suc, ◌+◌, ◌-◌, ◌*◌, ◌/◌, ◌%◌, ◌≤◌, ◌<◌, ◌≡◌, ◌≢◌, refl, List, arith, true, false,
  Bool-cases, inl, inr, if◌then◌else◌, ◌==◌, length, get_or, get_elem?-eq-get_or, some,
}
use mathlib.Core.Path.{subst}
use tmp_os.Base.Int.{sub32}
use tmp_os.Memory.Heap.{
  Heap, is_taken, has_next, heap_malloc, heap_free, free_loop, block_size, entry_taken, entry_free,
  HeapTable, heap_create,
}
use tmp_os.Memory.Heap.Search.{FreeRun, IsFree}
use tmp_os.Memory.Heap.Malloc.{IsValid, Allocated, blocks_for, align_bounds}
use tmp_os.Memory.Heap.Laws.{heap_malloc-Allocated}
use tmp_os.Memory.Heap.Create.{heap_create_iff, heap_create-IsValid}
use tmp_os.Memory.Kheap.{kheap_init, heap_size, heap_address, Memory, kzalloc, kfree, memset}

-- The free ones of the first `n` blocks.
abbrev pub free_below : ℕ → List ℕ → ℕ
free_below zero es = 0
free_below (suc n) es = free_below n es + (if is_taken (get_or es n 0) then 0 else 1)

abbrev pub free_blocks : Heap → ℕ
free_blocks h = free_below h.table.total h.table.entries

-- The address of a block that is taken.
pub record IsPage (h : Heap) (a : ℕ) : Type 0 where
  pub base : h.saddr ≤ a
  pub inside : a + block_size ≤ h.saddr + h.table.total * block_size
  pub aligned : a % block_size ≡ 0
  pub taken : is_taken (get_or h.table.entries ((a - h.saddr) / block_size) 0) ≡ true

-- The entry of the block at an address.
abbrev pub block_entry : Heap → ℕ → ℕ
block_entry h a = get_or h.table.entries ((a - h.saddr) / block_size) 0

-- A heap whose blocks are pages.
pub record IsReady (h : Heap) : Type 0 where
  pub valid : IsValid h
  pub pages : h.saddr % block_size ≡ 0

-- What a request for a page leaves: a page that was not taken, set to zero.
pub record Given (size p : ℕ) (h h' : Heap) (mem mem' : Memory) : Type 0 where
  pub ready : IsReady h'
  pub one_less : free_blocks h' + 1 ≡ free_blocks h
  pub page : IsPage h' p
  pub fresh : (a : ℕ) → IsPage h a → a ≢ p
  pub kept : (a : ℕ) → IsPage h a → IsPage h' a
  pub last : has_next (block_entry h' p) ≡ false
  pub same_base : h'.saddr ≡ h.saddr
  pub same_entry :
      (m : ℕ)
      → is_taken (get_or h.table.entries m 0) ≡ true
      → get_or h'.table.entries m 0 ≡ get_or h.table.entries m 0
  pub zeroed : mem' ≡ memset p 0 size mem

some_block-IsFree : (n : ℕ) (es : List ℕ) → 0 < free_below n es → (s : ℕ) × (s < n) × IsFree es s
some_block-IsFree zero es h = absurd (omega arith)
some_block-IsFree (suc n) es h = elim (Bool-cases (is_taken (get_or es n 0))) [
  | inl e ↦ let (s, l, f) = some_block-IsFree n es (ground arith) in (s, omega arith, f)
  | inr e ↦ (n, omega arith, e)
]

module _ (es es' : List ℕ) (s : ℕ)
    (marked : (m : ℕ) → get_or es' m 0 ≡ (if s == m then entry_taken else get_or es m 0)) where
  free_unchanged : (n : ℕ) → n ≤ s → free_below n es' ≡ free_below n es
  free_unchanged zero h = refl
  free_unchanged (suc n) h = ground (arith, free_unchanged n, marked n)

  free_one_less : (n : ℕ) → s < n → IsFree es s → free_below n es' + 1 ≡ free_below n es
  free_one_less zero h f = absurd (omega arith)
  free_one_less (suc n) h f = elim (Bool-cases (s == n)) [
    | inl e ↦ ground (arith, free_unchanged n, marked n)
    | inr e ↦ ground (arith, free_one_less n, marked n)
  ]

one_free : (es : List ℕ) (total s : ℕ) → s < total → IsFree es s → FreeRun es total 1 s
one_free es total s l f = record {
  fits = omega arith;
  free = λ m a b. let e : m ≡ s = omega arith in rw e f;
}

one_block : (size : ℕ) → 0 < size → size ≤ block_size → blocks_for size ≡ 1
one_block size a b = omega (arith, align_bounds size)

-- The block of an address inside the heap.
block_at : (h : Heap) (s : ℕ) → (h.saddr + s * block_size - h.saddr) / block_size ≡ s
block_at h s = omega arith

module _ (h h' : Heap) (s p : ℕ) (ready : IsReady h) (a : Allocated h 1 s p h') where
  one_marked :
      (m : ℕ)
      → get_or h'.table.entries m 0 ≡ (if s == m then entry_taken else get_or h.table.entries m 0)
  one_marked m = ground (arith, a.marked m)

  free-Allocated : free_blocks h' + 1 ≡ free_blocks h
  free-Allocated = rw a.same_total (
      free_one_less h.table.entries h'.table.entries s one_marked h.table.total
        (omega (arith, a.run.fits)) (a.run.free s (omega arith) (omega arith)))

  IsPage-Allocated : IsPage h' p
  IsPage-Allocated = record {
    base = omega (arith, a.address, a.same_base);
    inside = omega (arith, a.address, a.same_base, a.same_total, a.run.fits);
    aligned = omega (arith, a.address, ready.pages);
    taken =
        let e : (p - h'.saddr) / block_size ≡ s = omega (arith, a.address, a.same_base) in
        rw e (ground (arith, one_marked s));
  }

  last-Allocated : has_next (block_entry h' p) ≡ false
  last-Allocated =
      let e : (p - h'.saddr) / block_size ≡ s = omega (arith, a.address, a.same_base) in
      rw e (ground (arith, one_marked s))

  entry-Allocated :
      (m : ℕ)
      → is_taken (get_or h.table.entries m 0) ≡ true
      → get_or h'.table.entries m 0 ≡ get_or h.table.entries m 0
  entry-Allocated m t = elim (Bool-cases (s == m)) [
    | inl e ↦
        let k : is_taken (get_or h.table.entries s 0) ≡ true = ground arith in
        cc (k, a.run.free s (omega arith) (omega arith))
    | inr e ↦ ground (arith, one_marked m)
  ]

  fresh-Allocated : (b : ℕ) → IsPage h b → b ≢ p
  fresh-Allocated b g e =
      let k : (b - h.saddr) / block_size ≡ s = omega (arith, a.address) in
      let t : is_taken (get_or h.table.entries s 0) ≡ true = rw (← k) g.taken in
      cc (t, a.run.free s (omega arith) (omega arith))

  kept-Allocated : (b : ℕ) → IsPage h b → IsPage h' b
  kept-Allocated b g = record {
    base = omega (arith, g.base, a.same_base);
    inside = omega (arith, g.inside, a.same_base, a.same_total);
    aligned = g.aligned;
    taken = rw (a.same_base, entry-Allocated ((b - h.saddr) / block_size) g.taken) g.taken;
  }

  IsReady-Allocated : IsReady h'
  IsReady-Allocated = record {
    valid = record {
      sized = omega (arith, a.same_size, a.same_total, ready.valid.sized);
      nonzero = omega (arith, a.same_base, ready.valid.nonzero);
      fits = omega (arith, a.same_base, a.same_total, ready.valid.fits);
    };
    pages = omega (arith, a.same_base, ready.pages);
  }

-- As long as a block is free, a request of at most a page is given one.
pub kzalloc-Given :
    (size : ℕ) (h : Heap) (mem : Memory)
    → IsReady h
    → 0 < free_blocks h
    → 0 < size
    → size ≤ block_size
    → let (p, h', mem') = kzalloc size h mem in Given size p h h' mem mem'
unfolding kzalloc
kzalloc-Given size h mem ready free a b =
    elim (heap_malloc-Allocated h size ready.valid a (omega arith)) [
      | inl (s, g, _) ↦
          let r = heap_malloc size h in
          let g' : Allocated h 1 s r.0 r.1 =
            subst (λ n. Allocated h n s r.0 r.1) (one_block size a b) g in
          let nonzero : (r.0 == 0) ≡ false = ground (arith, g'.address, ready.valid.nonzero) in
          rw (nonzero, kzalloc)
            (record {
              ready = IsReady-Allocated h r.1 s r.0 ready g';
              one_less = free-Allocated h r.1 s r.0 ready g';
              page = IsPage-Allocated h r.1 s r.0 ready g';
              fresh = fresh-Allocated h r.1 s r.0 ready g';
              kept = kept-Allocated h r.1 s r.0 ready g';
              last = last-Allocated h r.1 s r.0 ready g';
              same_base = g'.same_base;
              same_entry = entry-Allocated h r.1 s r.0 ready g';
              zeroed = refl;
            })
      | inr (_, _, full) ↦
          let (s, l, f) = some_block-IsFree h.table.total h.table.entries free in
          absurd (full s (rw (one_block size a b) (one_free h.table.entries h.table.total s l f)))
    ]

-- The pages before keep their entries.
pub entry-Given :
    (size p : ℕ) (h h' : Heap) (mem mem' : Memory) (a : ℕ)
    → Given size p h h' mem mem'
    → IsPage h a
    → block_entry h' a ≡ block_entry h a
entry-Given size p h h' mem mem' a g w =
    rw g.same_base (g.same_entry ((a - h.saddr) / block_size) w.taken)

free_loop-single :
    (f m : ℕ) (es : List ℕ)
    → m < length es
    → has_next (get_or es m 0) ≡ false
    → free_loop (f + 1) m es ≡ some es
unfolding free_loop
free_loop-single f m es l e =
    let k : f + 1 ≡ suc f = omega arith in
    rw (k, free_loop) (rw (get_elem?-eq-get_or es m 0 l, e) refl)

-- A single block is not given back: `heap_free` leaves all as it was.
pub kfree-single :
    (h : Heap) (a : ℕ)
    → IsReady h
    → IsPage h a
    → has_next (block_entry h a) ≡ false
    → kfree a h ≡ some h
unfolding heap_free
kfree-single h a ready w e =
    let m = (a - h.saddr) / block_size in
    let at : sub32 a h.saddr / block_size ≡ m = omega (arith, w.base, w.inside, ready.valid.fits) in
    let stays : free_loop (length h.table.entries + 1) m h.table.entries ≡ some h.table.entries =
      free_loop-single (length h.table.entries) m h.table.entries
        (omega (arith, w.inside, w.base, ready.valid.sized)) e in
    rw (at, stays, heap_free) refl

all_free_below :
    (n : ℕ) (es : List ℕ) → ((m : ℕ) → get_or es m 0 ≡ entry_free) → free_below n es ≡ n
all_free_below zero es e = refl
all_free_below (suc n) es e = ground (arith, all_free_below n es e, e n)

-- The kernel's heap at the start: all its 25600 blocks are free pages.
pub kheap_init-IsReady :
    (heap : Heap) (memory : List ℕ)
    → length memory ≡ heap_size / block_size
    → let h = (kheap_init heap memory).1 in IsReady h × (free_blocks h ≡ heap_size / block_size)
unfolding kheap_init
kheap_init-IsReady heap memory e =
    let end = heap_address + heap_size in
    let t : HeapTable = record { entries = memory; total = heap_size / block_size } in
    let made = (heap_create_iff heap heap_address end t).1 (refl, refl, refl) in
    let (valid, _, base, total, free) =
      heap_create-IsValid heap heap_address end t made e (omega arith) (omega arith)
        (omega arith) in
    let h = (heap_create heap heap_address end t).1 in
    (
      record { valid = valid; pages = rw base refl },
      rw total (all_free_below (heap_size / block_size) h.table.entries free),
    )
