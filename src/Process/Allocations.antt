-- ===== src/Process/Allocations.antt =====
-- src/task/process.c: which allocation a process gets, and what it can free.
use mathlib.Core.Path.{subst}
use tmp_os.Base.{
  ◌⊎◌, ℕ, suc, ◌+◌, ◌%◌, ◌^◌, ◌<◌, ◌≡◌, ◌≢◌, ◌∙◌, refl, ap, ◌↔◌, ◌==◌, Option, none, some, List, [],
  ◌∷◌, get_elem?, set, length, arith, Bool-cases, inl, inr, Option-cases, get_elem?-eq-none,
  get_elem?-eq-get_or, dec_lt, true, false,
}
use tmp_os.Base.Int.{ℤ, pos, negsuc, is_neg}
use tmp_os.Memory.Kheap.{kzalloc, kfree}
use tmp_os.Memory.Heap.{Heap}
use tmp_os.Paging.{Words, paging_map_to}
use tmp_os.Process.{
  Process, ProcessAllocation, Machine, max_processes, process_get, find_allocation,
  process_find_free_alloc_index, paging_align_address, process_get_allocation_by_addr,
  process_malloc, record_allocation, process_free, release, clear_allocations,
}

same_number : (m n : ℕ) → pos m ≡ pos n → m ≡ n
same_number m n e = cc

-- `process_get` reads beyond the table of processes exactly for the number equal to its size.
pub process_get_faults :
    (id : ℤ) (processes : List (Option Process))
    → length processes ≡ max_processes
    → (process_get id processes ≡ none) ↔ (id ≡ pos max_processes)
unfolding process_get
process_get_faults (negsuc n) processes l = (λ e. cc, λ e. cc)
process_get_faults (pos id) processes l = elim (dec_lt id max_processes) [
  | yes h ↦
      let found = get_elem?-eq-get_or processes id none (omega (arith, l, h)) in
      (
        λ e. absurd (ground (arith, found)),
        λ e. absurd (omega (arith, same_number id max_processes e)),
      )
  | no h ↦
      let out = get_elem?-eq-none processes id (omega (arith, l)) in
      (λ e. ap pos (ground (arith, out)), λ e. ground (arith, out, same_number id max_processes e))
]

some_value : (k m : ℕ) → some k ≡ some m → m ≡ k
some_value k m e = cc

-- What is found has the pointer.
pub find_allocation-some :
    (p : ℕ) (l : List ProcessAllocation) (k m : ℕ)
    → find_allocation p l k ≡ some m
    → (i : ℕ) × (a : ProcessAllocation) × (m ≡ k + i)
      × (i < length l)
      × (get_elem? l i ≡ some a)
      × (a.ptr ≡ p)
unfolding find_allocation
find_allocation-some p [] k m e = cc
find_allocation-some p (a ∷ l) k m e = elim (Bool-cases (a.ptr == p)) [
  | inl t ↦ (0, a, omega (arith, some_value k m (rw t at e)), omega arith, refl, ground arith)
  | inr t ↦
      let (i, b, q, h, g, r) = find_allocation-some p l (k + 1) m (rw t at e) in
      (suc i, b, omega arith, omega arith, g, r)
]

-- An allocation in a slot that was free.
pub record Recorded (process : Process) (p size : ℕ) (process' : Process) : Type 0 where
  pub slot : ℕ
  pub before : ProcessAllocation
  pub inside : slot < length process.allocations
  pub was : get_elem? process.allocations slot ≡ some before
  pub is_free : before.ptr ≡ 0
  pub table : process' ≡ record process {
    allocations = set process.allocations slot (record { ptr = p; size = size });
  }

abbrev Outcome : Process → ℕ → Option (ℕ × Process × Machine) → Type 0
Outcome process size none = Unit
Outcome process size (some (p, process', m)) =
    ((p ≡ 0) × (process' ≡ process)) ⊎ Recorded process p size process'

record_allocation-Outcome :
    (p size : ℕ) (process : Process) (m : Machine)
    → Outcome process size (record_allocation p size process m)
unfolding record_allocation process_find_free_alloc_index
record_allocation-Outcome p size process m =
    elim (Option-cases (find_allocation 0 process.allocations 0)) [
      | inl e ↦ elim (Option-cases (kfree p m.heap)) [
        | inl f ↦ rw (e, f, record_allocation) tt
        | inr (heap, f) ↦ rw (e, f, record_allocation) (inl (refl, refl))
      ]
      | inr (i, e) ↦
          let (j, a, q, h, g, r) = find_allocation-some 0 process.allocations 0 i e in
          let same : i ≡ j = omega arith in
          rw (e, same, record_allocation)
            (inr (record { slot = j; before = a; inside = h; was = g; is_free = r; table = refl }))
    ]

process_malloc-Outcome :
    (size : ℕ) (process : Process) (m : Machine)
    → Outcome process size (process_malloc size process m)
unfolding process_malloc
process_malloc-Outcome size process m =
    let r = kzalloc size m.heap m.blocks in
    elim (Bool-cases (r.0 == 0)) [
      | inl e ↦ rw (e, process_malloc) (inl (refl, refl))
      | inr e ↦
          rw (e, process_malloc)
            (record_allocation-Outcome r.0 size process (record m { heap = r.1; blocks = r.2 }))
    ]

-- `process_malloc` returns NULL and leaves the process as it was, or it records the block that it
-- returns in a slot that was free, and keeps all other allocations.
pub process_malloc_cases :
    (size p : ℕ) (process process' : Process) (m m' : Machine)
    → process_malloc size process m ≡ some (p, process', m')
    → ((p ≡ 0) × (process' ≡ process)) ⊎ Recorded process p size process'
process_malloc_cases size p process process' m m' e =
    subst (Outcome process size) e (process_malloc-Outcome size process m)

find-clear_same :
    (p k : ℕ) (l : List ProcessAllocation)
    → p ≢ 0
    → find_allocation p (clear_allocations p l) k ≡ none
unfolding find_allocation clear_allocations
find-clear_same p k [] h = refl
find-clear_same p k (a ∷ l) h = ground (arith, find-clear_same p (k + 1) l h)

find-clear_other :
    (p q k : ℕ) (l : List ProcessAllocation)
    → q ≢ p
    → q ≢ 0
    → find_allocation q (clear_allocations p l) k ≡ find_allocation q l k
unfolding find_allocation clear_allocations
find-clear_other p q k [] h z = refl
find-clear_other p q k (a ∷ l) h z = ground (arith, find-clear_other p q (k + 1) l h z)

-- The mapping of an allocation without flags, up to its end.
abbrev pub unmap : Process → ProcessAllocation → Machine → ℤ × Words
unmap process pa m =
    paging_map_to process.page_dir pa.ptr pa.ptr
      (paging_align_address ((pa.ptr + pa.size) % 2 ^ 32)) 0 m.tables

-- The first allocation with the pointer.
pub record IsFirst (p : ℕ) (process : Process) (pa : ProcessAllocation) : Type 0 where
  pub index : ℕ
  pub found : find_allocation p process.allocations 0 ≡ some index
  pub entry : get_elem? process.allocations index ≡ some pa
  pub has_ptr : pa.ptr ≡ p

-- None of the allocations has the pointer any more, and all others are where they were.
pub record Without (p : ℕ) (l l' : List ProcessAllocation) : Type 0 where
  pub gone : find_allocation p l' 0 ≡ none
  pub kept : (q : ℕ) → q ≢ p → q ≢ 0 → find_allocation q l' 0 ≡ find_allocation q l 0

pub data Frees (p : ℕ) (process : Process) (m : Machine) : Process → Machine → Type 0 where
  not_found : find_allocation p process.allocations 0 ≡ none → Frees p process m process m
  not_mapped :
      {pa : ProcessAllocation}
      → IsFirst p process pa
      → is_neg (unmap process pa m).0 ≡ true
      → Frees p process m process (record m { tables = (unmap process pa m).1 })
  released :
      {pa : ProcessAllocation} {l : List ProcessAllocation} {heap : Heap}
      → IsFirst p process pa
      → is_neg (unmap process pa m).0 ≡ false
      → kfree p m.heap ≡ some heap
      → Without p process.allocations l
      → Frees p process m
          (record process { allocations = l })
          (record m { heap = heap; tables = (unmap process pa m).1 })

abbrev Freed : ℕ → Process → Machine → Option (Process × Machine) → Type 0
Freed p process m none = Unit
Freed p process m (some (process', m')) = Frees p process m process' m'

release-Freed :
    (p : ℕ) (pa : ProcessAllocation) (process : Process) (m : Machine)
    → p ≢ 0
    → IsFirst p process pa
    → Freed p process m (release p pa process m)
unfolding release
release-Freed p pa process m z first = elim (Bool-cases (is_neg (unmap process pa m).0)) [
  | inl e ↦ rw (e, release) (not_mapped first e)
  | inr e ↦ elim (Option-cases (kfree p m.heap)) [
    | inl f ↦ rw (e, f, release) tt
    | inr (heap, f) ↦
        let without : Without p process.allocations (clear_allocations p process.allocations) =
          record {
            gone = find-clear_same p 0 process.allocations z;
            kept = λ q h w. find-clear_other p q 0 process.allocations h w;
          } in
        rw (e, f, release) (released first e f without)
  ]
]

process_free-Freed :
    (p : ℕ) (process : Process) (m : Machine) → p ≢ 0 → Freed p process m (process_free p process m)
unfolding process_free process_get_allocation_by_addr
process_free-Freed p process m z = elim (Option-cases (find_allocation p process.allocations 0)) [
  | inl e ↦ rw (e, process_free) (not_found e)
  | inr (i, e) ↦
      let (j, a, q, h, g, r) = find_allocation-some p process.allocations 0 i e in
      let same : i ≡ j = omega arith in
      let entry : get_elem? process.allocations i ≡ some a =
        ap (get_elem? process.allocations) same ∙ g in
      let first : IsFirst p process a = record {
        index = i;
        found = e;
        entry = entry;
        has_ptr = r;
      } in
      rw (e, entry, process_free) (release-Freed p a process m z first)
]

-- `process_free` of a pointer that is not NULL does one of three things, where it returns: without
-- an allocation with this pointer nothing changes; where the first one cannot be mapped without
-- flags, only the page tables do; else it is mapped so, the block is given to `kfree`, no allocation
-- with this pointer is left, and an allocation with any other pointer is found where it was.
pub process_free_cases :
    (p : ℕ) (process process' : Process) (m m' : Machine)
    → p ≢ 0
    → process_free p process m ≡ some (process', m')
    → Frees p process m process' m'
process_free_cases p process process' m m' z e =
    subst (Freed p process m) e (process_free-Freed p process m z)
