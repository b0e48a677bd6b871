-- ===== src/Memory/Heap/Search.antt =====
-- The search of `heap_malloc_blocks`: it finds a free run whenever there is one.
use tmp_os.Base.{
  ℕ, zero, suc, ◌+◌, ◌-◌, ◌≤◌, ◌<◌, ◌≡◌, refl, true, false, none, some, List, arith, leb, ◌==◌,
  get_or, Bool-cases, ◌⊎◌, inl, inr,
}
use tmp_os.Memory.Heap.{Scan, found, stopped, ended, scan, find, is_taken}

abbrev pub IsFree : List ℕ → ℕ → Type 0
IsFree es m = is_taken (get_or es m 0) ≡ false

-- `n` free blocks from `s` on, inside a table of `total` blocks.
pub record FreeRun (es : List ℕ) (total n s : ℕ) : Type 0 where
  pub fits : s + n ≤ total
  pub free : (m : ℕ) → s ≤ m → m < s + n → IsFree es m

IsFree-from :
    (es : List ℕ) (j stop m : ℕ)
    → IsFree es j
    → ((m : ℕ) → j + 1 ≤ m → m < stop → IsFree es m)
    → j ≤ m
    → m < stop
    → IsFree es m
IsFree-from es j stop m h rest a b = elim (Bool-cases (j == m)) [
  | inl e ↦ ground (arith, h)
  | inr e ↦ rest m (ground arith) b
]

-- A completed run is free from the block where the scan starts, and lies inside the table.
pub scan-found :
    (k : ℕ) (es : List ℕ) (n i j : ℕ)
    → i ≤ j
    → scan k es n i j ≡ found
    → (j < i + n) × (i + n ≤ j + k) × ((m : ℕ) → j ≤ m → m < i + n → IsFree es m)
unfolding scan
scan-found zero es n i j h e = cc
scan-found (suc k) es n i j h e = elim (Bool-cases (is_taken (get_or es j 0))) [
  | inl t ↦ absurd (cc (rw t at e))
  | inr t ↦ elim (Bool-cases (j - i + 1 == n)) [
    | inl d ↦ (
      ground arith,
      ground arith,
      λ m a b. IsFree-from es j (i + n) m t (λ m' a' b'. absurd (ground arith)) a b,
    )
    | inr d ↦
        let r = scan-found k es n i (j + 1) (omega arith) (rw (t, d) at e) in
        (omega arith, omega arith, λ m a b. IsFree-from es j (i + n) m t r.2 a b)
  ]
]

-- A stopped scan has met a taken block before a run could be complete.
pub scan-stopped :
    (k : ℕ) (es : List ℕ) (n i j t : ℕ)
    → i ≤ j
    → j < i + n
    → scan k es n i j ≡ stopped t
    → (j ≤ t) × (t < j + k) × (t < i + n) × (is_taken (get_or es t 0) ≡ true)
unfolding scan
scan-stopped zero es n i j t h b e = cc
scan-stopped (suc k) es n i j t h b e =
    ground (arith, scan-stopped k es n i (j + 1) t (omega arith))

-- A scan that reaches the end of the table has no room for the run.
pub scan-ended :
    (k : ℕ) (es : List ℕ) (n i j : ℕ) → i ≤ j → j < i + n → scan k es n i j ≡ ended → j + k < i + n
unfolding scan
scan-ended zero es n i j h b e = omega arith
scan-ended (suc k) es n i j h b e = ground (arith, scan-ended k es n i (j + 1) (omega arith))

Scan-cases : (r : Scan) → (r ≡ found) ⊎ ((t : ℕ) × (r ≡ stopped t)) ⊎ (r ≡ ended)
Scan-cases found = inl refl
Scan-cases (stopped t) = inr (inl (t, refl))
Scan-cases ended = inr (inr refl)

found_run :
    (es : List ℕ) (total n i s : ℕ)
    → i ≡ s
    → (i < i + n) × (i + n ≤ i + (total - i)) × ((m : ℕ) → i ≤ m → m < i + n → IsFree es m)
    → i ≤ total
    → FreeRun es total n s × (0 < n) × (i ≤ s)
found_run es total n i s e (a, b, c) h =
    (rw (← e) (record { fits = omega arith; free = c }), omega arith, omega arith)

-- The run that `find` chooses is free, not empty, and starts where the search does or later.
pub find-FreeRun :
    (f : ℕ) (es : List ℕ) (total n i s : ℕ)
    → find f es total n i ≡ some s
    → FreeRun es total n s × (0 < n) × (i ≤ s)
unfolding find
find-FreeRun zero es total n i s e = cc
find-FreeRun (suc f) es total n i s e = elim (Bool-cases (leb total i)) [
  | inl out ↦ absurd (cc (rw out at e))
  | inr inside ↦ elim (Bool-cases (is_taken (get_or es i 0))) [
    | inl t ↦
        let r = find-FreeRun f es total n (i + 1) s (rw (inside, t) at e) in
        (r.0, r.1, omega (arith, r.2))
    | inr t ↦ elim (Scan-cases (scan (total - i) es n i i)) [
      | inl q ↦
          let here : some i ≡ some s = rw (inside, t, q) at e in
          found_run es total n i s (ground arith) (scan-found (total - i) es n i i (omega arith) q)
            (ground arith)
      | inr (inl (j, q)) ↦
          let r = find-FreeRun f es total n (j + 1) s (rw (inside, t, q) at e) in
          (
            r.0,
            r.1,
            omega (
              arith,
              r.2,
              scan-stopped (total - i) es n i i j (omega arith) (omega (arith, r.1)) q,
            ),
          )
      | inr (inr q) ↦
          let r = find-FreeRun f es total n (i + 1) s (rw (inside, t, q) at e) in
          (r.0, r.1, omega (arith, r.2))
    ]
  ]
]

-- When `find` gives up, no free run of that length starts at `i` or later.
pub find-none :
    (f : ℕ) (es : List ℕ) (total n i : ℕ)
    → 0 < n
    → total ≤ i + f
    → find f es total n i ≡ none
    → (s : ℕ) → i ≤ s
    → ¬ FreeRun es total n s
unfolding find
find-none zero es total n i h b e s l r = omega arith
find-none (suc f) es total n i h b e s l r = elim (Bool-cases (leb total i)) [
  | inl out ↦ ground (arith, r.fits)
  | inr inside ↦ elim (Bool-cases (is_taken (get_or es i 0))) [
    | inl t ↦ elim (Bool-cases (i == s)) [
      | inl same ↦ ground (arith, t, r.free i)
      | inr other ↦
          find-none f es total n (i + 1) h (omega arith) (rw (inside, t) at e) s (ground arith) r
    ]
    | inr t ↦ elim (Scan-cases (scan (total - i) es n i i)) [
      | inl q ↦ absurd (cc (rw (inside, t, q) at e))
      | inr (inl (j, q)) ↦
          let stop = scan-stopped (total - i) es n i i j (omega arith) (omega arith) q in
          elim (Bool-cases (leb s j)) [
            | inl before ↦ absurd (cc (stop.3, r.free j (ground arith) (omega arith)))
            | inr after ↦
                find-none f es total n (j + 1) h (omega arith) (rw (inside, t, q) at e) s
                  (ground arith) r
          ]
      | inr (inr q) ↦
          let room = scan-ended (total - i) es n i i (omega arith) (omega arith) q in
          ground (arith, room, r.fits)
    ]
  ]
]
