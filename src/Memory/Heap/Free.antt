-- ===== src/Memory/Heap/Free.antt =====
-- `heap_free`: which entries it clears, and when it stays inside the table.
use tmp_os.Base.{
  ℕ, zero, suc, ◌+◌, ◌≤◌, ◌<◌, ◌≡◌, ◌∙◌, refl, true, false, List, arith, ltb, leb, if◌then◌else◌,
  ◌&&◌, length, get_or, set, length-set, get_or-set_ne, get_or-set, get_elem?-eq-get_or,
  get_elem?-eq-none, Bool-cases, inl, inr, some, none,
}
use tmp_os.Memory.Heap.{free_loop, has_next, entry_free}

-- No entry claims a next block beyond the end of the table.
abbrev pub NextInside : List ℕ → Type 0
NextInside es = (m : ℕ) → has_next (get_or es m 0) ≡ true → m + 1 < length es

-- `k` entries with the flag from `i` on, and then one without it, all inside the table.
abbrev pub Chain : List ℕ → ℕ → ℕ → Type 0
Chain es i zero = (i < length es) × (has_next (get_or es i 0) ≡ false)
Chain es i (suc k) = (i < length es) × (has_next (get_or es i 0) ≡ true) × Chain es (i + 1) k

pub Chain-intro :
    (k i : ℕ) (es : List ℕ)
    → i + k < length es
    → ((m : ℕ) → i ≤ m → m < i + k → has_next (get_or es m 0) ≡ true)
    → ((m : ℕ) → m ≡ i + k → has_next (get_or es m 0) ≡ false)
    → Chain es i k
Chain-intro zero i es a link stop = (omega arith, stop i (omega arith))
Chain-intro (suc k) i es a link stop = (
  omega arith,
  link i (omega arith) (omega arith),
  Chain-intro k (i + 1) es (omega arith) (λ m p q. link m (omega arith) (omega arith))
      (λ m p. stop m (omega arith)),
)

Chain-set : (k i j v : ℕ) (es : List ℕ) → j < i → Chain es i k → Chain (set es j v) i k
Chain-set zero i j v es a (b, c) =
    (rw (length-set es j v) b, ground (arith, get_or-set_ne es j i v 0 (omega arith)))
Chain-set (suc k) i j v es a (b, c, d) = (
  rw (length-set es j v) b,
  ground (arith, get_or-set_ne es j i v 0 (omega arith)),
  Chain-set k (i + 1) j v es (omega arith) d,
)

pub Chain-lt : (k i : ℕ) (es : List ℕ) → Chain es i k → i + k < length es
Chain-lt zero i es (a, b) = omega arith
Chain-lt (suc k) i es (a, b, c) = omega (arith, Chain-lt k (i + 1) es c)

pub Chain-from :
    (f : ℕ) (es : List ℕ) (i : ℕ)
    → NextInside es
    → i < length es
    → length es ≤ i + f
    → (k : ℕ) × Chain es i k
Chain-from zero es i h a b = absurd (omega arith)
Chain-from (suc f) es i h a b = elim (Bool-cases (has_next (get_or es i 0))) [
  | inr stop ↦ (0, (a, stop))
  | inl go ↦ let (k, c) = Chain-from f es (i + 1) h (h i go) (omega arith) in (suc k, (a, go, c))
]

free_step :
    (f i : ℕ) (es : List ℕ)
    → i < length es
    → has_next (get_or es i 0) ≡ true
    → free_loop (suc f) i es ≡ free_loop f (i + 1) (set es i entry_free)
unfolding free_loop
free_step f i es a h = rw (get_elem?-eq-get_or es i 0 a, h, free_loop)

free_stop :
    (f i : ℕ) (es : List ℕ)
    → i < length es
    → has_next (get_or es i 0) ≡ false
    → free_loop (suc f) i es ≡ some es
unfolding free_loop
free_stop f i es a h = rw (get_elem?-eq-get_or es i 0 a, h, free_loop)

-- Where the loop of `heap_free` follows a chain of `k` links it ends, and has cleared exactly the
-- `k` entries that carry the flag.
pub free_loop-Chain :
    (f i k : ℕ) (es : List ℕ)
    → Chain es i k
    → k < f
    → (es' : List ℕ) × (free_loop f i es ≡ some es')
      × (length es' ≡ length es)
      × ((m : ℕ)
          → get_or es' m 0 ≡ (if leb i m && ltb m (i + k) then entry_free else get_or es m 0))
free_loop-Chain zero i k es c h = absurd (omega arith)
free_loop-Chain (suc f) i zero es c h = (es, free_stop f i es c.0 c.1, refl, λ m. ground arith)
free_loop-Chain (suc f) i (suc k) es (a, b, c) h =
    let (es', e, l, g) =
      free_loop-Chain f (i + 1) k (set es i entry_free)
        (Chain-set k (i + 1) i entry_free es (omega arith) c) (omega arith) in
    (
      es',
      free_step f i es a b ∙ e,
      l ∙ length-set es i entry_free,
      λ m. ground (arith, g m, get_or-set es i m entry_free a),
    )

-- A pointer beyond the table makes `heap_free` read outside it.
pub free_loop_outside : (f i : ℕ) (es : List ℕ) → length es ≤ i → free_loop f i es ≡ none
unfolding free_loop
free_loop_outside zero i es h = refl
free_loop_outside (suc f) i es h = rw (get_elem?-eq-none es i h, free_loop)
