-- ===== src/Strings/Compare.antt =====
-- The comparisons: what a result of 0 says.
use tmp_os.Base.{
  ℕ, zero, suc, ◌≤◌, ◌<◌, ◌≡◌, ◌≢◌, ◌↔◌, refl, some, List, [], ◌∷◌, ◌==◌, length, ◌++◌, arith,
  Bool-cases, inl, inr, take, map,
}
use tmp_os.Base.Int.{ℤ, pos}
use tmp_os.Strings.{strcmp, memcmp, istrncmp, tolower, char_diff}
use tmp_os.Strings.Length.{IsText, stored}

abbrev pub IsBytes : List ℕ → Type 0
IsBytes [] = Unit
IsBytes (c ∷ s) = (c < 256) × IsBytes s

char_diff_zero : (a b : ℕ) → a < 256 → b < 256 → char_diff a b ≡ pos 0 → a ≡ b
char_diff_zero a b h k e = ground arith

-- `strcmp` of two terminated strings returns, and returns 0 exactly when their texts are equal.
pub strcmp-eq_iff :
    (s t rest rest' : List ℕ)
    → IsText s
    → IsText t
    → IsBytes s
    → IsBytes t
    → (z : ℤ) × (strcmp (stored s rest) (stored t rest') ≡ some z) × ((z ≡ pos 0) ↔ (s ≡ t))
unfolding strcmp
strcmp-eq_iff [] [] rest rest' a b c d = (pos 0, refl, ((λ e. refl), (λ e. refl)))
strcmp-eq_iff [] (y ∷ t) rest rest' a b c d =
    (char_diff 0 y, ground (arith, b.0), ((λ e. absurd (ground (arith, b.0, d.0))), (λ e. cc)))
strcmp-eq_iff (x ∷ s) [] rest rest' a b c d =
    (char_diff x 0, ground (arith, a.0), ((λ e. absurd (ground (arith, a.0, c.0))), (λ e. cc)))
strcmp-eq_iff (x ∷ s) (y ∷ t) rest rest' a b c d = elim (Bool-cases (x == y)) [
  | inl e ↦
      let (z, r, iff) = strcmp-eq_iff s t rest rest' a.1 b.1 c.1 d.1 in
      (z, ground (arith, a.0, r), ((λ q. ground (arith, iff.0 q)), (λ q. iff.1 (cc q))))
  | inr e ↦ (
    char_diff x y,
    ground arith,
    (
      (λ q. absurd (ground (arith, char_diff_zero x y c.0 d.0 q))),
      (λ q. absurd (ground (arith, q))),
    ),
  )
]

-- `memcmp` inside both buffers returns, and returns 0 exactly when the first `n` bytes agree.
pub memcmp-eq_iff :
    (n : ℕ) (s t : List ℕ)
    → n ≤ length s
    → n ≤ length t
    → IsBytes s
    → IsBytes t
    → (z : ℤ) × (memcmp s t n ≡ some z) × ((z ≡ pos 0) ↔ (take n s ≡ take n t))
unfolding memcmp
memcmp-eq_iff zero s t a b c d = (pos 0, refl, ((λ e. refl), (λ e. refl)))
memcmp-eq_iff (suc n) [] t a b c d = absurd (omega arith)
memcmp-eq_iff (suc n) (x ∷ s) [] a b c d = absurd (omega arith)
memcmp-eq_iff (suc n) (x ∷ s) (y ∷ t) a b c d = elim (Bool-cases (x == y)) [
  | inl e ↦
      let (z, r, iff) = memcmp-eq_iff n s t (omega arith) (omega arith) c.1 d.1 in
      (z, ground (arith, r), ((λ q. ground (arith, iff.0 q)), (λ q. iff.1 (cc q))))
  | inr e ↦ (
    char_diff x y,
    ground arith,
    (
      (λ q. absurd (ground (arith, char_diff_zero x y c.0 d.0 q))),
      (λ q. absurd (ground (arith, q))),
    ),
  )
]

-- Buffers that agree up to case in their first `n` bytes compare as equal.
pub istrncmp_same :
    (n : ℕ) (s t : List ℕ)
    → n ≤ length s
    → n ≤ length t
    → map tolower (take n s) ≡ map tolower (take n t)
    → istrncmp s t n ≡ some (pos 0)
unfolding istrncmp
istrncmp_same zero s t a b e = refl
istrncmp_same (suc n) [] t a b e = absurd (omega arith)
istrncmp_same (suc n) (x ∷ s) [] a b e = absurd (omega arith)
istrncmp_same (suc n) (x ∷ s) (y ∷ t) a b e =
    let here : tolower x ≡ tolower y = ground arith in rw here (ground (arith, istrncmp_same n s t))

-- The converse fails: buffers that differ in one byte compare as equal when the bytes behind it
-- agree up to case.
pub istrncmp_misses :
    (p s t : List ℕ) (a b x y n : ℕ)
    → length p < n
    → tolower a ≢ tolower b
    → tolower x ≡ tolower y
    → istrncmp (p ++ (a ∷ x ∷ s)) (p ++ (b ∷ y ∷ t)) n ≡ some (pos 0)
unfolding istrncmp
istrncmp_misses p s t a b x y zero l ne e = absurd (omega arith)
istrncmp_misses [] s t a b x y (suc n) l ne e = ground arith
istrncmp_misses (c ∷ p) s t a b x y (suc n) l ne e = ground (arith, istrncmp_misses p s t a b x y n)

-- Inside both buffers `memcmp` returns.
pub memcmp_total :
    (n : ℕ) (s t : List ℕ) → n ≤ length s → n ≤ length t → (z : ℤ) × (memcmp s t n ≡ some z)
unfolding memcmp
memcmp_total zero s t a b = (pos 0, refl)
memcmp_total (suc n) [] t a b = absurd (omega arith)
memcmp_total (suc n) (x ∷ s) [] a b = absurd (omega arith)
memcmp_total (suc n) (x ∷ s) (y ∷ t) a b = elim (Bool-cases (x == y)) [
  | inl e ↦ let (z, r) = memcmp_total n s t (omega arith) (omega arith) in (z, ground (arith, r))
  | inr e ↦ (char_diff x y, ground arith)
]
