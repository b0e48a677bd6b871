-- ===== src/Base/Cells.antt =====
-- Arrays of numbers: what a write leaves in each cell.
use Prim.Native.Nat.{ℕ, zero, suc, ◌<◌, ◌≤◌, ◌-◌}
use mathlib.Core.Path.{◌≡◌, refl}
use mathlib.Core.Logic.{inl, inr}
use mathlib.Core.List.{List, [], ◌∷◌, ◌++◌}
use mathlib.Core.Option.{some}
use native.Mathlib.Omega.{arith}
use tmp_os.Base.Tests.{◌==◌, ==_iff, if◌then◌else◌, Bool-cases}
use tmp_os.Base.Lists.{
  length, get_or, set, get_or-set_self, get_or-set_ne, get_elem?, get_elem?-set_self,
  get_elem?-set_ne,
}

pub get_or-set :
    (xs : List ℕ) (i j v : ℕ)
    → i < length xs
    → get_or (set xs i v) j 0 ≡ (if i == j then v else get_or xs j 0)
get_or-set xs i j v h = elim (Bool-cases (i == j)) [
  | inl e ↦ ground (arith, get_or-set_self xs i v 0 h)
  | inr e ↦ rw e (get_or-set_ne xs i j v 0 (ground arith))
]

pub get_or-snoc :
    (xs : List ℕ) (c i : ℕ)
    → get_or (xs ++ (c ∷ [])) i 0 ≡ (if i == length xs then c else get_or xs i 0)
get_or-snoc [] c zero = refl
get_or-snoc [] c (suc i) = ground arith
get_or-snoc (x ∷ xs) c zero = ground arith
get_or-snoc (x ∷ xs) c (suc i) = ground (arith, get_or-snoc xs c i)

pub get_or_outside : (xs : List ℕ) (i : ℕ) → length xs ≤ i → get_or xs i 0 ≡ 0
get_or_outside [] i h = refl
get_or_outside (x ∷ xs) zero h = absurd (omega arith)
get_or_outside (x ∷ xs) (suc i) h = get_or_outside xs i (omega arith)

pub get_or-cons :
    (x : ℕ) (xs : List ℕ) (i : ℕ)
    → get_or (x ∷ xs) i 0 ≡ (if i == 0 then x else get_or xs (i - 1) 0)
get_or-cons x xs zero = refl
get_or-cons x xs (suc i) = ground arith

pub get_elem?-set {ℓ} :
    {A : Type ℓ} (xs : List A) (i j : ℕ) (v : A)
    → i < length xs
    → get_elem? (set xs i v) j ≡ (if i == j then some v else get_elem? xs j)
get_elem?-set xs i j v h = elim (Bool-cases (i == j)) [
  | inl e ↦ rw (e, ← (==_iff i j).0 e) (get_elem?-set_self xs i v h)
  | inr e ↦ rw e (get_elem?-set_ne xs v (ground arith))
]

pub get_elem?-cons :
    {A : Type 0} (x : A) (xs : List A) (i : ℕ)
    → get_elem? (x ∷ xs) i ≡ (if i == 0 then some x else get_elem? xs (i - 1))
get_elem?-cons x xs zero = refl
get_elem?-cons x xs (suc i) = ground arith
