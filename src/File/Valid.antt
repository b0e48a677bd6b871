-- ===== src/File/Valid.antt =====
-- src/fs/file.c: the invariant of the table of open files.
use tmp_os.Base.{
  ℕ, ◌+◌, ◌-◌, ◌<◌, ◌≡◌, refl, sym, ◌∙◌, ap, inl, inr, true, false, Option, none, some, List, ◌==◌,
  ◌||◌, leb, length, get_elem?, set, arith, Bool-cases, Option-cases, get_elem?-set, length-set,
  dec_lt, get_elem?-eq-none,
}
use mathlib.Core.Path.{subst}
use tmp_os.Base.Int.{ℤ, is_neg, is_zero, as_uint32}
use tmp_os.File.{
  FileDescriptor, Files, fopen, fread, fseek, fclose, file_get_descriptor, max_file_descriptors,
  with_private, file_free_descriptor,
}
use tmp_os.File.Open.{fopen_cases}
use tmp_os.File.Close.{get_descriptor_found, none_not, some_same}

-- Each open file stands in the slot that its number names.
abbrev pub Numbered : {P : Type 0} → List (Option (FileDescriptor P)) → Type 0
Numbered xs = (i : ℕ) (d : FileDescriptor _) → get_elem? xs i ≡ some (some d) → d.index ≡ i + 1

-- And the table has its size.
pub record IsValid {P : Type 0} (s : Files P) : Type 0 where
  pub sized : length s.file_descriptors ≡ max_file_descriptors
  pub numbered : Numbered s.file_descriptors

set-Numbered :
    {P : Type 0} (xs : List (Option (FileDescriptor P))) (k : ℕ) (o : Option (FileDescriptor P))
    → Numbered xs
    → k < length xs
    → ((d : FileDescriptor P) → o ≡ some d → d.index ≡ k + 1)
    → Numbered (set xs k o)
set-Numbered xs k o v h f i d e = elim (Bool-cases (k == i)) [
  | inl b ↦ f d (sym (some_same o (some d) (sym (read b) ∙ e))) ∙ ground arith
  | inr b ↦ v i d (sym (unread b) ∙ e)
]
  where
    read : (k == i) ≡ true → get_elem? (set xs k o) i ≡ some o
    read b = get_elem?-set xs k i o h ∙ rw b refl

    unread : (k == i) ≡ false → get_elem? (set xs k o) i ≡ get_elem? xs i
    unread b = get_elem?-set xs k i o h ∙ rw b refl

set-IsValid :
    {P : Type 0} (s : Files P) (k : ℕ) (o : Option (FileDescriptor P))
    → IsValid s
    → k < max_file_descriptors
    → ((d : FileDescriptor P) → o ≡ some d → d.index ≡ k + 1)
    → IsValid (record s { file_descriptors = set s.file_descriptors k o })
set-IsValid s k o v h f = record {
  sized = length-set s.file_descriptors k o ∙ v.sized;
  numbered = set-Numbered s.file_descriptors k o v.numbered (omega (arith, v.sized)) f;
}

-- `fopen` keeps the table valid.
pub fopen-IsValid :
    {P : Type 0} (filename mode : List ℕ) (s s' : Files P) (res : ℤ)
    → IsValid s
    → fopen filename mode s ≡ some (res, s')
    → IsValid s'
fopen-IsValid filename mode s s' res v e = elim (fopen_cases filename mode s s' res e) [
  | inl (q, same) ↦ rw same v
  | inr g ↦ rw g.table (
      set-IsValid s g.slot (some g.descriptor) v (omega (arith, v.sized, g.first.inside))
        (λ d q. ap (λ x. x.index) (some_same g.descriptor d q) ∙ g.numbered))
]

found_slot :
    {P : Type 0} (fd : ℤ) (s : Files P) (d : FileDescriptor P)
    → IsValid s
    → file_get_descriptor fd s ≡ some d
    → (i : ℕ) × (i < max_file_descriptors) × (d.index ≡ i + 1)
found_slot fd s d v e =
    let (i, q, g) = get_descriptor_found fd s d e in
    (
      i,
      elim (dec_lt i (length s.file_descriptors)) [
        | yes l ↦ omega (arith, v.sized)
        | no l ↦
            absurd
              (none_not (some d) (sym (get_elem?-eq-none s.file_descriptors i (omega arith)) ∙ g))
      ],
      v.numbered i d g,
    )

with_private-IsValid :
    {P : Type 0} (fd : ℤ) (s : Files P) (d : FileDescriptor P) (p : P)
    → IsValid s
    → file_get_descriptor fd s ≡ some d
    → IsValid (with_private d p s)
unfolding with_private
with_private-IsValid fd s d p v e =
    let (i, l, n) = found_slot fd s d v e in
    set-IsValid s (d.index - 1) (some (record d { private_data = p })) v (omega (arith, n, l))
      (λ x q. ap (λ y. y.index) (some_same (record d { private_data = p }) x q) ∙ omega (arith, n))

file_free_descriptor-IsValid :
    {P : Type 0} (fd : ℤ) (s : Files P) (d : FileDescriptor P)
    → IsValid s
    → file_get_descriptor fd s ≡ some d
    → IsValid (file_free_descriptor d s)
unfolding file_free_descriptor
file_free_descriptor-IsValid fd s d v e =
    let (i, l, n) = found_slot fd s d v e in
    set-IsValid s (d.index - 1) none v (omega (arith, n, l)) (λ x q. absurd (none_not x q))

-- Whatever state a run leaves is valid.
abbrev AllValid : {P : Type 0} → {R : Type 0} → Option (R × Files P) → Type 0
AllValid none = Unit
AllValid (some r) = IsValid r.1

AllValid-some :
    {P : Type 0} {R : Type 0} (o : Option (R × Files P)) (r : R) (s : Files P)
    → AllValid o
    → o ≡ some (r, s)
    → IsValid s
AllValid-some o r s v e = subst AllValid e v

fclose-AllValid : {P : Type 0} (fd : ℤ) (s : Files P) → IsValid s → AllValid (fclose fd s)
unfolding fclose
fclose-AllValid fd s v = elim (Option-cases (file_get_descriptor fd s)) [
  | inl e ↦ rw (e, fclose) v
  | inr (d, e) ↦ elim (Option-cases (d.filesystem.close d.private_data)) [
    | inl q ↦ rw (e, q, fclose) tt
    | inr (res, q) ↦ elim (Bool-cases (is_neg res)) [
      | inl b ↦ rw (e, q, b, fclose) v
      | inr b ↦ rw (e, q, b, fclose) (file_free_descriptor-IsValid fd s d v e)
    ]
  ]
]

abbrev result_of :
    {P : Type 0} → {A B : Type 0} → Option (A × B × Files P) → Option ((A × B) × Files P)
result_of none = none
result_of (some (a, b, s)) = some ((a, b), s)

fread-AllValid :
    {P : Type 0} (n m : ℕ) (ptr : List ℕ) (fd : ℤ) (s : Files P)
    → IsValid s
    → AllValid (result_of (fread ptr n m fd s))
unfolding fread
fread-AllValid n m ptr fd s v = elim (Bool-cases (leb n 0 || leb m 0 || is_neg fd || is_zero fd)) [
  | inl b ↦ rw (b, fread) v
  | inr b ↦ elim (Option-cases (file_get_descriptor fd s)) [
    | inl e ↦ rw (b, e, fread) v
    | inr (d, e) ↦ elim (Option-cases (d.filesystem.read d.disk d.private_data n m ptr)) [
      | inl q ↦ rw (b, e, q, fread) tt
      | inr ((res, p, ptr'), q) ↦ rw (b, e, q, fread) (with_private-IsValid fd s d p v e)
    ]
  ]
]

fseek-AllValid :
    {P : Type 0} (fd offset : ℤ) (m : ℕ) (s : Files P) → IsValid s → AllValid (fseek fd offset m s)
unfolding fseek
fseek-AllValid fd offset m s v = elim (Option-cases (file_get_descriptor fd s)) [
  | inl e ↦ rw (e, fseek) v
  | inr (d, e) ↦ elim (Option-cases (d.filesystem.seek d.private_data (as_uint32 offset) m)) [
    | inl q ↦ rw (e, q, fseek) tt
    | inr ((res, p), q) ↦ rw (e, q, fseek) (with_private-IsValid fd s d p v e)
  ]
]

-- `fclose`, `fread` and `fseek` keep the table valid, for any number and any file system whose
-- operations return.
pub operations-IsValid :
    {P : Type 0} (fd offset a b c : ℤ) (n m : ℕ) (ptr ptr' : List ℕ) (s t u v : Files P)
    → IsValid s
    → fclose fd s ≡ some (a, t)
    → fread ptr n m fd s ≡ some (b, ptr', u)
    → fseek fd offset m s ≡ some (c, v)
    → IsValid t × IsValid u × IsValid v
operations-IsValid fd offset a b c n m ptr ptr' s t u v h i j k = (
  AllValid-some (fclose fd s) a t (fclose-AllValid fd s h) i,
  AllValid-some (result_of (fread ptr n m fd s)) (b, ptr') u (fread-AllValid n m ptr fd s h)
      (ap result_of j),
  AllValid-some (fseek fd offset m s) c v (fseek-AllValid fd offset m s h) k,
)
