-- ===== src/File/Open.antt =====
-- src/fs/file.c: what `fopen` returns, and what it does to the table of open files.
use tmp_os.Base.{
  ℕ, zero, suc, ◌+◌, ◌<◌, ◌≡◌, ◌≢◌, refl, sym, ◌∙◌, ◌⊎◌, inl, inr, true, Option, none, some, List,
  [], ◌∷◌, ◌==◌, length, get_elem?, set, arith, Bool-cases, Option-cases,
}
use tmp_os.Base.Int.{ℤ, pos, negsuc, is_neg}
use tmp_os.Disk.{DiskRef, disk_get}
use tmp_os.Parser.{PathRoot, parser_parse}
use tmp_os.File.{
  FileSystem, FileDescriptor, Files, OpenResult, opened, failed, first_free, file_new_descriptor,
  open_with, open_on, open_result, fopen, file_get_mode_by_string, file_invalid, open_in, no_part,
  out,
}

-- The first element that is NULL.
pub record FirstFree {A : Type 0} (xs : List (Option A)) (i : ℕ) : Type 0 where
  pub inside : i < length xs
  pub is_free : get_elem? xs i ≡ some none
  pub earlier : (j : ℕ) → j < i → (a : A) × (get_elem? xs j ≡ some (some a))

FirstFree-cons :
    {A : Type 0} (a : A) (xs : List (Option A)) (i : ℕ)
    → FirstFree xs i
    → FirstFree (some a ∷ xs) (suc i)
FirstFree-cons a xs i f = record {
  inside = omega (arith, f.inside);
  is_free = f.is_free;
  earlier = earlier a xs i f;
}
  where
    earlier :
        {A : Type 0} (a : A) (xs : List (Option A)) (i : ℕ)
        → FirstFree xs i
        → (j : ℕ) → j < suc i
        → (b : A) × (get_elem? (some a ∷ xs) j ≡ some (some b))
    earlier a xs i f zero h = (a, refl)
    earlier a xs i f (suc j) h = f.earlier j (omega arith)

some_value : {m k : ℕ} → some k ≡ some m → m ≡ k
some_value e = cc

pub first_free-FirstFree :
    {A : Type 0} (xs : List (Option A)) (k m : ℕ)
    → first_free xs k ≡ some m
    → (i : ℕ) × (m ≡ k + i) × FirstFree xs i
unfolding first_free
first_free-FirstFree [] k m e = cc
first_free-FirstFree (none ∷ xs) k m e = (
  0,
  omega (arith, some_value e),
  record { inside = omega arith; is_free = refl; earlier = λ j h. absurd (omega arith) },
)
first_free-FirstFree (some a ∷ xs) k m e =
    let (i, p, f) = first_free-FirstFree xs (k + 1) m e in
    (suc i, omega arith, FirstFree-cons a xs i f)

-- A new descriptor in the first free slot, with the number that is returned.
pub record Registered {P : Type 0} (s : Files P) (res : ℤ) (s' : Files P) : Type 0 where
  pub slot : ℕ
  pub descriptor : FileDescriptor P
  pub first : FirstFree s.file_descriptors slot
  pub numbered : descriptor.index ≡ slot + 1
  pub result : res ≡ pos (slot + 1)
  pub table : s' ≡ record s { file_descriptors = set s.file_descriptors slot (some descriptor) }

-- A result before the label `out`.
abbrev Reached : {P : Type 0} → Files P → ℤ × Files P → Type 0
Reached s r = ((is_neg r.0 ≡ true) × (r.1 ≡ s)) ⊎ Registered s r.0 r.1

file_new_descriptor-Reached :
    {P : Type 0} (fs : FileSystem P) (p : P) (d : DiskRef) (s : Files P)
    → Reached s (file_new_descriptor fs p d s)
unfolding file_new_descriptor
file_new_descriptor-Reached fs p d s = elim (Option-cases (first_free s.file_descriptors 0)) [
  | inl e ↦ rw (e, file_new_descriptor) (inl (refl, refl))
  | inr (m, e) ↦
      let (i, q, f) = first_free-FirstFree s.file_descriptors 0 m e in
      let q' : m ≡ i = omega arith in
      rw (e, q', file_new_descriptor)
        (inr (record {
          slot = i;
          descriptor = record { index = i + 1; filesystem = fs; private_data = p; disk = d };
          first = f;
          numbered = refl;
          result = refl;
          table = refl;
        }))
]

open_cases :
    {P : Type 0} (o : Option (OpenResult P))
    → (o ≡ none) ⊎ ((e : ℕ) × (o ≡ some (failed e))) ⊎ ((p : P) × (o ≡ some (opened p)))
open_cases none = inl refl
open_cases (some (failed e)) = inr (inl (e, refl))
open_cases (some (opened p)) = inr (inr (p, refl))

-- Whatever the run gives was reached as above.
abbrev AllReached : {P : Type 0} → Files P → Option (ℤ × Files P) → Type 0
AllReached s none = Unit
AllReached s (some r) = Reached s r

open_with-AllReached :
    {P : Type 0} (fs : FileSystem P) (d : DiskRef) (root : PathRoot) (m : ℕ) (s : Files P)
    → AllReached s (open_with fs d root m s)
unfolding open_with
open_with-AllReached fs d root m s = elim (open_cases (fs.open_path d root.parts m)) [
  | inl h ↦ rw (h, open_with) tt
  | inr (inl (e, h)) ↦ rw (h, open_with) (inl (refl, refl))
  | inr (inr (p, h)) ↦ rw (h, open_with) (file_new_descriptor-Reached fs p d s)
]

open_in-AllReached :
    {P : Type 0} (o : Option (FileSystem P)) (d : DiskRef) (root : PathRoot) (mode : List ℕ)
    (s : Files P)
    → AllReached s (open_in o d root mode s)
unfolding open_in
open_in-AllReached none d root mode s = inl (refl, refl)
open_in-AllReached (some fs) d root mode s = elim (Option-cases (file_get_mode_by_string mode)) [
  | inl c ↦ rw (c, open_in) tt
  | inr (m, c) ↦ elim (Bool-cases (m == file_invalid)) [
    | inl g ↦ rw (c, g, open_in) (inl (refl, refl))
    | inr g ↦ rw (c, g, open_in) (open_with-AllReached fs d root m s)
  ]
]

open_on-AllReached :
    {P : Type 0} (root : PathRoot) (mode : List ℕ) (s : Files P)
    → AllReached s (open_on root mode s)
unfolding open_on
open_on-AllReached root mode s = elim (Option-cases (disk_get root.drive_num)) [
  | inl a ↦ rw (a, open_on) (inl (refl, refl))
  | inr (d, a) ↦ rw (a, open_on) (open_in-AllReached s.disk_fs d root mode s)
]

parsed_cases :
    (o : Option (Option PathRoot))
    → (o ≡ none) ⊎ (o ≡ some none) ⊎ (r : PathRoot) × (o ≡ some (some r))
parsed_cases none = inl refl
parsed_cases (some none) = inr (inl refl)
parsed_cases (some (some r)) = inr (inr (r, refl))

open_result-AllReached :
    {P : Type 0} (filename mode : List ℕ) (s : Files P) → AllReached s (open_result filename mode s)
unfolding open_result
open_result-AllReached filename mode s = elim (parsed_cases (parser_parse filename)) [
  | inl a ↦ rw (a, open_result) tt
  | inr (inl a) ↦ rw (a, open_result) (inl (refl, refl))
  | inr (inr (root, a)) ↦ elim (Bool-cases (no_part root.parts)) [
    | inl b ↦ rw (a, b, open_result) (inl (refl, refl))
    | inr b ↦ rw (a, b, open_result) (open_on-AllReached root mode s)
  ]
]

same_run :
    {P : Type 0} (a b : ℤ) (t u : Files P)
    → ◌≡◌ {A = Option (ℤ × Files P)} (some (a, t)) (some (b, u))
    → (a ≡ b) × (t ≡ u)
same_run a b t u e = (cc, cc)

negsuc_not : (k n : ℕ) → negsuc k ≢ pos n
negsuc_not k n e = cc

out_cases :
    {P : Type 0} (o : Option (ℤ × Files P)) (s s' : Files P) (res : ℤ)
    → AllReached s o
    → out o ≡ some (res, s')
    → ((res ≡ pos 0) × (s' ≡ s)) ⊎ Registered s res s'
unfolding out
out_cases none s s' res a e = cc
out_cases (some (pos k, t)) s s' res (inl (n, q)) e = cc
out_cases (some (negsuc k, t)) s s' res (inl (n, q)) e =
    let (a, b) = same_run (pos 0) res t s' e in inl (sym a, sym b ∙ q)
out_cases (some (negsuc k, t)) s s' res (inr g) e = absurd (negsuc_not k (g.slot + 1) g.result)
out_cases (some (pos k, t)) s s' res (inr g) e =
    let (a, b) = same_run (pos k) res t s' e in
    inr (record {
      slot = g.slot;
      descriptor = g.descriptor;
      first = g.first;
      numbered = g.numbered;
      result = sym a ∙ g.result;
      table = sym b ∙ g.table;
    })

-- `fopen` gives 0 and changes nothing, whatever the error was, or it puts a descriptor in the
-- first free slot of the table and gives the slot's number and 1.
pub fopen_cases :
    {P : Type 0} (filename mode : List ℕ) (s s' : Files P) (res : ℤ)
    → fopen filename mode s ≡ some (res, s')
    → ((res ≡ pos 0) × (s' ≡ s)) ⊎ Registered s res s'
unfolding fopen
fopen_cases filename mode s s' res e =
    out_cases (open_result filename mode s) s s' res (open_result-AllReached filename mode s) e
