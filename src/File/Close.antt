-- ===== src/File/Close.antt =====
-- src/fs/file.c: what a returned number leads to.
use tmp_os.Base.{
  ℕ, zero, suc, ◌+◌, ◌-◌, ◌<◌, ◌≡◌, ◌≢◌, refl, ◌∙◌, ap, inl, inr, Bool, true, false, Option, none,
  some, List, [], ◌∷◌, ◌||◌, leb, if◌then◌else◌, get_elem?, set, arith, Bool-cases,
  get_elem?-set_self,
}
use tmp_os.Base.Int.{ℤ, pos, negsuc, is_neg, is_zero}
use tmp_os.Base.Errno.{neg_einvarg, neg_enomem}
use tmp_os.File.{
  FileDescriptor, Files, fread, fseek, fclose, file_get_descriptor, max_file_descriptors,
  file_free_descriptor,
}
use tmp_os.File.Open.{Registered}

pub get_descriptor_slot :
    {P : Type 0} (i : ℕ) (s : Files P) (d : FileDescriptor P)
    → i + 1 < max_file_descriptors
    → get_elem? s.file_descriptors i ≡ some (some d)
    → file_get_descriptor (pos (i + 1)) s ≡ some d
unfolding file_get_descriptor
get_descriptor_slot i s d h e =
    let a : i + 1 - 1 ≡ i = omega arith in
    let b : (leb (i + 1) 0 || leb max_file_descriptors (i + 1)) ≡ false = ground arith in
    rw (b, a, e, file_get_descriptor) refl

found_inside :
    {D : Type 0} (out_of_range : Bool) (slot : Option (Option D)) (d : D)
    → (if out_of_range then none else elim slot [ none ↦ none | some x ↦ x ]) ≡ some d
    → slot ≡ some (some d)
found_inside true slot d e = cc
found_inside false none d e = cc
found_inside false (some x) d e = ap some e

-- The slot that a descriptor was found in.
pub get_descriptor_found :
    {P : Type 0} (fd : ℤ) (s : Files P) (d : FileDescriptor P)
    → file_get_descriptor fd s ≡ some d
    → (i : ℕ) × (fd ≡ pos (i + 1)) × (get_elem? s.file_descriptors i ≡ some (some d))
unfolding file_get_descriptor
get_descriptor_found (negsuc n) s d e = cc
get_descriptor_found (pos zero) s d e = cc
get_descriptor_found (pos (suc i)) s d e =
    let slot : suc i - 1 ≡ i = omega arith in
    let n : suc i ≡ i + 1 = omega arith in
    (
      i,
      ap pos n,
      rw (← slot) (
          found_inside (leb (suc i) 0 || leb max_file_descriptors (suc i))
            (get_elem? s.file_descriptors (suc i - 1)) d e),
    )

registered_found :
    {P : Type 0} (s s' : Files P) (res : ℤ) (g : Registered s res s')
    → get_elem? s'.file_descriptors g.slot ≡ some (some g.descriptor)
registered_found s s' res g =
    ap (λ t. get_elem? t.file_descriptors g.slot) g.table
    ∙ get_elem?-set_self s.file_descriptors g.slot (some g.descriptor) g.first.inside

pub none_not : {A : Type 0} (x : A) → none ≢ some x
none_not x e = cc

pub some_same : {A : Type 0} (x v : A) → some x ≡ some v → v ≡ x
some_same x v e = cc

set-set_back :
    {A : Type 0} (xs : List A) (i : ℕ) (v w : A)
    → get_elem? xs i ≡ some v
    → set (set xs i w) i v ≡ xs
set-set_back [] i v w e = refl
set-set_back (x ∷ xs) zero v w e = ap (λ y. y ∷ xs) (some_same x v e)
set-set_back (x ∷ xs) (suc i) v w e = ap (λ l. x ∷ l) (set-set_back xs i v w e)

abbrev with_table : {P : Type 0} → Files P → List (Option (FileDescriptor P)) → Files P
with_table s l = record s { file_descriptors = l }

free_registered :
    {P : Type 0} (s s' : Files P) (res : ℤ) (g : Registered s res s')
    → file_free_descriptor g.descriptor s' ≡ s
unfolding file_free_descriptor
free_registered s s' res g =
    let slot : g.descriptor.index - 1 ≡ g.slot = omega (arith, g.numbered) in
    ap (λ t. with_table t (set t.file_descriptors (g.descriptor.index - 1) none)) g.table
    ∙ ap (λ k. with_table s (set (set s.file_descriptors g.slot (some g.descriptor)) k none)) slot
    ∙ ap (λ l. with_table s l)
        (set-set_back s.file_descriptors g.slot none (some g.descriptor) g.first.is_free)

-- A file that was just opened, but in the last slot, is found by its number; and if the file system
-- closes it, `fclose` restores the table and gives the file system's result.
pub fclose-Registered :
    {P : Type 0} (s s' : Files P) (res n : ℤ) (g : Registered s res s')
    → g.slot + 1 < max_file_descriptors
    → g.descriptor.filesystem.close g.descriptor.private_data ≡ some n
    → is_neg n ≡ false
    → (file_get_descriptor res s' ≡ some g.descriptor) × (fclose res s' ≡ some (n, s))
unfolding fclose
fclose-Registered s s' res n g h q c =
    let found : file_get_descriptor res s' ≡ some g.descriptor =
      rw g.result (get_descriptor_slot g.slot s' g.descriptor h (registered_found s s' res g)) in
    (found, rw (found, q, c, fclose) (ap (λ t. some (n, t)) (free_registered s s' res g)))

no_descriptor :
    {P : Type 0} (fd : ℤ) (s : Files P) (offset : ℤ) (n m : ℕ) (ptr : List ℕ)
    → file_get_descriptor fd s ≡ none
    → (fclose fd s ≡ some (neg_einvarg, s))
      × (fread ptr n m fd s ≡ some (neg_einvarg, ptr, s))
      × (fseek fd offset m s ≡ some (neg_enomem, s))
unfolding fclose fread fseek
no_descriptor fd s offset n m ptr e = (
  rw (e, fclose) refl,
  elim (Bool-cases (leb n 0 || leb m 0 || is_neg fd || is_zero fd)) [
    | inl b ↦ rw (b, fread) refl
    | inr b ↦ rw (b, e, fread) refl
  ],
  rw (e, fseek) refl,
)

-- The file in the last slot is open and its number was given away, but no operation accepts it.
pub last_slot_lost :
    {P : Type 0} (s s' : Files P) (res : ℤ) (g : Registered s res s') (offset : ℤ) (n m : ℕ)
    (ptr : List ℕ)
    → g.slot + 1 ≡ max_file_descriptors
    → (fclose res s' ≡ some (neg_einvarg, s'))
      × (fread ptr n m res s' ≡ some (neg_einvarg, ptr, s'))
      × (fseek res offset m s' ≡ some (neg_enomem, s'))
unfolding file_get_descriptor
last_slot_lost s s' res g offset n m ptr h =
    no_descriptor res s' offset n m ptr (rw (g.result, h) refl)
