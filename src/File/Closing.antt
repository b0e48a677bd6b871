-- ===== src/File/Closing.antt =====
-- src/fs/file.c: what `fclose` leaves open.
use mathlib.Core.Path.{subst}
use tmp_os.Base.{
  ℕ, ◌+◌, ◌-◌, ◌<◌, ◌≡◌, ◌≢◌, refl, ◌∙◌, sym, ap, inl, inr, true, false, Option, none, some,
  get_elem?, set, arith, Bool-cases, Option-cases, get_elem?-set_self, get_elem?-set_ne,
  get_elem?-eq-none, dec_lt, length,
}
use tmp_os.Base.Int.{ℤ, pos, is_neg}
use tmp_os.Base.Errno.{neg_einvarg}
use tmp_os.File.{FileDescriptor, Files, fclose, file_get_descriptor, file_free_descriptor}
use tmp_os.File.Close.{get_descriptor_found, none_not}
use tmp_os.File.Valid.{IsValid}

-- The open file with this number, which is that of its slot and one more.
pub record IsOpen {P : Type 0} (fd : ℤ) (s : Files P) (slot : ℕ) (d : FileDescriptor P)
    : Type 0 where
  pub number : fd ≡ pos (slot + 1)
  pub inside : slot < length s.file_descriptors
  pub holds : get_elem? s.file_descriptors slot ≡ some (some d)

-- Only this slot was emptied.
pub record IsEmptied {P : Type 0} (slot : ℕ) (s s' : Files P) : Type 0 where
  pub empty : get_elem? s'.file_descriptors slot ≡ some none
  pub others : (j : ℕ) → slot ≢ j → get_elem? s'.file_descriptors j ≡ get_elem? s.file_descriptors j
  pub same_filesystems : s'.filesystems ≡ s.filesystems
  pub same_disk : s'.disk_fs ≡ s.disk_fs

pub data Closes {P : Type 0} (fd : ℤ) (s : Files P) : ℤ → Files P → Type 0 where
  no_file : file_get_descriptor fd s ≡ none → Closes fd s neg_einvarg s
  still_open :
      {res : ℤ} {slot : ℕ} {d : FileDescriptor P}
      → IsOpen fd s slot d
      → d.filesystem.close d.private_data ≡ some res
      → is_neg res ≡ true
      → Closes fd s res s
  closed :
      {res : ℤ} {slot : ℕ} {d : FileDescriptor P} {s' : Files P}
      → IsOpen fd s slot d
      → d.filesystem.close d.private_data ≡ some res
      → is_neg res ≡ false
      → IsEmptied slot s s'
      → Closes fd s res s'

abbrev Ends : {P : Type 0} → ℤ → Files P → Option (ℤ × Files P) → Type 0
Ends fd s none = Unit
Ends fd s (some (res, s')) = Closes fd s res s'

freed-IsEmptied :
    {P : Type 0} (fd : ℤ) (s : Files P) (slot : ℕ) (d : FileDescriptor P)
    → IsOpen fd s slot d
    → d.index ≡ slot + 1
    → IsEmptied slot s (file_free_descriptor d s)
unfolding file_free_descriptor
freed-IsEmptied fd s slot d h n =
    let e : d.index - 1 ≡ slot = omega (arith, n) in
    record {
      empty =
          ap (λ k. get_elem? (set s.file_descriptors k none) slot) e
          ∙ get_elem?-set_self s.file_descriptors slot none h.inside;
      others = λ j ne.
          ap (λ k. get_elem? (set s.file_descriptors k none) j) e
          ∙ get_elem?-set_ne s.file_descriptors none ne;
      same_filesystems = refl;
      same_disk = refl;
    }

fclose-Ends : {P : Type 0} (fd : ℤ) (s : Files P) → IsValid s → Ends fd s (fclose fd s)
unfolding fclose
fclose-Ends fd s v = elim (Option-cases (file_get_descriptor fd s)) [
  | inl e ↦ rw (e, fclose) (no_file e)
  | inr (d, e) ↦
      let (slot, number, holds) = get_descriptor_found fd s d e in
      let inside : slot < length s.file_descriptors =
        elim (dec_lt slot (length s.file_descriptors)) [
          | yes l ↦ l
          | no l ↦
              let out = get_elem?-eq-none s.file_descriptors slot (omega arith) in
              absurd (none_not (some d) (sym out ∙ holds))
        ] in
      let open_file : IsOpen fd s slot d = record {
        number = number;
        inside = inside;
        holds = holds;
      } in
      let emptied = freed-IsEmptied fd s slot d open_file (v.numbered slot d holds) in
      elim (Option-cases (d.filesystem.close d.private_data)) [
        | inl q ↦ rw (e, q, fclose) tt
        | inr (res, q) ↦ elim (Bool-cases (is_neg res)) [
          | inl b ↦ rw (e, q, b, fclose) (still_open open_file q b)
          | inr b ↦ rw (e, q, b, fclose) (closed open_file q b emptied)
        ]
      ]
]

-- On a valid table a call of `fclose` that returns ends in one of three ways: -EINVARG and no change
-- where the number leads to no file; the negative result of the file system and no change; or the
-- file system's result, and the slot of the file is empty, all others and the rest as they were.
pub fclose_cases :
    {P : Type 0} (fd res : ℤ) (s s' : Files P)
    → IsValid s
    → fclose fd s ≡ some (res, s')
    → Closes fd s res s'
fclose_cases fd res s s' v e = subst (Ends fd s) e (fclose-Ends fd s v)
