-- ===== src/Fat16/Fopen.antt =====
-- src/fs/file.c over src/fs/fat/fat16.c: files of a FAT16 disk through the file layer.
use tmp_os.Base.{
  ℕ, zero, suc, ◌+◌, ◌-◌, ◌/◌, ◌<◌, ◌≡◌, ◌≢◌, refl, true, ◌∙◌, ap, ◌==◌, ◌||◌, false, some, none,
  List, [], ◌∷◌, arith, leb, length, take, set, get_elem?-set_self,
}
use tmp_os.Base.Int.{pos, is_neg, is_zero}
use tmp_os.Disk.{Controller, DiskRef, the_disk, disk_get}
use tmp_os.Disk.Sector.{IsDisk}
use tmp_os.Parser.{PathRoot, parser_parse}
use tmp_os.File.{
  FileSystem, opened, no_part, file_invalid, fclose, FileDescriptor, Files, file_read, fopen, fread,
  first_free, file_get_mode_by_string, with_private, max_file_descriptors, open_result, open_on,
  open_in, open_with, file_new_descriptor, out,
}
use tmp_os.File.Open.{first_free-FirstFree}
use tmp_os.File.Close.{get_descriptor_slot}
use tmp_os.Fat16.{FatPrivate}
use tmp_os.Fat16.Items.{item_size, overwrite, first_cluster_of}
use tmp_os.Fat16.Operations.{
  Handle, plain_number, erdonly, fat16_fs, fat16_open, fat16_read, fat16_close,
}
use tmp_os.Fat16.Lookup.{LastMatch, nth_item}
use tmp_os.Fat16.Reading.{IsChain, chain_bytes, cluster_size}
use tmp_os.Fat16.Opening.{file_at, open-LastMatch, open-plain_number, read-chain_bytes}

abbrev pub fat_descriptor : Controller → FatPrivate → ℕ → Handle → FileDescriptor Handle
fat_descriptor c private i h = record {
  index = i + 1;
  filesystem = fat16_fs true c private;
  private_data = h;
  disk = the_disk;
}

-- With one more file in slot `i`.
abbrev pub with_file : Controller → FatPrivate → ℕ → Handle → Files Handle → Files Handle
with_file c private i h s = record s {
  file_descriptors = set s.file_descriptors i (some (fat_descriptor c private i h));
}

new_descriptor :
    (c : Controller) (private : FatPrivate) (h : Handle) (i : ℕ) (s : Files Handle)
    → first_free s.file_descriptors 0 ≡ some i
    → file_new_descriptor (fat16_fs true c private) h the_disk s
      ≡ (pos (i + 1), with_file c private i h s)
unfolding file_new_descriptor
new_descriptor c private h i s e = rw (e, file_new_descriptor) refl

open_with-opened :
    {P : Type 0} (fs : FileSystem P) (d : DiskRef) (root : PathRoot) (m : ℕ) (p : P) (s : Files P)
    → fs.open_path d root.parts m ≡ some (opened p)
    → open_with fs d root m s ≡ some (file_new_descriptor fs p d s)
unfolding open_with
open_with-opened fs d root m p s e = rw (e, open_with) refl

module _ (c : Controller) (private : FatPrivate) (filename mode : List ℕ) (parts : List (List ℕ))
    (m i : ℕ) (h : Handle) (s : Files Handle)
    (parsed : parser_parse filename ≡ some (some (record { drive_num = 0; parts = parts })))
    (has_part : no_part parts ≡ false) (has_mode : file_get_mode_by_string mode ≡ some m)
    (valid_mode : m ≢ file_invalid) (on_fat : s.disk_fs ≡ some (fat16_fs true c private))
    (free : first_free s.file_descriptors 0 ≡ some i)
    (is_opened : fat16_open true c private parts m ≡ some (opened h)) where
  open_in-with_file :
      open_in
        (some (fat16_fs true c private))
        the_disk
        (record { drive_num = 0; parts = parts })
        mode
        s
      ≡ some (pos (i + 1), with_file c private i h s)
  unfolding open_in fat16_fs
  open_in-with_file =
      let e : (m == file_invalid) ≡ false = ground arith in
      let root : PathRoot = record { drive_num = 0; parts = parts } in
      rw (has_mode, e, open_in)
        (open_with-opened (fat16_fs true c private) the_disk root m h s is_opened
          ∙ ap some (new_descriptor c private h i s free))

  fopen-with_file : fopen filename mode s ≡ some (pos (i + 1), with_file c private i h s)
  unfolding fopen open_result open_on disk_get out
  fopen-with_file =
      let root : PathRoot = record { drive_num = 0; parts = parts } in
      rw (parsed, has_part, open_result)
        (ap (λ o. out (open_in o the_disk root mode s)) on_fat ∙ ap out open_in-with_file)

set_same : {A : Type 0} (xs : List A) (i : ℕ) (v : A) → set (set xs i v) i v ≡ set xs i v
set_same [] i v = refl
set_same (x ∷ xs) zero v = refl
set_same (x ∷ xs) (suc i) v = ap (λ l. x ∷ l) (set_same xs i v)

same_private :
    (c : Controller) (private : FatPrivate) (i : ℕ) (h : Handle) (s : Files Handle)
    → with_private (fat_descriptor c private i h) h (with_file c private i h s)
      ≡ with_file c private i h s
unfolding with_private
same_private c private i h s =
    let e : i + 1 - 1 ≡ i = omega arith in
    let d = some (fat_descriptor c private i h) in
    rw e (ap (λ l. record s { file_descriptors = l }) (set_same s.file_descriptors i d))

fread-with_file :
    (byte : ℕ → ℕ) (c : Controller) (private : FatPrivate) (item : List ℕ) (chain : ℕ → ℕ)
    (size i : ℕ) (mem : List ℕ) (s : Files Handle)
    → IsDisk byte c
    → IsChain c private (first_cluster_of item) chain size
    → 0 < cluster_size private
    → 0 < size
    → i + 1 < max_file_descriptors
    → i < length s.file_descriptors
    → fread mem size 1 (pos (i + 1)) (with_file c private i (file_at item 0) s)
      ≡ some (
        pos 1,
        overwrite (chain_bytes byte private chain (suc (size / cluster_size private)) 0 size) mem,
        with_file c private i (file_at item 0) s,
      )
unfolding fread fat16_fs
fread-with_file byte c private item chain size i mem s d k z p l n =
    let h = file_at item 0 in
    let found =
      get_descriptor_slot i (with_file c private i h s) (fat_descriptor c private i h) l
        (get_elem?-set_self s.file_descriptors i (some (fat_descriptor c private i h)) n) in
    let guards : (leb size 0 || leb 1 0 || is_neg (pos (i + 1)) || is_zero (pos (i + 1))) ≡ false =
      ground arith in
    rw (guards, found, read-chain_bytes byte c private item chain size mem d k z p, fread)
      (ap
        (λ t. some (
          pos 1,
          overwrite (chain_bytes byte private chain (suc (size / cluster_size private)) 0 size) mem,
          t,
        ))
        (same_private c private i h s))

-- With a FAT16 file system on the disk and memory for what it makes, `fopen` for reading of a path of
-- one part, where the code's comparison of names takes this part for some of the first `total` items
-- of the root directory and none of these is a subdirectory, opens the last of these in the first
-- free slot, unless that is the last slot. `fread` of one item of `size` bytes, where the code's
-- lookup in the table of clusters finds the cluster of each part of it, then returns 1 and puts the
-- first bytes of these clusters at the start of the caller's memory. It leaves all as it was, the
-- file's position too.
pub fopen-fread :
    (byte : ℕ → ℕ) (c : Controller) (private : FatPrivate) (filename mode part : List ℕ)
    (chain : ℕ → ℕ) (i j size : ℕ) (mem : List ℕ) (s : Files Handle)
    → IsDisk byte c
    → parser_parse filename ≡ some (some (record { drive_num = 0; parts = part ∷ [] }))
    → file_get_mode_by_string mode ≡ some file_read
    → s.disk_fs ≡ some (fat16_fs true c private)
    → first_free s.file_descriptors 0 ≡ some i
    → i + 1 < max_file_descriptors
    → LastMatch private.root_dir.item part private.root_dir.total j
    → let item = take item_size (nth_item private.root_dir.item j) in
      IsChain c private (first_cluster_of item) chain size
      → 0 < cluster_size private
      → 0 < size
      → let item = take item_size (nth_item private.root_dir.item j) in
        let s' = with_file c private i (file_at item 0) s in
        let bytes = chain_bytes byte private chain (suc (size / cluster_size private)) 0 size in
        (fopen filename mode s ≡ some (pos (i + 1), s'))
        × (fread mem size 1 (pos (i + 1)) s' ≡ some (pos 1, overwrite bytes mem, s'))
fopen-fread byte c private filename mode part chain i j size mem s d p m f e l q k z n =
    let item = take item_size (nth_item private.root_dir.item j) in
    let (i', same, free) = first_free-FirstFree s.file_descriptors 0 i e in
    (
      fopen-with_file c private filename mode (part ∷ []) file_read i (file_at item 0) s p refl m
          (omega arith) f e (open-LastMatch c private part j q),
      fread-with_file byte c private item chain size i mem s d k z n l
          (omega (arith, same, free.inside)),
    )

-- With another mode than for reading `fopen` does not fail either: it registers the address 6 as
-- the file, and the program reads or closes this by its number, which uses memory that is none of
-- the file system's.
pub fopen-plain_number :
    (c : Controller) (private : FatPrivate) (filename mode : List ℕ) (parts : List (List ℕ))
    (m i size nmemb : ℕ) (mem : List ℕ) (s : Files Handle)
    → parser_parse filename ≡ some (some (record { drive_num = 0; parts = parts }))
    → no_part parts ≡ false
    → file_get_mode_by_string mode ≡ some m
    → m ≢ file_invalid
    → m ≢ file_read
    → s.disk_fs ≡ some (fat16_fs true c private)
    → first_free s.file_descriptors 0 ≡ some i
    → i + 1 < max_file_descriptors
    → 0 < size
    → 0 < nmemb
    → let s' = with_file c private i (plain_number erdonly) s in
      (fopen filename mode s ≡ some (pos (i + 1), s'))
      × (fread mem size nmemb (pos (i + 1)) s' ≡ none)
      × (fclose (pos (i + 1)) s' ≡ none)
unfolding fread fclose fat16_fs fat16_read fat16_close
fopen-plain_number c private filename mode parts m i size nmemb mem s p q e v w f g l a b =
    let h = plain_number erdonly in
    let (i', same, free) = first_free-FirstFree s.file_descriptors 0 i g in
    let found = get_descriptor_slot i (with_file c private i h s) (fat_descriptor c private i h) l (
      get_elem?-set_self s.file_descriptors i (some (fat_descriptor c private i h))
        (omega (arith, same, free.inside))) in
    let guards : (leb size 0 || leb nmemb 0 || is_neg (pos (i + 1)) || is_zero (pos (i + 1)))
        ≡ false =
      ground arith in
    (
      fopen-with_file c private filename mode parts m i h s p q e v f g
          (open-plain_number c private parts m w),
      rw (guards, found, fread) refl,
      rw (found, fclose) refl,
    )
