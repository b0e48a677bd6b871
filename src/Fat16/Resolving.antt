-- ===== src/Fat16/Resolving.antt =====
-- src/fs/fat/fat16.c: what `fat16_resolve` finds on a disk.
use tmp_os.Base.{
  ℕ, zero, suc, ◌+◌, ◌*◌, ◌/◌, ◌%◌, ◌^◌, ◌<◌, ◌≡◌, ◌≢◌, refl, ap, ◌==◌, true, false, none, some,
  List, [], ◌∷◌, ◌++◌, arith, length, drop, replicate,
}
use tmp_os.Base.Int.{pos}
use tmp_os.Base.Errno.{neg_efsnotus, neg_eio}
use tmp_os.Disk.{Controller}
use tmp_os.Disk.Sector.{IsDisk, slice}
use tmp_os.Disk.Streamer.{disk_stream_read}
use tmp_os.Disk.Stream.{transferred, at, disk_stream_read_lem}
use tmp_os.Fat16.{FatHeader, FatDirectory}
use tmp_os.Fat16.Clusters.{seek_and_read_lem}
use tmp_os.Fat16.Items.{item_size, overwrite}
use tmp_os.Fat16.Directory.{
  fat16_resolve, fat16_get_root_directory, header_of, header_size, fat16_sig, empty_directory,
}
use tmp_os.Fat16.Counting.{EndsAfter, live_items, live_items_bound, total_items-live}

pub length-slice : (byte : ℕ → ℕ) (a n : ℕ) → length (slice byte a n) ≡ n
unfolding slice
length-slice byte a zero = refl
length-slice byte a (suc n) = ap suc (length-slice byte (a + 1) n)

drop-replicate : (n : ℕ) → drop {A = ℕ} n (replicate n 0) ≡ []
drop-replicate zero = refl
drop-replicate (suc n) = drop-replicate n

append_nil : (xs : List ℕ) → xs ++ [] ≡ xs
append_nil [] = refl
append_nil (x ∷ xs) = ap (λ l. x ∷ l) (append_nil xs)

pub overwrite_all :
    (byte : ℕ → ℕ) (a n : ℕ) → overwrite (slice byte a n) (replicate n 0) ≡ slice byte a n
overwrite_all byte a n = rw (length-slice byte a n, drop-replicate n) (append_nil (slice byte a n))

pub whole_sectors : (r n : ℕ) → transferred (r * 512) n ≡ n
whole_sectors r n = ground arith

-- The sector that the root directory starts at.
abbrev pub root_sector : FatHeader → ℕ
root_sector h = h.fat_copies * h.sectors_per_fat + h.reserved_sectors

-- The root directory as it lies on the disk, with `n` items before its end.
abbrev pub root_of : (ℕ → ℕ) → FatHeader → ℕ → FatDirectory
root_of byte h n = record {
  item = slice byte (root_sector h * 512) (h.rood_dir_entries * item_size);
  total = live_items byte (root_sector h * 512) n;
  sector_pos = root_sector h;
  ending_sector_pos = root_sector h + h.rood_dir_entries * item_size / 512;
}

root_directory-root_of :
    (byte : ℕ → ℕ) (c : Controller) (h : FatHeader) (n : ℕ) (dir : FatDirectory)
    → IsDisk byte c
    → 0 < h.rood_dir_entries
    → root_sector h * 512 + h.rood_dir_entries * item_size < 2 ^ 31
    → root_sector h * 512 + item_size * n + item_size < 2 ^ 31
    → EndsAfter byte (root_sector h * 512) n
    → fat16_get_root_directory c h dir ≡ some (pos 0, root_of byte h n)
unfolding fat16_get_root_directory
root_directory-root_of byte c h n dir d some_entry k l e =
    let r = root_sector h in
    let size = h.rood_dir_entries * item_size in
    let items : (size == 0) ≡ false = ground arith in
    let w : r * 512 % 2 ^ 32 ≡ r * 512 = omega arith in
    let t : live_items byte (r * 512) n % 2 ^ 32 ≡ live_items byte (r * 512) n =
      omega (arith, live_items_bound byte (r * 512) n) in
    rw
      (
        total_items-live byte c r n d l e,
        items,
        w,
        seek_and_read_lem byte c (r * 512) size d (omega arith),
        whole_sectors r size,
        t,
        overwrite_all byte (r * 512) size,
        fat16_get_root_directory,
      )
      refl

abbrev pub header_on : (ℕ → ℕ) → FatHeader
header_on byte = header_of (slice byte 0 header_size)

header_read :
    (byte : ℕ → ℕ) (c : Controller)
    → IsDisk byte c
    → disk_stream_read c (at 0) header_size
      ≡ some (record { res = pos 0; stream = at 62; out = slice byte 0 header_size })
header_read byte c d = disk_stream_read_lem byte c 0 header_size d (omega arith)

-- `fat16_resolve` returns -EFSNOTUS and leaves no private data on a disk whose byte 38 is not the
-- signature.
pub resolve-unsupported :
    (byte : ℕ → ℕ) (c : Controller)
    → IsDisk byte c
    → byte 38 ≢ fat16_sig
    → fat16_resolve c ≡ some (neg_efsnotus, none)
unfolding fat16_resolve header_of slice
resolve-unsupported byte c d ne =
    let s : (byte 38 == fat16_sig) ≡ false = ground arith in
    rw (header_read byte c d, s, fat16_resolve) refl

-- On a disk with the signature whose root directory has room for no items, and an end after some
-- items up to which the positions are `int`s, `fat16_resolve` returns -EIO and leaves no private
-- data.
pub resolve_no_items :
    (byte : ℕ → ℕ) (c : Controller) (n : ℕ)
    → IsDisk byte c
    → byte 38 ≡ fat16_sig
    → (header_on byte).rood_dir_entries ≡ 0
    → root_sector (header_on byte) * 512 + item_size * n + item_size < 2 ^ 31
    → EndsAfter byte (root_sector (header_on byte) * 512) n
    → fat16_resolve c ≡ some (neg_eio, none)
unfolding fat16_resolve header_of slice fat16_get_root_directory
resolve_no_items byte c n d sig z l e =
    let s : (byte 38 == fat16_sig) ≡ true = ground arith in
    let size : ((header_on byte).rood_dir_entries * item_size == 0) ≡ true = ground arith in
    let total = total_items-live byte c (root_sector (header_on byte)) n d l e in
    rw (header_read byte c d, s, total, size, fat16_resolve, fat16_get_root_directory) refl

-- On a disk with the signature and with room for items in its root directory, where the memory for
-- them is there, `fat16_resolve` returns 0 and leaves the header and the root
-- directory as they lie on the disk, with the number of items that are not deleted before the
-- first that starts with a zero, if the positions are `int`s.
pub resolve-root_of :
    (byte : ℕ → ℕ) (c : Controller) (n : ℕ)
    → IsDisk byte c
    → byte 38 ≡ fat16_sig
    → 0 < (header_on byte).rood_dir_entries
    → root_sector (header_on byte) * 512 + (header_on byte).rood_dir_entries * item_size < 2 ^ 31
    → root_sector (header_on byte) * 512 + item_size * n + item_size < 2 ^ 31
    → EndsAfter byte (root_sector (header_on byte) * 512) n
    → fat16_resolve c
      ≡ some (
        pos 0,
        some (record { header = header_on byte; root_dir = root_of byte (header_on byte) n }),
      )
unfolding fat16_resolve header_of slice
resolve-root_of byte c n d sig some_entry k l e =
    let s : (byte 38 == fat16_sig) ≡ true = ground arith in
    rw
      (
        header_read byte c d,
        s,
        root_directory-root_of byte c (header_on byte) n empty_directory d some_entry k l e,
        fat16_resolve,
      )
      refl
