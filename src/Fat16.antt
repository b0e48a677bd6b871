-- ===== src/Fat16.antt =====
-- src/fs/fat/fat16.c: the names in a directory, and the table of clusters on the disk.
pub mod Names
pub mod Clusters
pub mod Items
pub mod Directory
pub mod Operations
pub mod Counting
pub mod Resolving
pub mod Lookup
pub mod Matching
pub mod Reading
pub mod Opening
pub mod Fopen
pub mod Seeking
use Prim.Native.Nat.{bit_or}
use tmp_os.Base.{
  ℕ, zero, suc, ◌+◌, ◌-◌, ◌*◌, ◌/◌, ◌%◌, ◌^◌, ◌==◌, ◌||◌, not, Bool, true, false, Option, none,
  some, List, [], ◌∷◌, ◌++◌, if◌then◌else◌, get_or, drop,
}
use tmp_os.Base.Int.{ℤ, pos, negsuc, is_neg}
use tmp_os.Base.Errno.{neg_eio}
use tmp_os.Disk.{Controller, the_disk}
use tmp_os.Disk.Streamer.{sector_size, DiskStream, Read, disk_stream_seek, disk_stream_read}

abbrev pub fat16_fat_entry_size : ℕ
fat16_fat_entry_size = 2

abbrev pub fat16_bad_sector : ℕ
fat16_bad_sector = 0xFF7

-- What is written to the zeroed output, for the bytes of the directory item from the field on: the
-- loop knows no end but a zero or a space. `none`: it reads beyond the item.
unfoldable pub fat16_to_proper_string : List ℕ → Option (List ℕ)
fat16_to_proper_string [] = none
fat16_to_proper_string (c ∷ s) =
    let more : Option (List ℕ) = elim (fat16_to_proper_string s) [
      | none ↦ none
      | some r ↦ some (c ∷ r)
    ] in
    if c == 0 || c == 0x20 then some [] else more

-- Of the bytes of a `struct fat_directory_item`: eight of the name, three of the extension, and
-- then the attributes.
unfoldable pub fat16_get_full_relative_filename : List ℕ → Option (List ℕ)
fat16_get_full_relative_filename item = elim (fat16_to_proper_string item) [
  | none ↦ none
  | some name ↦
      let ext = get_or item 8 0 in
      if ext == 0 || ext == 0x20 then some name else elim (fat16_to_proper_string (drop 8 item)) [
        | none ↦ none
        | some e ↦ some (name ++ (b'.' ∷ e))
      ]
]

-- The fields of `struct fat_header` and its extension that are used here.
pub record FatHeader : Type 0 where
  pub sectors_per_cluser : ℕ
  pub reserved_sectors : ℕ
  pub fat_copies : ℕ
  pub rood_dir_entries : ℕ
  pub sectors_per_fat : ℕ
  pub sig : ℕ

-- `struct fat_directory`: `item` is the memory from the pointer to the end of its block.
pub record FatDirectory : Type 0 where
  pub item : List ℕ
  pub total : ℕ
  pub sector_pos : ℕ
  pub ending_sector_pos : ℕ

-- `struct fat_private`. The three streams are over the one disk, and every use of one seeks first,
-- so that the positions they are left at do not count.
pub record FatPrivate : Type 0 where
  pub header : FatHeader
  pub root_dir : FatDirectory

-- A seek of one of the streams, which returns 0, and the read behind it.
unfoldable pub seek_and_read : Controller → ℕ → ℕ → Option Read
unfolding disk_stream_seek
seek_and_read c position total =
    let s : DiskStream = record { position = 0; disk = the_disk } in
    disk_stream_read c (disk_stream_seek s position).1 total

unfoldable pub fat16_get_first_cluster : ℕ → ℕ → ℕ
fat16_get_first_cluster high_16_bits low_16_bits = bit_or high_16_bits low_16_bits

-- As the 32-bit word of the result; it wraps around for the clusters 0 and 1, which no file has.
unfoldable pub fat16_cluster_to_sector : FatPrivate → ℕ → ℕ
fat16_cluster_to_sector private cluster =
    let n = private.header.sectors_per_cluser in
    (private.root_dir.ending_sector_pos + cluster * n + (2 ^ 32 - 2 * n)) % 2 ^ 32

unfoldable pub fat16_get_first_fat_sector : FatPrivate → ℕ
fat16_get_first_fat_sector private = private.header.reserved_sectors

-- Where the entry of a cluster is looked for.
unfoldable pub fat_entry_pos : FatPrivate → ℕ → ℕ
unfolding fat16_get_first_fat_sector
fat_entry_pos private cluster =
    fat16_get_first_fat_sector private * sector_size * (cluster * fat16_fat_entry_size) % 2 ^ 32

-- A read that comes short leaves the rest of `result` at 0. `none`: the read runs out of rounds; it
-- has enough.
unfoldable pub fat16_get_fat_entry : Controller → FatPrivate → ℕ → Option ℤ
unfolding seek_and_read
fat16_get_fat_entry c private cluster = elim (seek_and_read c (fat_entry_pos private cluster) 2) [
  | none ↦ none
  | some r ↦ some (if is_neg r.res then r.res else pos (get_or r.out 0 0 + 256 * get_or r.out 1 0))
]

abbrev pub ends_chain : ℕ → Bool
ends_chain entry =
    entry == 0xFF8
    || entry == 0xFFF
    || entry == fat16_bad_sector
    || entry == 0xFF0
    || entry == 0xFF6
    || entry == 0

-- The loop of `fat16_get_cluster_for_offset` by the clusters left; an entry is a 16-bit number. A
-- failed read of an entry ends the loop here, where the code would go on with the error as a
-- cluster; on the one disk of the kernel no read fails.
unfoldable pub follow_chain : Controller → FatPrivate → ℕ → ℕ → Option ℤ
unfolding fat16_get_fat_entry
follow_chain c private zero cluster_to_use = some (pos cluster_to_use)
follow_chain c private (suc ahead) cluster_to_use =
    elim (fat16_get_fat_entry c private cluster_to_use) [
      | none ↦ none
      | some (negsuc e) ↦ some (negsuc e)
      | some (pos entry) ↦
          let rest = follow_chain c private ahead entry in
          if ends_chain entry then some neg_eio else rest
    ]

unfoldable pub fat16_get_cluster_for_offset : Controller → FatPrivate → ℕ → ℕ → Option ℤ
unfolding follow_chain
fat16_get_cluster_for_offset c private starting_cluster offset =
    let size_of_cluster = private.header.sectors_per_cluser * sector_size in
    follow_chain c private (offset / size_of_cluster) starting_cluster
