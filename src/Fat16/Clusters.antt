-- ===== src/Fat16/Clusters.antt =====
-- src/fs/fat/fat16.c: what is read as the entry of a cluster.
use tmp_os.Base.{ℕ, ◌+◌, ◌*◌, ◌%◌, ◌^◌, ◌<◌, ◌≡◌, refl, some, arith}
use tmp_os.Base.Int.{pos}
use tmp_os.Disk.{Controller}
use tmp_os.Disk.Sector.{IsDisk, slice}
use tmp_os.Disk.Stream.{transferred, at, disk_stream_read_lem}
use tmp_os.Disk.Streamer.{sector_size}
use tmp_os.Fat16.{
  FatPrivate, fat16_get_fat_entry, fat_entry_pos, fat16_get_first_fat_sector, seek_and_read,
}

pub seek_and_read_lem :
    (byte : ℕ → ℕ) (c : Controller) (p total : ℕ)
    → IsDisk byte c
    → p + total < 2 ^ 31
    → seek_and_read c p total
      ≡ some (record {
        res = pos 0;
        stream = at (p + transferred p total);
        out = slice byte p (transferred p total);
      })
unfolding seek_and_read
seek_and_read_lem byte c p total d h = disk_stream_read_lem byte c p total d h

even_transferred : (p : ℕ) → p % 2 ≡ 0 → transferred p 2 ≡ 2
even_transferred p h = ground arith

even_product : (a b : ℕ) → a * (b * 2) % 2 ≡ 0
even_product a b = let e : a * (b * 2) ≡ 2 * (a * b) = grind arith in omega (arith, e)

entry_slice :
    (byte : ℕ → ℕ) (c : Controller) (private : FatPrivate) (cluster p : ℕ)
    → IsDisk byte c
    → fat_entry_pos private cluster ≡ p
    → p % 2 ≡ 0
    → p + 2 < 2 ^ 31
    → fat16_get_fat_entry c private cluster ≡ some (pos (byte p + 256 * byte (p + 1)))
unfolding fat16_get_fat_entry slice
entry_slice byte c private cluster p d e q h =
    rw (e, seek_and_read_lem byte c p 2 d (omega arith), even_transferred p q, fat16_get_fat_entry)
      refl

-- The entry of a cluster is the 16-bit word at the start of the table, taken as a byte address,
-- times twice the number of the cluster: the two are multiplied where they should be added.
pub fat_entry_lem :
    (byte : ℕ → ℕ) (c : Controller) (private : FatPrivate) (cluster : ℕ)
    → IsDisk byte c
    → private.header.reserved_sectors * sector_size * (cluster * 2) + 2 < 2 ^ 31
    → let p = private.header.reserved_sectors * sector_size * (cluster * 2) in
      fat16_get_fat_entry c private cluster ≡ some (pos (byte p + 256 * byte (p + 1)))
unfolding fat_entry_pos fat16_get_first_fat_sector
fat_entry_lem byte c private cluster d h =
    entry_slice byte c private cluster
      (private.header.reserved_sectors * sector_size * (cluster * 2)) d (omega arith)
      (even_product (private.header.reserved_sectors * sector_size) cluster) h
