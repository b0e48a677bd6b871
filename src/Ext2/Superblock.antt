-- ===== src/Ext2/Superblock.antt =====
-- src/fs/ext/ext2.c: which disks are taken for ext2, and the place of an inode.
use tmp_os.Base.{
  ℕ, ◌+◌, ◌-◌, ◌*◌, ◌%◌, ◌^◌, ◌<◌, ◌≡◌, refl, ◌==◌, Bool-cases, inl, inr, true, false, none, some,
  arith, if◌then◌else◌,
}
use tmp_os.Base.Int.{pos}
use tmp_os.Base.Errno.{neg_efsnotus}
use tmp_os.Disk.{Controller}
use tmp_os.Disk.Sector.{IsDisk, slice}
use tmp_os.Disk.Streamer.{disk_stream_read, disk_streamer_new, disk_stream_seek}
use tmp_os.Disk.Stream.{at, disk_stream_read_lem}
use tmp_os.Ext2.{
  Ext2Superblock, Ext2Private, Ext2Disk, superblock_size, superblock_of, ext2_signature,
  ext2_resolve, ext2_read_superblock, ext2_init_private, ext2_get_inode_group,
  ext2_get_inode_pos_in_group,
}

-- The superblock as it lies on the disk.
abbrev pub superblock_on : (ℕ → ℕ) → Ext2Superblock
superblock_on byte = superblock_of (slice byte 1024 superblock_size)

superblock_read :
    (byte : ℕ → ℕ) (c : Controller)
    → IsDisk byte c
    → disk_stream_read c (at 1024) superblock_size
      ≡ some (record { res = pos 0; stream = at 1256; out = slice byte 1024 superblock_size })
superblock_read byte c d = disk_stream_read_lem byte c 1024 superblock_size d (omega arith)

stream : (id : ℕ) → id ≡ 0 → disk_streamer_new id ≡ some (at 0)
unfolding disk_streamer_new
stream id e = rw e refl

sig_read : (byte : ℕ → ℕ) → (superblock_on byte).sig ≡ byte 1080 + 256 * byte 1081
unfolding superblock_of slice
sig_read byte = refl

module _ (byte : ℕ → ℕ) (c : Controller) (disk : Ext2Disk) (d : IsDisk byte c) where
  read_superblock_cases :
      ext2_read_superblock c (at 1024) disk
      ≡ some (
          if byte 1080 + 256 * byte 1081 == ext2_signature
          then (
            pos 0,
            record {
              id = disk.id;
              fs_private = some (record { sb = superblock_on byte });
              fs = disk.fs;
            },
          )
          else (neg_efsnotus, record { id = disk.id; fs_private = none; fs = false }))
  unfolding ext2_read_superblock
  read_superblock_cases =
      rw (superblock_read byte c d, ext2_read_superblock)
        (elim (Bool-cases ((superblock_on byte).sig == ext2_signature)) [
          | inl e ↦ rw (e, rw (sig_read byte) at e) refl
          | inr e ↦ rw (e, rw (sig_read byte) at e) refl
        ])

-- A disk is taken for ext2 exactly by the two bytes of the signature: then `ext2_resolve` returns 0
-- and the disk gets the file system with the superblock that lies behind the first 1024 bytes; on
-- any other disk it returns -EFSNOTUS and leaves the disk without a file system.
pub ext2_resolve_cases :
    (byte : ℕ → ℕ) (c : Controller) (private : Ext2Private) (disk : Ext2Disk)
    → IsDisk byte c
    → disk.id ≡ 0
    → ext2_resolve c (some private) disk
      ≡ some (
          if byte 1080 + 256 * byte 1081 == ext2_signature
          then (
            pos 0,
            record {
              id = disk.id;
              fs_private = some (record { sb = superblock_on byte });
              fs = true;
            },
          )
          else (neg_efsnotus, record { id = disk.id; fs_private = none; fs = false }))
unfolding ext2_resolve ext2_init_private disk_stream_seek
ext2_resolve_cases byte c private disk d e =
    rw (stream disk.id e, ext2_resolve)
      (read_superblock_cases byte c (record disk { fs_private = some private; fs = true }) d)

-- An inode is found again from its group and its place in the group.
pub inode_place :
    (inode_num : ℕ) (private : Ext2Private)
    → 0 < private.sb.inodes_in_group
    → 0 < inode_num
    → inode_num < 2 ^ 32
    → (ext2_get_inode_group inode_num private * private.sb.inodes_in_group
          + ext2_get_inode_pos_in_group inode_num private
          + 1
        ≡ inode_num)
      × (ext2_get_inode_pos_in_group inode_num private < private.sb.inodes_in_group)
unfolding ext2_get_inode_group ext2_get_inode_pos_in_group
inode_place inode_num private a b c =
    let e : (inode_num + (2 ^ 32 - 1)) % 2 ^ 32 ≡ inode_num - 1 = omega arith in
    rw e (grind arith, grind arith)
