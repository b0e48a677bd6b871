-- ===== src/Ext2.antt =====
-- src/fs/ext/ext2.c: the recognition of an ext2 file system, by its superblock. The reads of files
-- are not written yet there, and nothing is registered with the file layer.
pub mod Superblock
use tmp_os.Base.{
  ℕ, ◌+◌, ◌-◌, ◌/◌, ◌%◌, ◌^◌, ◌==◌, Bool, true, false, Option, none, some, List, if◌then◌else◌,
  length, get_or, take, drop, get16, get32,
}
use tmp_os.Base.Int.{ℤ, pos, is_zero}
use tmp_os.Base.Errno.{neg_eio, neg_enomem, neg_efsnotus}
use tmp_os.Disk.{Controller, DiskRef}
use tmp_os.Disk.Streamer.{DiskStream, disk_streamer_new, disk_stream_seek, disk_stream_read}

-- `struct ext2_superblock`.
pub record Ext2Superblock : Type 0 where
  pub inodes : ℕ
  pub block_num : ℕ
  pub super_block_reserved : ℕ
  pub unalloc_blocks : ℕ
  pub unalloc_inodes : ℕ
  pub super_block_num : ℕ
  pub block_size : ℕ
  pub frag_size : ℕ
  pub blocks_in_group : ℕ
  pub frags_in_group : ℕ
  pub inodes_in_group : ℕ
  pub last_mount_time : ℕ
  pub last_written_time : ℕ
  pub mounted_times_after_check : ℕ
  pub mounted_times_before_check : ℕ
  pub sig : ℕ
  pub fs_state : ℕ
  pub error : ℕ
  pub minor_ver : ℕ
  pub last_check : ℕ
  pub check_interval : ℕ
  pub os_id : ℕ
  pub major_ver : ℕ
  pub user_id : ℕ
  pub group_id : ℕ
  pub first_free_inode : ℕ
  pub size_of_inode : ℕ
  pub super_block_group : ℕ
  pub optional_features : ℕ
  pub required_features : ℕ
  pub fs_id : List ℕ
  pub volume_name : List ℕ
  pub mounted_path : List ℕ
  pub compress_alg : ℕ
  pub block_num_to_prealloc_for_files : ℕ
  pub block_num_to_prealloc_for_dirs : ℕ
  pub unused : ℕ
  pub journal_id : List ℕ
  pub journal_inode : ℕ
  pub journal_device : ℕ
  pub head_of_orphan_inode_list : ℕ

-- `sizeof(struct ext2_superblock)`: the structure is packed.
abbrev pub superblock_size : ℕ
superblock_size = 232

-- The structure over the bytes that were read into it.
unfoldable pub superblock_of : List ℕ → Ext2Superblock
superblock_of bytes = record {
  inodes = get32 bytes 0;
  block_num = get32 bytes 4;
  super_block_reserved = get32 bytes 8;
  unalloc_blocks = get32 bytes 12;
  unalloc_inodes = get32 bytes 16;
  super_block_num = get32 bytes 20;
  block_size = get32 bytes 24;
  frag_size = get32 bytes 28;
  blocks_in_group = get32 bytes 32;
  frags_in_group = get32 bytes 36;
  inodes_in_group = get32 bytes 40;
  last_mount_time = get32 bytes 44;
  last_written_time = get32 bytes 48;
  mounted_times_after_check = get16 bytes 52;
  mounted_times_before_check = get16 bytes 54;
  sig = get16 bytes 56;
  fs_state = get16 bytes 58;
  error = get16 bytes 60;
  minor_ver = get16 bytes 62;
  last_check = get32 bytes 64;
  check_interval = get32 bytes 68;
  os_id = get32 bytes 72;
  major_ver = get32 bytes 76;
  user_id = get16 bytes 80;
  group_id = get16 bytes 82;
  first_free_inode = get32 bytes 84;
  size_of_inode = get16 bytes 88;
  super_block_group = get16 bytes 90;
  optional_features = get32 bytes 92;
  required_features = get32 bytes 96;
  fs_id = take 16 (drop 100 bytes);
  volume_name = take 16 (drop 116 bytes);
  mounted_path = take 64 (drop 132 bytes);
  compress_alg = get32 bytes 196;
  block_num_to_prealloc_for_files = get_or bytes 200 0;
  block_num_to_prealloc_for_dirs = get_or bytes 201 0;
  unused = get16 bytes 202;
  journal_id = take 16 (drop 204 bytes);
  journal_inode = get32 bytes 220;
  journal_device = get32 bytes 224;
  head_of_orphan_inode_list = get32 bytes 228;
}

-- `struct ext2_private`: the superblock and its stream. The root directory is never set.
pub record Ext2Private : Type 0 where
  pub sb : Ext2Superblock

-- What `ext2_resolve` changes of a `struct disk`: `fs_private`, and whether `fs` is ext2's.
pub record Ext2Disk : Type 0 where
  pub id : ℕ
  pub fs_private : Option Ext2Private
  pub fs : Bool

-- The inodes count from 1; `inode_num - 1` wraps round. The number of inodes in a group is not 0.
unfoldable pub ext2_get_inode_group : ℕ → Ext2Private → ℕ
ext2_get_inode_group inode_num private =
    (inode_num + (2 ^ 32 - 1)) % 2 ^ 32 / private.sb.inodes_in_group

unfoldable pub ext2_get_inode_pos_in_group : ℕ → Ext2Private → ℕ
ext2_get_inode_pos_in_group inode_num private =
    (inode_num + (2 ^ 32 - 1)) % 2 ^ 32 % private.sb.inodes_in_group

unfoldable pub ext2_init_private : Ext2Disk → Ext2Private → Ext2Disk
ext2_init_private disk private = record disk { fs_private = some private; fs = true }

abbrev pub ext2_signature : ℕ
ext2_signature = 0xef53

-- The part behind `out`.
unfoldable pub ext2_out : ℤ → Ext2Disk → ℤ × Ext2Disk
ext2_out res disk =
    if is_zero res then (res, disk) else (res, record disk { fs_private = none; fs = false })

-- The part with the stream, where the private data is in place.
unfoldable pub ext2_read_superblock : Controller → DiskStream → Ext2Disk → Option (ℤ × Ext2Disk)
unfolding ext2_out
ext2_read_superblock c stream disk = elim (disk_stream_read c stream superblock_size) [
  | none ↦ none
  | some r ↦
      let sb = superblock_of r.out in
      let disk' = record disk { fs_private = some (record { sb = sb }) } in
      if is_zero r.res
      then (if sb.sig == ext2_signature
          then some (ext2_out (pos 0) disk')
          else some (ext2_out neg_efsnotus disk'))
      else some (ext2_out neg_eio disk')
]

-- `memory` is the zeroed private data that `kzalloc` gives. `none`: without it the code closes a
-- stream that was never made, and without a stream it seeks in NULL.
unfoldable pub ext2_resolve : Controller → Option Ext2Private → Ext2Disk → Option (ℤ × Ext2Disk)
unfolding disk_stream_seek ext2_init_private
ext2_resolve c none disk = none
ext2_resolve c (some private) disk = elim (disk_streamer_new disk.id) [
  | none ↦ none
  | some stream ↦
      ext2_read_superblock c (disk_stream_seek stream 1024).1 (ext2_init_private disk private)
]

-- `ext2_read` reads nothing.
abbrev pub ext2_read : ℕ → ℕ → List ℕ → ℤ × List ℕ
ext2_read size nmemb out = (pos 0, out)
