-- ===== src/Fat16/Operations.antt =====
-- src/fs/fat/fat16.c: the operations that the file layer takes from `fat16_fs`.
use tmp_os.Base.{
  ℕ, zero, suc, ◌+◌, ◌-◌, ◌%◌, ◌^◌, ◌==◌, Bool, true, false, Option, none, some, List, ◌++◌,
  if◌then◌else◌, take, drop, ltb,
}
use tmp_os.Base.Int.{ℤ, pos, is_neg, signed32, add32}
use tmp_os.Base.Errno.{neg_eio, neg_einvarg, neg_eunimp}
use tmp_os.Disk.{Controller}
use tmp_os.File.{FileSystem, FileStat, OpenResult, opened, failed, file_read}
use tmp_os.Fat16.{FatPrivate}
use tmp_os.Fat16.Items.{fat16_read_internal, first_cluster_of, filesize, is_read_only}
use tmp_os.Fat16.Directory.{
  FatItem, directory_item, file_item, fat16_get_directory_entry, fat16_resolve,
}

-- `struct fat_file_descriptor`
pub record FatFileDescriptor : Type 0 where
  pub item : FatItem
  pub position : ℕ

-- The pointers that `fat16_open` returns and the file layer keeps: to a descriptor, or a plain
-- number, behind which there is none.
pub data Handle : Type 0 where
  descriptor : FatFileDescriptor → Handle
  plain_number : ℕ → Handle

abbrev pub erdonly : ℕ
erdonly = 6

-- `ERROR(ERDONLY)` is the address 6. `failed 2` is -ENOMEM, and `failed 0` -EIO.
unfoldable pub fat16_open :
    Bool → Controller → FatPrivate → List (List ℕ) → ℕ → Option (OpenResult Handle)
fat16_open alloc c private path mode = elim (mode == file_read) [
  | false ↦ some (opened (plain_number erdonly))
  | true ↦ elim alloc [
    | false ↦ some (failed 2)
    | true ↦ elim (fat16_get_directory_entry true c private path) [
      | none ↦ none
      | some none ↦ some (failed 0)
      | some (some item) ↦ some (opened (descriptor (record { item = item; position = 0 })))
    ]
  ]
]

-- The loop of `fat16_read`: a negative result ends it, and at its end the result is 0 here.
unfoldable pub read_items : Controller → FatPrivate → ℕ → ℕ → ℕ → ℕ → List ℕ → Option (ℤ × List ℕ)
read_items c private cluster offset size zero mem = some (pos 0, mem)
read_items c private cluster offset size (suc n) mem =
    elim (fat16_read_internal c private cluster offset size mem) [
      | none ↦ none
      | some (res, mem') ↦ elim (is_neg res) [
        | true ↦ some (res, mem')
        | false ↦ elim (read_items c private cluster (offset + size) size n (drop size mem')) [
          | none ↦ none
          | some (res', rest) ↦ some (res', take size mem' ++ rest)
        ]
      ]
    ]

-- The descriptor stays as it is. `none` for what is not a descriptor of a file, too.
unfoldable pub fat16_read :
    Controller → FatPrivate → Handle → ℕ → ℕ → List ℕ → Option (ℤ × Handle × List ℕ)
fat16_read c private (plain_number a) size nmemb mem = none
fat16_read c private (descriptor d) size nmemb mem = elim d.item [
  | directory_item dir ↦ none
  | file_item item ↦ elim (read_items c private (first_cluster_of item) d.position size nmemb mem) [
    | none ↦ none
    | some (res, mem') ↦ some (if is_neg res then res else signed32 nmemb, descriptor d, mem')
  ]
]

-- SEEK_SET, SEEK_CUR and SEEK_END.
abbrev pub seek_set : ℕ
seek_set = 0

abbrev pub seek_cur : ℕ
seek_cur = 1

abbrev pub seek_end : ℕ
seek_end = 2

-- `offset >- ritem->filesize` is a comparison with the negated size, as an unsigned word.
unfoldable pub fat16_seek : Handle → ℕ → ℕ → Option (ℤ × Handle)
fat16_seek (plain_number a) offset seek_mode = none
fat16_seek (descriptor d) offset seek_mode = elim d.item [
  | directory_item dir ↦ some (neg_einvarg, descriptor d)
  | file_item item ↦ some (
      if ltb ((2 ^ 32 - filesize item) % 2 ^ 32) offset
      then (neg_eio, descriptor d)
      else if seek_mode == seek_set
      then (pos 0, descriptor (record d { position = offset }))
      else if seek_mode == seek_end
      then (neg_eunimp, descriptor d)
      else if seek_mode == seek_cur
      then (pos 0, descriptor (record d { position = add32 d.position offset }))
      else (neg_einvarg, descriptor d))
]

-- FILE_STAT_READ_ONLY, whose value does not fit the 32 bits of the flags.
abbrev pub file_stat_read_only : ℕ
file_stat_read_only = 0xb00000001

unfoldable pub fat16_stat : Handle → Option (ℤ × Option FileStat)
fat16_stat (plain_number a) = none
fat16_stat (descriptor d) = elim d.item [
  | directory_item dir ↦ some (neg_einvarg, none)
  | file_item item ↦ some (
    pos 0,
    some (record {
      flags = if is_read_only item then file_stat_read_only % 2 ^ 32 else 0;
      file_size = filesize item;
    }),
  )
]

unfoldable pub fat16_close : Handle → Option ℤ
fat16_close (plain_number a) = none
fat16_close (descriptor d) = some (pos 0)

-- `fat16_fs` on the one disk, with the `fs_private` that `fat16_resolve` left there.
unfoldable pub fat16_fs : Bool → Controller → FatPrivate → FileSystem Handle
fat16_fs alloc c private = record {
  resolve = λ d. elim (fat16_resolve c) [ none ↦ none | some (res, _) ↦ some res ];
  open_path = λ d path mode. fat16_open alloc c private path mode;
  read = λ d p size nmemb mem. fat16_read c private p size nmemb mem;
  seek = fat16_seek;
  stat = λ d p. fat16_stat p;
  close = fat16_close;
}
