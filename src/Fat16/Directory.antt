-- ===== src/Fat16/Directory.antt =====
-- src/fs/fat/fat16.c: the directories, and the search in them. Memory is taken to be there, and what
-- is freed is not followed.
use tmp_os.Base.{
  ℕ, zero, suc, ◌+◌, ◌-◌, ◌*◌, ◌/◌, ◌%◌, ◌^◌, ◌==◌, Bool, true, false, Option, none, some, List, [],
  ◌∷◌, ◌++◌, if◌then◌else◌, length, get_or, take, drop, replicate, ltb, leb, get16,
}
use tmp_os.Base.Int.{ℤ, pos, is_zero, as_uint32}
use tmp_os.Base.Errno.{neg_enomem, neg_eio, neg_efsnotus}
use tmp_os.Disk.{Controller, the_disk}
use tmp_os.Disk.Streamer.{sector_size, disk_stream_read}
use tmp_os.Parser.{file_max_path}
use tmp_os.Strings.{istrncmp}
use tmp_os.Fat16.{
  FatHeader, FatDirectory, FatPrivate, seek_and_read, fat16_get_full_relative_filename,
  fat16_cluster_to_sector,
}
use tmp_os.Fat16.Items.{
  item_size, is_subdirectory, first_cluster_of, overwrite, fat16_read_internal,
  fat16_get_total_items_for_directory,
}

abbrev pub fat16_sector_to_absolute : ℕ → ℕ
fat16_sector_to_absolute sector = sector * sector_size % 2 ^ 32

-- The result, and the directory where it is 0. `kzalloc` yields memory for one byte or more, and
-- NULL for none.
unfoldable pub fat16_get_root_directory :
    Controller → FatHeader → FatDirectory → Option (ℤ × FatDirectory)
fat16_get_root_directory c header dir =
    let root_dir_sector_pos =
      header.fat_copies * header.sectors_per_fat + header.reserved_sectors in
    let root_dir_size = header.rood_dir_entries * item_size in
    elim (fat16_get_total_items_for_directory c root_dir_sector_pos) [
      | none ↦ none
      | some total_items ↦
          if root_dir_size == 0
          then some (neg_enomem, dir)
          else elim (seek_and_read c (fat16_sector_to_absolute root_dir_sector_pos) root_dir_size) [
            | none ↦ none
            | some r ↦ some (
                if is_zero r.res
                then (
                  pos 0,
                  record {
                    item = overwrite r.out (replicate root_dir_size 0);
                    total = as_uint32 total_items;
                    sector_pos = root_dir_sector_pos;
                    ending_sector_pos = root_dir_sector_pos + root_dir_size / sector_size;
                  },
                )
                else (neg_eio, dir))
          ]
    ]

-- `sizeof(struct fat_h)`
abbrev pub header_size : ℕ
header_size = 62

abbrev pub fat16_sig : ℕ
fat16_sig = 0x29

unfoldable pub header_of : List ℕ → FatHeader
header_of bytes = record {
  sectors_per_cluser = get_or bytes 13 0;
  reserved_sectors = get16 bytes 14;
  fat_copies = get_or bytes 16 0;
  rood_dir_entries = get16 bytes 17;
  sectors_per_fat = get16 bytes 22;
  sig = get_or bytes 38 0;
}

abbrev pub empty_directory : FatDirectory
empty_directory = record { item = []; total = 0; sector_pos = 0; ending_sector_pos = 0 }

-- The result and `disk->fs_private`, for the one disk.
unfoldable pub fat16_resolve : Controller → Option (ℤ × Option FatPrivate)
fat16_resolve c = elim (disk_stream_read c (record { position = 0; disk = the_disk }) header_size) [
  | none ↦ none
  | some r ↦ elim (is_zero r.res) [
    | false ↦ some (neg_eio, none)
    | true ↦
        let header = header_of r.out in
        elim (header.sig == fat16_sig) [
          | false ↦ some (neg_efsnotus, none)
          | true ↦ elim (fat16_get_root_directory c header empty_directory) [
            | none ↦ none
            | some (res, root_dir) ↦ some (
                if is_zero res
                then (pos 0, some (record { header = header; root_dir = root_dir }))
                else (neg_eio, none))
          ]
        ]
  ]
]

-- `struct fat_item`: the member of the union that `type` names.
pub data FatItem : Type 0 where
  directory_item : FatDirectory → FatItem
  file_item : List ℕ → FatItem

-- `alloc` says whether `kzalloc` yields memory.
unfoldable pub fat16_clone_directory_item : Bool → List ℕ → ℕ → Option (List ℕ)
fat16_clone_directory_item alloc item size =
    if ltb size item_size then none else if alloc then some (take size item) else none

-- What the loaded directory is, and whether it was freed. The outer `none`: it does not return.
unfoldable pub fat16_load_fat_directory :
    Controller → FatPrivate → List ℕ → Option (Option (FatDirectory × Bool))
fat16_load_fat_directory c private item = elim (is_subdirectory item) [
  | false ↦ some none
  | true ↦
      let cluster = first_cluster_of item in
      elim (fat16_get_total_items_for_directory c (fat16_cluster_to_sector private cluster)) [
        | none ↦ none
        | some total_items ↦
            let total = as_uint32 total_items in
            let directory_size = total * item_size in
            elim (fat16_read_internal c private cluster 0 directory_size
              (replicate directory_size 0)) [
                | none ↦ none
                | some (res, mem) ↦ some (
                    some (
                      record { item = mem; total = total; sector_pos = 0; ending_sector_pos = 0 },
                      if is_zero res then false else true,
                    ))
              ]
      ]
]

-- The directory is loaded and then lost: the item is a file in every case. Where there is memory for
-- the item there is memory for its copy.
unfoldable pub fat16_new_fat_item_for_directory_item :
    Bool → Controller → FatPrivate → List ℕ → Option (Option FatItem)
unfolding fat16_clone_directory_item
fat16_new_fat_item_for_directory_item false c private item = some none
fat16_new_fat_item_for_directory_item true c private item =
    let f_item : Option FatItem = elim (fat16_clone_directory_item true item item_size) [
      | none ↦ none
      | some copy ↦ some (file_item copy)
    ] in
    elim (is_subdirectory item) [
      | false ↦ some f_item
      | true ↦ elim (fat16_load_fat_directory c private item) [
        | none ↦ none
        | some directory ↦ some f_item
      ]
    ]

-- A zeroed buffer of `file_max_path` bytes after a text is written to it. `none`: beyond its end.
unfoldable pub path_buffer : List ℕ → Option (List ℕ)
path_buffer text =
    if leb (length text) file_max_path
    then some (text ++ replicate (file_max_path - length text) 0)
    else none

-- The comparison of a directory item's name, in `tmp_filename`, with a part of a path.
unfoldable pub has_name : List ℕ → List ℕ → Option Bool
has_name item name = elim (fat16_get_full_relative_filename item) [
  | none ↦ none
  | some text ↦ elim (path_buffer text) [
    | none ↦ none
    | some tmp_filename ↦ elim (path_buffer name) [
      | none ↦ none
      | some part ↦ elim (istrncmp tmp_filename part file_max_path) [
        | none ↦ none
        | some z ↦ some (is_zero z)
      ]
    ]
  ]
]

-- The loop of `fat16_find_item_in_directory` by the items left and the memory from the next on.
unfoldable pub find_loop :
    Bool → Controller → FatPrivate → List ℕ → ℕ → List ℕ → Option FatItem → Option (Option FatItem)
find_loop alloc c private name zero mem f_item = some f_item
find_loop alloc c private name (suc n) mem f_item = elim (has_name mem name) [
  | none ↦ none
  | some false ↦ find_loop alloc c private name n (drop item_size mem) f_item
  | some true ↦ elim (fat16_new_fat_item_for_directory_item alloc c private mem) [
    | none ↦ none
    | some made ↦ find_loop alloc c private name n (drop item_size mem) made
  ]
]

unfoldable pub fat16_find_item_in_directory :
    Bool → Controller → FatPrivate → FatDirectory → List ℕ → Option (Option FatItem)
fat16_find_item_in_directory alloc c private dir name =
    find_loop alloc c private name dir.total dir.item none

-- The loop of `fat16_get_directory_entry` over the parts left. `none` also where the code reads
-- through `cur_item` after a part that was not found.
unfoldable pub walk :
    Bool → Controller → FatPrivate → Option FatItem → List (List ℕ) → Option (Option FatItem)
walk alloc c private cur_item [] = some cur_item
walk alloc c private none (part ∷ parts) = none
walk alloc c private (some (file_item item)) (part ∷ parts) = some none
walk alloc c private (some (directory_item dir)) (part ∷ parts) =
    elim (fat16_find_item_in_directory alloc c private dir part) [
      | none ↦ none
      | some tmp ↦ walk alloc c private tmp parts
    ]

unfoldable pub fat16_get_directory_entry :
    Bool → Controller → FatPrivate → List (List ℕ) → Option (Option FatItem)
fat16_get_directory_entry alloc c private [] = none
fat16_get_directory_entry alloc c private (part ∷ parts) =
    elim (fat16_find_item_in_directory alloc c private private.root_dir part) [
      | none ↦ none
      | some none ↦ some none
      | some (some root_item) ↦ walk alloc c private (some root_item) parts
    ]
