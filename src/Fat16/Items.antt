-- ===== src/Fat16/Items.antt =====
-- src/fs/fat/fat16.c: the bytes of a file, and the number of items in a directory. The numbers of
-- bytes and the positions are `int`s of the code: the model is of those that are not negative,
-- without an overflow.
use tmp_os.Base.{
  ℕ, zero, suc, ◌+◌, ◌-◌, ◌*◌, ◌/◌, ◌%◌, ◌^◌, ◌==◌, Bool, true, false, Option, none, some, List,
  ◌++◌, if◌then◌else◌, length, get_or, take, drop, ltb, get16, get32,
}
use tmp_os.Base.Int.{ℤ, pos, negsuc, is_zero}
use tmp_os.Base.Errno.{neg_eio}
use tmp_os.Disk.{Controller, the_disk}
use tmp_os.Disk.Streamer.{sector_size, DiskStream, disk_stream_read}
use tmp_os.Fat16.{
  FatPrivate, seek_and_read, fat16_get_first_cluster, fat16_cluster_to_sector,
  fat16_get_cluster_for_offset,
}

-- `sizeof(struct fat_directory_item)`
abbrev pub item_size : ℕ
item_size = 32

-- The fields of a `struct fat_directory_item` at the start of these bytes.
abbrev pub attr : List ℕ → ℕ
attr item = get_or item 11 0

abbrev pub high_16_bits_first_cluster : List ℕ → ℕ
high_16_bits_first_cluster item = get16 item 20

abbrev pub low_16_bits_first_cluster : List ℕ → ℕ
low_16_bits_first_cluster item = get16 item 26

abbrev pub filesize : List ℕ → ℕ
filesize item = get32 item 28

-- `attr & FAT_FILE_SUBDIRECTORY` and `attr & FAT_FILE_READ_ONLY`
abbrev pub is_subdirectory : List ℕ → Bool
is_subdirectory item = attr item / 16 % 2 == 1

abbrev pub is_read_only : List ℕ → Bool
is_read_only item = attr item % 2 == 1

abbrev pub first_cluster_of : List ℕ → ℕ
first_cluster_of item =
    fat16_get_first_cluster (high_16_bits_first_cluster item) (low_16_bits_first_cluster item)

-- Memory from a pointer on, after a write to its start.
abbrev pub overwrite : List ℕ → List ℕ → List ℕ
overwrite new old = new ++ drop (length new) old

-- The recursion of `fat16_read_internal_from_stream`, a cluster in each round: the result, and the
-- memory from `out` on. `none`: the rounds give out, or the table of clusters is never left.
unfoldable pub read_clusters :
    Controller → FatPrivate → ℕ → ℕ → ℕ → ℕ → List ℕ → Option (ℤ × List ℕ)
read_clusters c private zero cluster offset total mem = none
read_clusters c private (suc f) cluster offset total mem =
    let size_of_cluster = private.header.sectors_per_cluser * sector_size in
    let n = if ltb size_of_cluster total then size_of_cluster else total in
    elim (fat16_get_cluster_for_offset c private cluster offset) [
      | none ↦ none
      | some (negsuc e) ↦ some (negsuc e, mem)
      | some (pos cluster_to_use) ↦
          let sector = fat16_cluster_to_sector private cluster_to_use in
          let starting_pos = sector * sector_size + offset % size_of_cluster in
          elim (seek_and_read c (starting_pos % 2 ^ 32) n) [
            | none ↦ none
            | some r ↦
                let mem' = overwrite r.out mem in
                elim (is_zero r.res) [
                  | false ↦ some (r.res, mem')
                  | true ↦ elim (ltb 0 (total - n)) [
                    | false ↦ some (pos 0, mem')
                    | true ↦
                        elim (read_clusters c private f cluster (offset + n) (total - n)
                          (drop n mem')) [
                            | none ↦ none
                            | some (res, rest) ↦ some (res, take n mem' ++ rest)
                          ]
                  ]
                ]
          ]
    ]

-- `none` also where the clusters have no sectors, and the code divides by 0.
unfoldable pub fat16_read_internal :
    Controller → FatPrivate → ℕ → ℕ → ℕ → List ℕ → Option (ℤ × List ℕ)
fat16_read_internal c private starting_cluster offset total mem =
    let size_of_cluster = private.header.sectors_per_cluser * sector_size in
    elim (size_of_cluster == 0) [
      | true ↦ none
      | false ↦
          read_clusters c private (total / size_of_cluster + 1) starting_cluster offset total mem
    ]

-- The loop of `fat16_get_total_items_for_directory`. `none`: the rounds give out.
unfoldable pub count_items : Controller → ℕ → DiskStream → ℕ → Option ℤ
count_items c zero s i = none
count_items c (suc f) s i = elim (disk_stream_read c s item_size) [
  | none ↦ none
  | some r ↦ elim (is_zero r.res) [
    | false ↦ some neg_eio
    | true ↦ elim (get_or r.out 0 0 == 0) [
      | true ↦ some (pos i)
      | false ↦ count_items c f r.stream (if get_or r.out 0 0 == 0xE5 then i else i + 1)
    ]
  ]
]

-- After so many items the position is no `int` any more.
abbrev pub max_rounds : ℕ
max_rounds = 2 ^ 26

unfoldable pub fat16_get_total_items_for_directory : Controller → ℕ → Option ℤ
fat16_get_total_items_for_directory c directory_start_sector =
    count_items c max_rounds
      (record { position = directory_start_sector * sector_size % 2 ^ 32; disk = the_disk }) 0
