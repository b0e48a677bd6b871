-- ===== src/Tests/FatTests.antt =====
-- src/fs/fat/fat16.c on a small disk: one file in the root directory, of two clusters as the code
-- finds them.
use tmp_os.Base.{
  ◌==◌, ℕ, zero, suc, ◌+◌, ◌-◌, ◌*◌, ◌/◌, ◌%◌, ◌^◌, ◌<◌, ◌≡◌, ◌≢◌, refl, true, false, some, none,
  List, [], ◌∷◌, ◌++◌, arith, ltb, if◌then◌else◌, get_or, take, replicate, dec_lt, inr, ◌⊎◌,
}
use tmp_os.Base.Int.{pos}
use tmp_os.Base.Errno.{neg_efsnotus, neg_eio}
use tmp_os.Disk.{Controller}
use tmp_os.Disk.Sector.{IsDisk, address, slice}
use tmp_os.Parser.{PathRoot, parser_parse}
use tmp_os.File.{
  Files, file_read, max_file_descriptors, opened, fopen, fread, fclose, file_get_mode_by_string,
}
use tmp_os.Strings.{tolower}
use tmp_os.Fat16.{FatPrivate, fat16_get_fat_entry, fat16_get_cluster_for_offset, follow_chain}
use tmp_os.Fat16.Names.{item_of}
use tmp_os.Fat16.Clusters.{fat_entry_lem}
use tmp_os.Fat16.Items.{
  item_size, is_subdirectory, overwrite, fat16_get_total_items_for_directory, fat16_read_internal,
}
use tmp_os.Fat16.Directory.{
  file_item, fat16_resolve, has_name, fat16_get_directory_entry, fat16_find_item_in_directory,
  find_loop,
}
use tmp_os.Fat16.Operations.{Handle, plain_number, fat16_open, fat16_seek, fat16_fs, erdonly}
use tmp_os.Fat16.Counting.{EndsAfter, live_items, total_items-live}
use tmp_os.Fat16.Resolving.{
  header_on, root_of, resolve-unsupported, resolve-root_of, resolve_no_items,
}
use tmp_os.Fat16.Lookup.{
  LastMatch, NoMatch, nth_item, find_item-LastMatch, entry-NoMatch, deeper_path,
}
use tmp_os.Fat16.Matching.{has_name-dotted}
use tmp_os.Fat16.Reading.{
  IsChain, chain_bytes, cluster_size, cluster_start, read_internal-chain_bytes,
}
use tmp_os.Fat16.Opening.{file_at, open-plain_number}
use tmp_os.Fat16.Fopen.{with_file, fopen-fread}
use tmp_os.Fat16.Seeking.{seek_past_end}

abbrev header_bytes : List ℕ
header_bytes =
    replicate 13 0
    ++ (1 ∷ 1 ∷ 0 ∷ 1 ∷ 16 ∷ 0 ∷ 0 ∷ 0 ∷ 0 ∷ 1 ∷ 0 ∷ [])
    ++ replicate 14 0
    ++ (0x29 ∷ [])

-- Attributes, times, the cluster 2 and the size 600.
abbrev rest_bytes : List ℕ
rest_bytes = replicate 13 0 ++ (0 ∷ 2 ∷ 0 ∷ 88 ∷ 2 ∷ 0 ∷ 0 ∷ [])

abbrev item_bytes : List ℕ
item_bytes = item_of (b'A' ∷ []) 7 (b'T' ∷ b'X' ∷ b'T' ∷ []) (0x20 ∷ rest_bytes)

abbrev disk_byte : ℕ → ℕ
disk_byte a =
    (if ltb a 1024
      then get_or header_bytes a 0
      else if ltb a 1536
      then get_or item_bytes (a - 1024) 0
      else a - 1471)
    % 256

abbrev fat_disk : Controller
fat_disk r k = disk_byte (address r * 512 + 2 * k) + 256 * disk_byte (address r * 512 + 2 * k + 1)

fat_disk-IsDisk : IsDisk disk_byte fat_disk
fat_disk-IsDisk = record { is_byte = λ a. omega arith; answers = λ r k e d h. refl }

disk-EndsAfter : EndsAfter disk_byte (2 * 512) 1
disk-EndsAfter = record { is_end = refl; no_end = no_end }
  where
    no_end : (j : ℕ) → j < 1 → disk_byte (2 * 512 + item_size * j) ≢ 0
    no_end zero l z = absurd (omega (arith, z))
    no_end (suc j) l z = absurd (omega arith)

total_items-live_example :
    fat16_get_total_items_for_directory fat_disk 2 ≡ some (pos (live_items disk_byte (2 * 512) 1))
total_items-live_example =
    total_items-live disk_byte fat_disk 2 1 fat_disk-IsDisk (omega arith) disk-EndsAfter

live_once : live_items disk_byte 1024 1 ≡ 1
unfolding live_items
live_once = refl

-- No file system at all.
abbrev blank : Controller
blank r k = 0

blank-IsDisk : IsDisk (λ a. 0) blank
blank-IsDisk = record { is_byte = λ a. omega arith; answers = λ r k e d h. refl }

resolve-unsupported_example : fat16_resolve blank ≡ some (neg_efsnotus, none)
resolve-unsupported_example = resolve-unsupported (λ a. 0) blank blank-IsDisk (omega arith)

-- A disk with nothing on it but the signature.
abbrev signed_byte : ℕ → ℕ
signed_byte a = if a == 38 then 0x29 else 0

abbrev signed_disk : Controller
signed_disk r k =
    signed_byte (address r * 512 + 2 * k) + 256 * signed_byte (address r * 512 + 2 * k + 1)

signed_byte_bound : (a : ℕ) → signed_byte a < 256
signed_byte_bound a = ground arith

signed_disk-IsDisk : IsDisk signed_byte signed_disk
signed_disk-IsDisk = record { is_byte = signed_byte_bound; answers = λ r k e d h. refl }

resolve_no_items_example : fat16_resolve signed_disk ≡ some (neg_eio, none)
unfolding tmp_os.Fat16.Directory.header_of slice
resolve_no_items_example =
    resolve_no_items signed_byte signed_disk 0 signed_disk-IsDisk refl refl (omega arith)
      (record { is_end = refl; no_end = λ j l. absurd (omega arith) })

resolve-root_of_example :
    fat16_resolve fat_disk
    ≡ some (
      pos 0,
      some (record {
        header = header_on disk_byte;
        root_dir = root_of disk_byte (header_on disk_byte) 1;
      }),
    )
unfolding tmp_os.Fat16.Directory.header_of slice
resolve-root_of_example =
    resolve-root_of disk_byte fat_disk 1 fat_disk-IsDisk refl (omega arith) (omega arith)
      (omega arith) disk-EndsAfter

abbrev private : FatPrivate
private = record {
  header = record {
    sectors_per_cluser = 1;
    reserved_sectors = 1;
    fat_copies = 1;
    rood_dir_entries = 16;
    sectors_per_fat = 1;
    sig = 0x29;
  };
  root_dir = record { item = item_bytes; total = 1; sector_pos = 2; ending_sector_pos = 3 };
}

abbrev part : List ℕ
part = b'a' ∷ b'.' ∷ b't' ∷ b'x' ∷ b't' ∷ []

has_name-dotted_example : has_name item_bytes part ≡ some true
unfolding tolower
has_name-dotted_example =
    has_name-dotted (b'A' ∷ []) (b'T' ∷ b'X' ∷ b'T' ∷ []) rest_bytes part 6 0x20
      (omega arith, omega arith, tt)
      (omega arith, omega arith, (omega arith, omega arith, (omega arith, omega arith, tt))) refl
      refl (omega arith) refl

no_match : NoMatch private.root_dir.item (b'b' ∷ []) private.root_dir.total
unfolding has_name tmp_os.Fat16.fat16_get_full_relative_filename tmp_os.Fat16.fat16_to_proper_string
    tmp_os.Fat16.Directory.path_buffer tmp_os.Strings.istrncmp tolower
no_match zero l = refl
no_match (suc i) l = absurd (omega arith)

entry-NoMatch_example :
    fat16_get_directory_entry true fat_disk private ((b'b' ∷ []) ∷ part ∷ []) ≡ some none
entry-NoMatch_example = entry-NoMatch fat_disk private (b'b' ∷ []) (part ∷ []) no_match

last_match : LastMatch private.root_dir.item part private.root_dir.total 0
last_match = record {
  inside = omega arith;
  matches = has_name-dotted_example;
  later = λ i a b. absurd (omega arith);
  answered = answered;
}
  where
    answered :
        (i : ℕ)
        → i < 1
        → (has_name (nth_item item_bytes i) part ≡ some false)
          ⊎ ((has_name (nth_item item_bytes i) part ≡ some true)
              × (is_subdirectory (nth_item item_bytes i) ≡ false))
    answered zero l = inr (has_name-dotted_example, refl)
    answered (suc i) l = absurd (omega arith)

find_item-LastMatch_example :
    fat16_find_item_in_directory true fat_disk private private.root_dir part
    ≡ some (some (file_item (take item_size (nth_item item_bytes 0))))
find_item-LastMatch_example =
    find_item-LastMatch fat_disk private private.root_dir part 0 last_match

deeper_path_example : fat16_get_directory_entry true fat_disk private (part ∷ part ∷ []) ≡ some none
deeper_path_example =
    deeper_path fat_disk private part part [] (some (file_item (take item_size item_bytes)))
      (find_item-LastMatch fat_disk private private.root_dir part 0 last_match)

open-plain_number_example :
    fat16_open true fat_disk private (part ∷ []) 1 ≡ some (opened (plain_number erdonly))
open-plain_number_example = open-plain_number fat_disk private (part ∷ []) 1 (omega arith)

-- The second cluster, as it is found: 65 + 256 * 66.
abbrev chain : ℕ → ℕ
chain o = if ltb o 512 then 2 else 16961

second : fat16_get_fat_entry fat_disk private 2 ≡ some (pos 16961)
second = fat_entry_lem disk_byte fat_disk private 2 fat_disk-IsDisk (omega arith)

chain-IsChain : IsChain fat_disk private 2 chain 600
unfolding fat16_get_cluster_for_offset follow_chain tmp_os.Fat16.fat16_cluster_to_sector
chain-IsChain = record { leads = leads; inside = inside }
  where
    leads :
        (o : ℕ) → o < 600 → fat16_get_cluster_for_offset fat_disk private 2 o ≡ some (pos (chain o))
    leads o l = elim (dec_lt o 512) [
      | yes b ↦
          let q : o / 512 ≡ 0 = omega arith in
          let t : ltb o 512 ≡ true = ground arith in rw (q, t, fat16_get_cluster_for_offset) refl
      | no b ↦
          let q : o / 512 ≡ 1 = omega arith in
          let t : ltb o 512 ≡ false = ground arith in
          rw (q, t, second, follow_chain, fat16_get_cluster_for_offset) refl
    ]

    inside : (o : ℕ) → o < 600 → cluster_start private (chain o) + cluster_size private < 2 ^ 31
    inside o l = elim (dec_lt o 512) [
      | yes b ↦ let t : ltb o 512 ≡ true = ground arith in rw t (omega arith)
      | no b ↦ let t : ltb o 512 ≡ false = ground arith in rw t (omega arith)
    ]

read_internal-chain_bytes_example :
    fat16_read_internal fat_disk private 2 0 600 []
    ≡ some (pos 0, overwrite (chain_bytes disk_byte private chain (suc (600 / 512)) 0 600) [])
read_internal-chain_bytes_example =
    read_internal-chain_bytes disk_byte fat_disk private 2 chain 600 fat_disk-IsDisk chain-IsChain 0
      600 [] (omega arith) refl (omega arith) (omega arith)

abbrev files : Files Handle
files = record {
  filesystems = [];
  file_descriptors = replicate max_file_descriptors none;
  disk_fs = some (fat16_fs true fat_disk private);
}

abbrev filename : List ℕ
filename = b'0' ∷ b':' ∷ b'/' ∷ b'a' ∷ b'.' ∷ b't' ∷ b'x' ∷ b't' ∷ 0 ∷ []

abbrev mode : List ℕ
mode = b'r' ∷ 0 ∷ []

parsed : parser_parse filename ≡ some (some (record { drive_num = 0; parts = part ∷ [] }))
unfolding parser_parse tmp_os.Strings.strlen tmp_os.Parser.parser_get_drive_by_path
    tmp_os.Parser.path_valid tmp_os.Strings.strnlen tmp_os.Strings.isdigit tmp_os.Strings.memcmp
    tmp_os.Parser.parse_parts tmp_os.Parser.parser_get_path_part tmp_os.Parser.cut_part
parsed = refl

for_reading : file_get_mode_by_string mode ≡ some file_read
unfolding file_get_mode_by_string tmp_os.Strings.strncmp
for_reading = refl

fopen-fread_example :
    let item = take item_size (nth_item item_bytes 0) in
    let s = with_file fat_disk private 0 (file_at item 0) files in
    (fopen filename mode files ≡ some (pos 1, s))
    × (fread [] 600 1 (pos 1) s
        ≡ some
            (pos 1, overwrite (chain_bytes disk_byte private chain (suc (600 / 512)) 0 600) [], s))
unfolding tmp_os.Fat16.fat16_get_first_cluster tmp_os.File.first_free
fopen-fread_example =
    fopen-fread disk_byte fat_disk private filename mode part chain 0 0 600 [] files fat_disk-IsDisk
      parsed for_reading refl refl (omega arith) last_match chain-IsChain (omega arith)
      (omega arith)

-- A file of 600 bytes at byte 100000.
seek_past_end_example :
    fat16_seek (file_at item_bytes 0) 100000 0 ≡ some (pos 0, file_at item_bytes 100000)
seek_past_end_example =
    seek_past_end item_bytes 0 100000 0 (omega arith) (omega arith) (omega arith)

for_writing : file_get_mode_by_string (b'w' ∷ 0 ∷ []) ≡ some 1
unfolding file_get_mode_by_string tmp_os.Strings.strncmp
for_writing = refl
