-- ===== src/File.antt =====
-- src/fs/file.c: the table of open files over the operations of a file system. `P` is what a file
-- system keeps of an open file, its private data.
pub mod Open
pub mod Close
pub mod Closing
pub mod Valid
use tmp_os.Base.{
  ℕ, zero, suc, ◌+◌, ◌-◌, ◌==◌, Bool, true, false, ◌||◌, Option, none, some, List, [], ◌∷◌, ltb,
  leb, if◌then◌else◌, length, get_elem?, set, replicate,
}
use tmp_os.Base.Int.{ℤ, pos, negsuc, is_neg, is_zero, as_uint32}
use tmp_os.Base.Errno.{neg_eio, neg_einvarg, neg_enomem}
use tmp_os.Disk.{the_disk, DiskRef, disk_get}
use tmp_os.Parser.{PathRoot, parser_parse}
use tmp_os.Strings.{strncmp}

abbrev pub max_file_systems : ℕ
max_file_systems = 12

abbrev pub max_file_descriptors : ℕ
max_file_descriptors = 512

-- FILE_READ to FILE_INVALID.
abbrev pub file_read : ℕ
file_read = 0

abbrev pub file_write : ℕ
file_write = 1

abbrev pub file_append : ℕ
file_append = 2

abbrev pub file_invalid : ℕ
file_invalid = 3

pub record FileStat : Type 0 where
  pub flags : ℕ
  pub file_size : ℕ

-- The pointer that `open` returns, which `ISERR` reads as an error where it is negative.
pub data OpenResult (P : Type 0) : Type 0 where
  opened : P → OpenResult P
  failed : ℕ → OpenResult P

-- `struct filesystem`. `read` and `seek` change the private data in place; `read` takes the caller's
-- memory from the buffer on and gives its new contents, and `stat` gives nothing where it leaves the
-- caller's structure as it is. `none`: the operation does not return, or it uses memory that is not
-- its own. `open_path` is the field `open`.
pub record FileSystem (P : Type 0) : Type 0 where
  pub resolve : DiskRef → Option ℤ
  pub open_path : DiskRef → List (List ℕ) → ℕ → Option (OpenResult P)
  pub read : DiskRef → P → ℕ → ℕ → List ℕ → Option (ℤ × P × List ℕ)
  pub seek : P → ℕ → ℕ → Option (ℤ × P)
  pub stat : DiskRef → P → Option (ℤ × Option FileStat)
  pub close : P → Option ℤ

-- `struct file_descriptor`
pub record FileDescriptor (P : Type 0) : Type 0 where
  pub index : ℕ
  pub filesystem : FileSystem P
  pub private_data : P
  pub disk : DiskRef

-- `filesystems`, `file_descriptors`, and the field `fs` of the one disk.
pub record Files (P : Type 0) : Type 0 where
  pub filesystems : List (Option (FileSystem P))
  pub file_descriptors : List (Option (FileDescriptor P))
  pub disk_fs : Option (FileSystem P)

-- The first element that is NULL, from number `i` on.
unfoldable pub first_free : {A : Type 0} → List (Option A) → ℕ → Option ℕ
first_free [] i = none
first_free (none ∷ xs) i = some i
first_free (some x ∷ xs) i = first_free xs (i + 1)

unfoldable pub fs_get_free_filesystem : {P : Type 0} → Files P → Option ℕ
fs_get_free_filesystem s = first_free s.filesystems 0

-- `none`: it panics.
unfoldable pub fs_insert_filesystem :
    {P : Type 0} → Option (FileSystem P) → Files P → Option (Files P)
unfolding fs_get_free_filesystem
fs_insert_filesystem none s = none
fs_insert_filesystem (some fs) s = elim (fs_get_free_filesystem s) [
  | none ↦ none
  | some i ↦ some (record s { filesystems = set s.filesystems i (some fs) })
]

-- `fs_init`, `fs_load` and `fs_static_load`, for what `fat16_init` returns.
unfoldable pub fs_init : {P : Type 0} → FileSystem P → Files P → Option (Files P)
unfolding fs_insert_filesystem
fs_init fat16 s = fs_insert_filesystem (some fat16) (record s {
  file_descriptors = replicate max_file_descriptors none;
  filesystems = replicate max_file_systems none;
})

unfoldable pub resolve_among :
    {P : Type 0} → DiskRef → List (Option (FileSystem P)) → Option (Option (FileSystem P))
resolve_among d [] = some none
resolve_among d (none ∷ xs) = resolve_among d xs
resolve_among d (some fs ∷ xs) =
    let rest = resolve_among d xs in
    elim (fs.resolve d) [ none ↦ none | some res ↦ if is_zero res then some (some fs) else rest ]

-- `none`: a file system's `resolve` does not return.
unfoldable pub fs_resolve : {P : Type 0} → DiskRef → Files P → Option (Option (FileSystem P))
unfolding resolve_among
fs_resolve d s = resolve_among d s.filesystems

-- What `disk_search_and_init` leaves in the field `fs` of the disk.
unfoldable pub disk_search_and_init : {P : Type 0} → Files P → Option (Files P)
unfolding fs_resolve
disk_search_and_init s = elim (fs_resolve the_disk s) [
  | none ↦ none
  | some fs ↦ some (record s { disk_fs = fs })
]

-- `file_new_descriptor`, and the fields that `fopen` then sets; memory for the descriptor is taken
-- to be there, as the code does not check it.
unfoldable pub file_new_descriptor :
    {P : Type 0} → FileSystem P → P → DiskRef → Files P → ℤ × Files P
file_new_descriptor fs p d s = elim (first_free s.file_descriptors 0) [
  | none ↦ (neg_enomem, s)
  | some i ↦ (
    pos (i + 1),
    record s {
      file_descriptors =
          set s.file_descriptors i
            (some (record { index = i + 1; filesystem = fs; private_data = p; disk = d }));
    },
  )
]

-- An element beyond the table is never asked for.
unfoldable pub file_get_descriptor : {P : Type 0} → ℤ → Files P → Option (FileDescriptor P)
file_get_descriptor (negsuc n) s = none
file_get_descriptor (pos fd) s =
    let slot = get_elem? s.file_descriptors (fd - 1) in
    if leb fd 0 || leb max_file_descriptors fd then none else elim slot [ none ↦ none | some d ↦ d ]

-- `!strncmp(str, m, 1)`
starts : List ℕ → ℕ → Option Bool
starts str m = elim (strncmp str (m ∷ (0 ∷ [])) 1) [ none ↦ none | some z ↦ some (is_zero z) ]

unfoldable pub file_get_mode_by_string : List ℕ → Option ℕ
unfolding starts
file_get_mode_by_string str = elim (starts str b'r') [
  | none ↦ none
  | some true ↦ some file_read
  | some false ↦ elim (starts str b'w') [
    | none ↦ none
    | some true ↦ some file_write
    | some false ↦ elim (starts str b'a') [
      | none ↦ none
      | some true ↦ some file_append
      | some false ↦ some file_invalid
    ]
  ]
]

-- `fopen` from the call of the file system on.
unfoldable pub open_with :
    {P : Type 0} → FileSystem P → DiskRef → PathRoot → ℕ → Files P → Option (ℤ × Files P)
unfolding file_new_descriptor
open_with fs d root mode s = elim (fs.open_path d root.parts mode) [
  | none ↦ none
  | some (failed e) ↦ some (negsuc e, s)
  | some (opened p) ↦ some (file_new_descriptor fs p d s)
]

-- `fopen` from the look at the disk's file system on.
unfoldable pub open_in :
    {P : Type 0}
    → Option (FileSystem P)
    → DiskRef
    → PathRoot
    → List ℕ
    → Files P
    → Option (ℤ × Files P)
open_in none d root mode s = some (neg_eio, s)
open_in (some fs) d root mode s = elim (file_get_mode_by_string mode) [
  | none ↦ none
  | some m ↦ if m == file_invalid then some (neg_einvarg, s) else open_with fs d root m s
]

-- `fopen` from the look at the disk on.
unfoldable pub open_on : {P : Type 0} → PathRoot → List ℕ → Files P → Option (ℤ × Files P)
unfolding disk_get
open_on root mode s = elim (disk_get root.drive_num) [
  | none ↦ some (neg_eio, s)
  | some d ↦ open_in s.disk_fs d root mode s
]

abbrev pub no_part : List (List ℕ) → Bool
no_part [] = true
no_part (part ∷ parts) = false

-- `fopen` up to the label `out`.
unfoldable pub open_result : {P : Type 0} → List ℕ → List ℕ → Files P → Option (ℤ × Files P)
open_result filename mode s = elim (parser_parse filename) [
  | none ↦ none
  | some none ↦ some (neg_einvarg, s)
  | some (some root) ↦ if no_part root.parts then some (neg_einvarg, s) else open_on root mode s
]

-- `fopen` from the label `out` on.
unfoldable pub out : {P : Type 0} → Option (ℤ × Files P) → Option (ℤ × Files P)
out none = none
out (some (res, s)) = some (if is_neg res then pos 0 else res, s)

-- `none`: a byte beyond the name or the mode is read, or the file system's `open` gives `none`.
unfoldable pub fopen : {P : Type 0} → List ℕ → List ℕ → Files P → Option (ℤ × Files P)
unfolding out
fopen filename mode s = out (open_result filename mode s)

-- The change of an open file's private data, which its descriptor points to.
unfoldable pub with_private : {P : Type 0} → FileDescriptor P → P → Files P → Files P
with_private d p s = record s {
  file_descriptors = set s.file_descriptors (d.index - 1) (some (record d { private_data = p }));
}

-- The result, the caller's memory from the buffer on and the state.
unfoldable pub fread : {P : Type 0} → List ℕ → ℕ → ℕ → ℤ → Files P → Option (ℤ × List ℕ × Files P)
fread ptr size nmemb fd s =
    if leb size 0 || leb nmemb 0 || is_neg fd || is_zero fd
    then some (neg_einvarg, ptr, s)
    else elim (file_get_descriptor fd s) [
      | none ↦ some (neg_einvarg, ptr, s)
      | some d ↦ elim (d.filesystem.read d.disk d.private_data size nmemb ptr) [
        | none ↦ none
        | some (res, p, ptr') ↦ some (res, ptr', with_private d p s)
      ]
    ]

unfoldable pub fseek : {P : Type 0} → ℤ → ℤ → ℕ → Files P → Option (ℤ × Files P)
fseek fd offset seek_mode s = elim (file_get_descriptor fd s) [
  | none ↦ some (neg_enomem, s)
  | some d ↦ elim (d.filesystem.seek d.private_data (as_uint32 offset) seek_mode) [
    | none ↦ none
    | some (res, p) ↦ some (res, with_private d p s)
  ]
]

-- The inner `none`: nothing is written to the caller's structure.
unfoldable pub fstat : {P : Type 0} → ℤ → Files P → Option (ℤ × Option FileStat)
fstat fd s = elim (file_get_descriptor fd s) [
  | none ↦ some (neg_einvarg, none)
  | some d ↦ d.filesystem.stat d.disk d.private_data
]

unfoldable pub file_free_descriptor : {P : Type 0} → FileDescriptor P → Files P → Files P
file_free_descriptor d s = record s { file_descriptors = set s.file_descriptors (d.index - 1) none }

unfoldable pub fclose : {P : Type 0} → ℤ → Files P → Option (ℤ × Files P)
unfolding file_free_descriptor
fclose fd s = elim (file_get_descriptor fd s) [
  | none ↦ some (neg_einvarg, s)
  | some d ↦ elim (d.filesystem.close d.private_data) [
    | none ↦ none
    | some res ↦ some (res, if is_neg res then s else file_free_descriptor d s)
  ]
]
