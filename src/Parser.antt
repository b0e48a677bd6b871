-- ===== src/Parser.antt =====
-- src/fs/parser.c: paths of the form `0:/part/part`. Memory for the parts is taken to be there,
-- as the code does not check it but for the root. `none`: a byte beyond the path's buffer is read.
pub mod Parts
pub mod Total
use tmp_os.Base.{
  ℕ, zero, suc, ◌+◌, ◌-◌, ◌%◌, Bool, true, false, not, ◌&&◌, ◌||◌, Option, none, some, List, [],
  ◌∷◌, ltb, leb, ◌==◌, if◌then◌else◌, length, drop,
}
use tmp_os.Base.Int.{ℤ, pos, negsuc, is_neg, is_zero}
use tmp_os.Base.Errno.{neg_ebadpath}
use tmp_os.Strings.{strlen, strnlen, isdigit, memcmp}

abbrev pub file_max_path : ℕ
file_max_path = 100

-- `struct path_root`, with the chain of `struct path_part` as a list.
pub record PathRoot : Type 0 where
  pub drive_num : ℕ
  pub parts : List (List ℕ)

-- The tests behind a length of 3 or more.
drive_prefix : List ℕ → Option Bool
drive_prefix [] = none
drive_prefix (c ∷ s) =
    if isdigit c
    then (elim (memcmp s (b':' ∷ b'/' ∷ []) 2) [ none ↦ none | some z ↦ some (is_zero z) ])
    else some false

unfoldable pub path_valid : List ℕ → Option Bool
unfolding drive_prefix
path_valid filename = elim (strnlen filename file_max_path) [
  | none ↦ none
  | some (negsuc n) ↦ some false
  | some (pos len) ↦ if leb 3 len then drive_prefix filename else some false
]

unfoldable pub parser_get_drive_by_path : List ℕ → Option ℤ
parser_get_drive_by_path path = elim (path_valid path) [
  | none ↦ none
  | some false ↦ some neg_ebadpath
  | some true ↦ elim path [ [] ↦ none | c ∷ s ↦ some (pos (c - 48)) ]
]

-- The scan of `parser_get_path_part`: the bytes before a slash or the terminator, whether it was a
-- slash, and what lies behind the slash or from the terminator on.
pub record Cut : Type 0 where
  pub before : List ℕ
  pub at_slash : Bool
  pub behind : List ℕ

unfoldable pub cut_part : List ℕ → Option Cut
cut_part [] = none
cut_part (c ∷ s) =
    let more : Option Cut = elim (cut_part s) [
      | none ↦ none
      | some r ↦ some (record r { before = c ∷ r.before })
    ] in
    if c == b'/'
    then some (record { before = []; at_slash = true; behind = s })
    else if c == 0
    then some (record { before = []; at_slash = false; behind = 0 ∷ s })
    else more

abbrev pub is_nil : List ℕ → Bool
is_nil [] = true
is_nil (c ∷ s) = false

-- No part is left where the scan does not move.
unfoldable pub parser_get_path_part : List ℕ → Option (Option (List ℕ) × List ℕ)
parser_get_path_part path = elim (cut_part path) [
  | none ↦ none
  | some r ↦
      some
        (if is_nil r.before && not r.at_slash then (none, r.behind) else (some r.before, r.behind))
]

-- The parts that `parse_path_part` appends one after the other. Each takes a byte at least, so
-- that a round for each byte of the buffer is enough.
unfoldable pub parse_parts : ℕ → List ℕ → Option (List (List ℕ))
parse_parts zero path = none
parse_parts (suc f) path = elim (parser_get_path_part path) [
  | none ↦ none
  | some (none, rest) ↦ some []
  | some (some part, rest) ↦ elim (parse_parts f rest) [
    | none ↦ none
    | some parts ↦ some (part ∷ parts)
  ]
]

-- A path without a first part has no root.
with_parts : ℕ → List (List ℕ) → Option PathRoot
with_parts drive [] = none
with_parts drive (part ∷ parts) = some (record { drive_num = drive % 256; parts = part ∷ parts })

parse_behind : ℕ → List ℕ → Option (Option PathRoot)
unfolding with_parts
parse_behind drive rest = elim (parse_parts (length rest + 1) rest) [
  | none ↦ none
  | some parts ↦ some (with_parts drive parts)
]

-- The inner `none` is NULL.
unfoldable pub parser_parse : List ℕ → Option (Option PathRoot)
unfolding parse_behind
parser_parse path = elim (strlen path) [
  | none ↦ none
  | some len ↦ if ltb file_max_path len then some none else elim (parser_get_drive_by_path path) [
    | none ↦ none
    | some (negsuc e) ↦ some none
    | some (pos drive) ↦ parse_behind drive (drop 3 path)
  ]
]
