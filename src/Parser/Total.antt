-- ===== src/Parser/Total.antt =====
-- Parsing any terminated string stays inside its buffer.
use tmp_os.Base.{
  ℕ, zero, suc, ◌+◌, ◌-◌, ◌^◌, ◌≤◌, ◌<◌, ◌≡◌, ◌∙◌, refl, Bool, true, false, Option, none, some,
  List, [], ◌∷◌, ltb, leb, ◌==◌, if◌then◌else◌, length, drop, arith, Bool-cases, inl, inr,
  length-append, ◌⊎◌,
}
use tmp_os.Base.Int.{pos, is_zero}
use tmp_os.Base.Errno.{neg_ebadpath}
use tmp_os.Strings.Length.{IsText, stored, strlen-stored, strnlen-stored}
use tmp_os.Strings.Compare.{memcmp_total}
use tmp_os.Strings.{isdigit}
use tmp_os.Parser.{
  PathRoot, Cut, cut_part, parser_get_path_part, parse_parts, with_parts, parse_behind, path_valid,
  drive_prefix, parser_get_drive_by_path, parser_parse, file_max_path, is_nil,
}

-- Where the scan of a part of a text stops: behind a slash with less text left, or at the end.
abbrev Stops : List ℕ → List ℕ → Cut → Type 0
Stops s rest r =
    ((s' : List ℕ) × (r.at_slash ≡ true)
      × (r.behind ≡ stored s' rest)
      × IsText s'
      × (length s' < length s))
    ⊎ ((r.at_slash ≡ false) × (r.behind ≡ 0 ∷ rest) × (length r.before ≡ length s))

cut-Stops :
    (s rest : List ℕ) → IsText s → (r : Cut) × (cut_part (stored s rest) ≡ some r) × Stops s rest r
unfolding cut_part
cut-Stops [] rest h = (_, refl, inr (refl, refl, refl))
cut-Stops (c ∷ s) rest (n, h) = elim (Bool-cases (c == b'/')) [
  | inl e ↦ (
    record { before = []; at_slash = true; behind = stored s rest },
    rw e,
    inl (s, refl, refl, h, omega arith),
  )
  | inr e ↦
      let (r, q, st) = cut-Stops s rest h in
      (
        record r { before = c ∷ r.before },
        ground (arith, q),
        elim st [
          | inl (s', a, b, t, l) ↦ inl (s', a, b, t, omega arith)
          | inr (a, b, l) ↦ inr (a, b, omega arith)
        ],
      )
]

length_of_not_nil : (x : List ℕ) → is_nil x ≡ false → 0 < length x
length_of_not_nil [] e = absurd (cc e)
length_of_not_nil (c ∷ x) e = omega arith

part_cases :
    (s rest : List ℕ)
    → IsText s
    → (parser_get_path_part (stored s rest) ≡ some (none, 0 ∷ rest))
      ⊎ ((p s' : List ℕ) × (parser_get_path_part (stored s rest) ≡ some (some p, stored s' rest))
          × IsText s'
          × (length s' < length s))
      ⊎ ((p : List ℕ) × (parser_get_path_part (stored s rest) ≡ some (some p, 0 ∷ rest))
          × (0 < length s))
unfolding parser_get_path_part
part_cases s rest h =
    let (r, q, st) = cut-Stops s rest h in
    elim st [
      | inl (s', a, b, t, m) ↦
          inr (inl (r.before, s', rw (q, parser_get_path_part) (ground (arith, a, b)), t, m))
      | inr (a, b, l) ↦ elim (Bool-cases (is_nil r.before)) [
        | inl e ↦ inl (rw (q, parser_get_path_part) (rw (e, a, b)))
        | inr e ↦ inr (
            inr (
              r.before,
              rw (q, parser_get_path_part) (rw (e, b)),
              omega (arith, length_of_not_nil r.before e),
            ))
      ]
    ]

end_parts : (f : ℕ) (rest : List ℕ) → 0 < f → parse_parts f (0 ∷ rest) ≡ some []
unfolding parse_parts parser_get_path_part cut_part
end_parts zero rest h = absurd (omega arith)
end_parts (suc f) rest h = refl

parse_parts_total :
    (f : ℕ) (s rest : List ℕ)
    → IsText s
    → length s < f
    → (ps : List (List ℕ)) × (parse_parts f (stored s rest) ≡ some ps)
unfolding parse_parts
parse_parts_total zero s rest h l = absurd (omega arith)
parse_parts_total (suc f) s rest h l = elim (part_cases s rest h) [
  | inl e ↦ ([], rw (e, parse_parts))
  | inr (inl (p, s', e, t, m)) ↦
      let (ps, q) = parse_parts_total f s' rest t (omega arith) in
      (p ∷ ps, rw (e, parse_parts) (rw q))
  | inr (inr (p, e, m)) ↦ (p ∷ [], rw (e, parse_parts) (rw (end_parts f rest (omega arith))))
]

valid_eq :
    (s rest : List ℕ)
    → IsText s
    → length s ≤ file_max_path
    → path_valid (stored s rest)
      ≡ (if leb 3 (length s) then drive_prefix (stored s rest) else some false)
unfolding path_valid
valid_eq s rest h l = rw (strnlen-stored s rest file_max_path h l (omega arith), path_valid)

prefix_total : (a b c : ℕ) (s : List ℕ) → (v : Bool) × (drive_prefix (a ∷ b ∷ c ∷ s) ≡ some v)
unfolding drive_prefix
prefix_total a b c s = elim (Bool-cases (isdigit a)) [
  | inr e ↦ (false, rw e)
  | inl e ↦
      let (z, q) = memcmp_total 2 (b ∷ c ∷ s) (b':' ∷ b'/' ∷ []) (omega arith) (omega arith) in
      (is_zero z, rw (e, q))
]

long_cases :
    (s rest : List ℕ)
    → 3 ≤ length s
    → path_valid (stored s rest) ≡ drive_prefix (stored s rest)
    → (parser_get_drive_by_path (stored s rest) ≡ some neg_ebadpath)
      ⊎ ((d : ℕ) × (parser_get_drive_by_path (stored s rest) ≡ some (pos d)) × (3 ≤ length s))
unfolding parser_get_drive_by_path
long_cases [] rest l e = absurd (omega arith)
long_cases (a ∷ []) rest l e = absurd (omega arith)
long_cases (a ∷ b ∷ []) rest l e = absurd (omega arith)
long_cases (a ∷ b ∷ c ∷ s) rest l e =
    let (v, q) = prefix_total a b c (stored s rest) in
    elim (Bool-cases v) [
      | inr w ↦ inl (rw (e, q, w, parser_get_drive_by_path))
      | inl w ↦ inr (a - 48, rw (e, q, w, parser_get_drive_by_path), l)
    ]

drive_cases :
    (s rest : List ℕ)
    → IsText s
    → length s ≤ file_max_path
    → (parser_get_drive_by_path (stored s rest) ≡ some neg_ebadpath)
      ⊎ ((d : ℕ) × (parser_get_drive_by_path (stored s rest) ≡ some (pos d)) × (3 ≤ length s))
unfolding parser_get_drive_by_path
drive_cases s rest h l = elim (Bool-cases (leb 3 (length s))) [
  | inr e ↦ inl (rw (valid_eq s rest h l, e, parser_get_drive_by_path))
  | inl e ↦ long_cases s rest (ground arith) (valid_eq s rest h l ∙ rw e)
]

behind_total :
    (d : ℕ) (s rest : List ℕ)
    → IsText s
    → 3 ≤ length s
    → (r : Option PathRoot) × (parse_behind d (drop 3 (stored s rest)) ≡ some r)
unfolding parse_behind
behind_total d [] rest h l = absurd (omega arith)
behind_total d (a ∷ []) rest h l = absurd (omega arith)
behind_total d (a ∷ b ∷ []) rest h l = absurd (omega arith)
behind_total d (a ∷ b ∷ c ∷ s) rest (x, (y, (z, h))) l =
    let (ps, e) =
      parse_parts_total (length (stored s rest) + 1) s rest h
        (omega (arith, length-append s (0 ∷ rest))) in
    (with_parts d ps, rw (e, parse_behind))

-- A path of any terminated text is parsed without reading beyond its buffer.
pub parser_parse_total :
    (s rest : List ℕ)
    → IsText s
    → length s < 2 ^ 32
    → (r : Option PathRoot) × (parser_parse (stored s rest) ≡ some r)
unfolding parser_parse
parser_parse_total s rest h l = elim (Bool-cases (ltb file_max_path (length s))) [
  | inl e ↦ (none, rw (strlen-stored s rest h l, parser_parse) (rw e))
  | inr e ↦ elim (drive_cases s rest h (ground arith)) [
    | inl q ↦ (none, rw (strlen-stored s rest h l, parser_parse) (rw (e, q)))
    | inr (d, q, m) ↦
        let (r, p) = behind_total d s rest h m in
        (r, rw (strlen-stored s rest h l, parser_parse) (rw (e, q) p))
  ]
]
