-- ===== src/Parser/Parts.antt =====
-- Parsing a printed path gives it back.
use tmp_os.Base.{
  ℕ, zero, suc, ◌+◌, ◌≤◌, ◌<◌, ◌≡◌, ◌≢◌, refl, ap, true, false, none, some, List, [], ◌∷◌, ◌++◌,
  ltb, length, arith, Bool-cases, inl, inr, length-append,
}
use tmp_os.Base.Int.{pos}
use tmp_os.Strings.Length.{IsText, stored, strlen-stored, strnlen-stored}
use tmp_os.Strings.{isdigit, memcmp}
use mathlib.Core.List.{append_assoc}
use tmp_os.Parser.{
  PathRoot, cut_part, parser_get_path_part, parse_parts, with_parts, parse_behind, path_valid,
  drive_prefix, parser_get_drive_by_path, parser_parse, file_max_path,
}

-- The bytes of one part.
abbrev pub IsPart : List ℕ → Type 0
IsPart [] = Unit
IsPart (c ∷ s) = (c ≢ 0) × (c ≢ b'/') × IsPart s

-- Parts that a path can spell: only the last one must not be empty.
abbrev pub IsPath : List (List ℕ) → Type 0
IsPath [] = ⊥
IsPath (p ∷ []) = IsPart p × (p ≢ [])
IsPath (p ∷ q ∷ ps) = IsPart p × IsPath (q ∷ ps)

unfoldable pub join : List (List ℕ) → List ℕ
join [] = []
join (p ∷ []) = p
join (p ∷ q ∷ ps) = p ++ (b'/' ∷ join (q ∷ ps))

unfoldable pub print_path : PathRoot → List ℕ
print_path r = (48 + r.drive_num) ∷ b':' ∷ b'/' ∷ join r.parts

cut_slash :
    (p s : List ℕ)
    → IsPart p
    → cut_part (p ++ (b'/' ∷ s)) ≡ some (record { before = p; at_slash = true; behind = s })
unfolding cut_part
cut_slash [] s h = refl
cut_slash (c ∷ p) s (a, b, h) = ground (arith, cut_slash p s h)

cut_end :
    (p s : List ℕ)
    → IsPart p
    → cut_part (p ++ (0 ∷ s)) ≡ some (record { before = p; at_slash = false; behind = 0 ∷ s })
unfolding cut_part
cut_end [] s h = refl
cut_end (c ∷ p) s (a, b, h) = ground (arith, cut_end p s h)

part_slash : (p s : List ℕ) → IsPart p → parser_get_path_part (p ++ (b'/' ∷ s)) ≡ some (some p, s)
unfolding parser_get_path_part
part_slash p s h = rw (cut_slash p s h, parser_get_path_part) (ground arith)

part_last :
    (p s : List ℕ) → IsPart p → p ≢ [] → parser_get_path_part (p ++ (0 ∷ s)) ≡ some (some p, 0 ∷ s)
unfolding parser_get_path_part
part_last [] s h n = absurd (n refl)
part_last (c ∷ p) s h n = rw (cut_end (c ∷ p) s h, parser_get_path_part)

part_none : (s : List ℕ) → parser_get_path_part (0 ∷ s) ≡ some (none, 0 ∷ s)
unfolding parser_get_path_part cut_part
part_none s = refl

parse_end : (f : ℕ) (rest : List ℕ) → parse_parts (suc f) (0 ∷ rest) ≡ some []
unfolding parse_parts
parse_end f rest = rw (part_none rest, parse_parts)

parse_parts-join :
    (f : ℕ) (ps : List (List ℕ)) (rest : List ℕ)
    → IsPath ps
    → length ps < f
    → parse_parts f (stored (join ps) rest) ≡ some ps
unfolding parse_parts join
parse_parts-join zero ps rest h l = absurd (omega arith)
parse_parts-join (suc f) [] rest h l = absurd h
parse_parts-join (suc zero) (p ∷ ps) rest h l = absurd (omega arith)
parse_parts-join (suc (suc f)) (p ∷ []) rest h l =
    rw (part_last p rest h.0 h.1, parse_parts) (rw (parse_end f rest))
parse_parts-join (suc f) (p ∷ q ∷ ps) rest h l =
    rw (append_assoc p (b'/' ∷ join (q ∷ ps)) (0 ∷ rest)) (
      rw (part_slash p (stored (join (q ∷ ps)) rest) h.0, parse_parts)
        (rw (parse_parts-join f (q ∷ ps) rest h.1 (omega arith))))

IsText-append : (a b : List ℕ) → IsText a → IsText b → IsText (a ++ b)
IsText-append [] b h k = k
IsText-append (c ∷ a) b (n, h) k = (n, IsText-append a b h k)

part-IsText : (p : List ℕ) → IsPart p → IsText p
part-IsText [] h = tt
part-IsText (c ∷ p) (a, b, h) = (a, part-IsText p h)

join-IsText : (ps : List (List ℕ)) → IsPath ps → IsText (join ps)
unfolding join
join-IsText [] h = absurd h
join-IsText (p ∷ []) h = part-IsText p h.0
join-IsText (p ∷ q ∷ ps) h =
    IsText-append p _ (part-IsText p h.0) (omega arith, join-IsText (q ∷ ps) h.1)

length-join : (ps : List (List ℕ)) → IsPath ps → length ps ≤ length (join ps)
unfolding join
length-join [] h = absurd h
length-join ([] ∷ []) h = absurd (h.1 refl)
length-join ((c ∷ p) ∷ []) h = omega arith
length-join (p ∷ q ∷ ps) h =
    omega (arith, length-join (q ∷ ps) h.1, length-append p (b'/' ∷ join (q ∷ ps)))

IsText-print : (r : PathRoot) → IsText (join r.parts) → IsText (print_path r)
unfolding print_path
IsText-print r h = (omega arith, (omega arith, (omega arith, h)))

valid_print :
    (r : PathRoot) (rest : List ℕ)
    → r.drive_num ≤ 9
    → IsText (join r.parts)
    → length (print_path r) ≤ file_max_path
    → path_valid (stored (print_path r) rest) ≡ some true
unfolding path_valid drive_prefix print_path isdigit memcmp
valid_print r rest d h l =
    rw
      (
        strnlen-stored (print_path r) rest file_max_path (IsText-print r h) l (omega arith),
        path_valid,
      )
      (ground arith)

drive_print :
    (r : PathRoot) (rest : List ℕ)
    → r.drive_num ≤ 9
    → IsText (join r.parts)
    → length (print_path r) ≤ file_max_path
    → parser_get_drive_by_path (stored (print_path r) rest) ≡ some (pos r.drive_num)
unfolding parser_get_drive_by_path print_path
drive_print r rest d h l =
    rw (valid_print r rest d h l, parser_get_drive_by_path) (ap (λ n. some (pos n)) (omega arith))

behind_print :
    (d : ℕ) (ps : List (List ℕ)) (rest : List ℕ)
    → d ≤ 9
    → IsPath ps
    → parse_behind d (stored (join ps) rest) ≡ some (some (record { drive_num = d; parts = ps }))
unfolding parse_behind with_parts
behind_print d [] rest l h = absurd h
behind_print d (p ∷ ps) rest l h =
    rw
      (
        parse_parts-join (length (stored (join (p ∷ ps)) rest) + 1) (p ∷ ps) rest h
            (omega (arith, length-join (p ∷ ps) h, length-append (join (p ∷ ps)) (0 ∷ rest))),
        parse_behind,
      )
      (ap (λ n. some (some (record { drive_num = n; parts = p ∷ ps }))) (omega arith))

-- A path that is printed from its drive and parts, and is not too long, parses to them.
pub parser_parse-print :
    (r : PathRoot) (rest : List ℕ)
    → r.drive_num ≤ 9
    → IsPath r.parts
    → length (print_path r) ≤ file_max_path
    → parser_parse (stored (print_path r) rest) ≡ some (some r)
unfolding parser_parse
parser_parse-print r rest d h l = elim (Bool-cases (ltb file_max_path (length (print_path r)))) [
  | inl e ↦ absurd (ground arith)
  | inr e ↦
      let t = IsText-print r (join-IsText r.parts h) in
      rw (strlen-stored (print_path r) rest t (omega arith), parser_parse)
        (rw (e, drive_print r rest d (join-IsText r.parts h) l)
          (unfold print_path in behind_print r.drive_num r.parts rest d h))
]
