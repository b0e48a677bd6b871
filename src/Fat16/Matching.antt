-- ===== src/Fat16/Matching.antt =====
-- src/fs/fat/fat16.c: which part of a path a directory item answers to.
use mathlib.Core.List.{map-append}
use tmp_os.Base.{
  ℕ, zero, suc, ◌+◌, ◌-◌, ◌≤◌, ◌≡◌, refl, sym, ◌∙◌, ap, ◌==◌, ◌||◌, true, some, List, [], ◌∷◌, ◌++◌,
  map, arith, leb, length, take, replicate, length-replicate, length-append, length-map,
}
use tmp_os.Base.Int.{pos}
use tmp_os.Parser.{file_max_path}
use tmp_os.Strings.{istrncmp, tolower}
use tmp_os.Strings.Compare.{istrncmp_same}
use tmp_os.Fat16.Names.{IsName, dotted, item_of, filename-dotted}
use tmp_os.Fat16.Directory.{has_name, path_buffer}

take_all : (xs : List ℕ) (n : ℕ) → length xs ≡ n → take n xs ≡ xs
take_all [] zero e = refl
take_all [] (suc n) e = refl
take_all (x ∷ xs) zero e = absurd (omega (arith, e))
take_all (x ∷ xs) (suc n) e = ap (λ l. x ∷ l) (take_all xs n (omega (arith, e)))

abbrev padded : List ℕ → List ℕ
padded text = text ++ replicate (file_max_path - length text) 0

length-padded : (text : List ℕ) → length text ≤ file_max_path → length (padded text) ≡ file_max_path
length-padded text h = omega (
  arith,
  length-append text (replicate (file_max_path - length text) 0),
  length-replicate {A = ℕ} (file_max_path - length text) 0,
)

path_buffer-padded :
    (text : List ℕ) → length text ≤ file_max_path → path_buffer text ≡ some (padded text)
unfolding path_buffer
path_buffer-padded text h =
    let e : leb (length text) file_max_path ≡ true = ground arith in rw (e, path_buffer) refl

same_buffer :
    (s t : List ℕ)
    → length s ≤ file_max_path
    → map tolower s ≡ map tolower t
    → istrncmp (padded s) (padded t) file_max_path ≡ some (pos 0)
same_buffer s t h e =
    let n : length s ≡ length t = sym (length-map s tolower) ∙ ap length e ∙ length-map t tolower in
    let l = length-padded s h in
    let r = length-padded t (omega arith) in
    let pad = replicate {A = ℕ} (file_max_path - length s) 0 in
    let same : map tolower (padded s) ≡ map tolower (padded t) =
      map-append tolower s pad
      ∙ ap (λ x. x ++ map tolower pad) e
      ∙ sym (map-append tolower t pad)
      ∙ ap (λ k. map tolower (t ++ replicate (file_max_path - k) 0)) n in
    istrncmp_same file_max_path (padded s) (padded t) (omega arith) (omega arith) (
      ap (map tolower) (take_all (padded s) file_max_path l)
      ∙ same
      ∙ ap (map tolower) (sym (take_all (padded t) file_max_path r)))

-- An item with a name of less than eight bytes, padded with spaces, and an extension, with a zero or
-- a space in the byte behind it, answers to every part of a path that is the name, a dot and the
-- extension, in any case, if this fits the buffer.
pub has_name-dotted :
    (name ext rest part : List ℕ) (pad c : ℕ)
    → IsName name
    → IsName ext
    → length name + suc pad ≡ 8
    → (c == 0 || c == 0x20) ≡ true
    → length (dotted name ext) ≤ file_max_path
    → map tolower (dotted name ext) ≡ map tolower part
    → has_name (item_of name (suc pad) ext (c ∷ rest)) part ≡ some true
unfolding has_name
has_name-dotted name ext rest part pad c h k l z m e =
    let n : length (dotted name ext) ≡ length part =
      sym (length-map (dotted name ext) tolower) ∙ ap length e ∙ length-map part tolower in
    rw
      (
        filename-dotted name ext rest pad c h k l z,
        path_buffer-padded (dotted name ext) m,
        path_buffer-padded part (omega arith),
        same_buffer (dotted name ext) part m e,
        has_name,
      )
      refl
