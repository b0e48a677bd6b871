-- ===== src/Fat16/Names.antt =====
-- src/fs/fat/fat16.c: which name a directory item gets.
use tmp_os.Base.{
  ℕ, zero, suc, ◌+◌, ◌≡◌, ◌≢◌, ◌∙◌, refl, ap, sym, true, false, ◌==◌, ◌||◌, some, List, [], ◌∷◌,
  ◌++◌, length, get_or, drop, replicate, arith,
}
use mathlib.Core.List.{append_assoc}
use tmp_os.Fat16.{fat16_to_proper_string, fat16_get_full_relative_filename}

-- Bytes of a name: neither a zero nor a space.
abbrev pub IsName : List ℕ → Type 0
IsName [] = Unit
IsName (c ∷ s) = (c ≢ 0) × (c ≢ 0x20) × IsName s

proper_stops :
    (s rest : List ℕ) (c : ℕ)
    → IsName s
    → (c == 0 || c == 0x20) ≡ true
    → fat16_to_proper_string (s ++ (c ∷ rest)) ≡ some s
unfolding fat16_to_proper_string
proper_stops [] rest c h e = rw (e, fat16_to_proper_string) refl
proper_stops (a ∷ s) rest c (x, y, h) e = ground (arith, proper_stops s rest c h e)

drop-padded :
    (name l : List ℕ) (pad : ℕ) → drop (length name + pad) (name ++ (replicate pad 0x20 ++ l)) ≡ l
drop-padded [] l zero = refl
drop-padded [] l (suc pad) =
    let e : 0 + suc pad ≡ suc (0 + pad) = omega arith in rw e (drop-padded [] l pad)
drop-padded (c ∷ name) l pad =
    let e : suc (length name) + pad ≡ suc (length name + pad) = omega arith in
    rw e (drop-padded name l pad)

get_or-drop : (l : List ℕ) (n : ℕ) → get_or l n 0 ≡ get_or (drop n l) 0 0
get_or-drop [] zero = refl
get_or-drop [] (suc n) = refl
get_or-drop (c ∷ l) zero = refl
get_or-drop (c ∷ l) (suc n) = get_or-drop l n

-- A name and an extension, with a dot between them where there is an extension.
abbrev pub dotted : List ℕ → List ℕ → List ℕ
dotted name [] = name
dotted name (c ∷ ext) = name ++ (b'.' ∷ (c ∷ ext))

-- The bytes of an item: a name that is padded with spaces, an extension, and the rest.
abbrev pub item_of : List ℕ → ℕ → List ℕ → List ℕ → List ℕ
item_of name pad ext rest = name ++ (replicate pad 0x20 ++ (ext ++ rest))

name_of :
    (item name ext rest : List ℕ) (c : ℕ)
    → fat16_to_proper_string item ≡ some name
    → drop 8 item ≡ ext ++ (c ∷ rest)
    → IsName ext
    → (c == 0 || c == 0x20) ≡ true
    → fat16_get_full_relative_filename item ≡ some (dotted name ext)
unfolding fat16_get_full_relative_filename
name_of item name [] rest c e q h t =
    rw (e, get_or-drop item 8, q, t, fat16_get_full_relative_filename) refl
name_of item name (x ∷ ext) rest c e q (a, b, h) t =
    let n : (x == 0 || x == 0x20) ≡ false = ground arith in
    rw
      (
        e,
        get_or-drop item 8,
        q,
        n,
        proper_stops (x ∷ ext) rest c (a, b, h) t,
        fat16_get_full_relative_filename,
      )
      refl

-- An item with a name of less than eight bytes, padded with spaces, and an extension that a zero or
-- a space follows, gets the name, a dot and the extension, or the name alone without one.
pub filename-dotted :
    (name ext rest : List ℕ) (pad c : ℕ)
    → IsName name
    → IsName ext
    → length name + suc pad ≡ 8
    → (c == 0 || c == 0x20) ≡ true
    → fat16_get_full_relative_filename (item_of name (suc pad) ext (c ∷ rest))
      ≡ some (dotted name ext)
filename-dotted name ext rest pad c h k l t =
    name_of (item_of name (suc pad) ext (c ∷ rest)) name ext rest c
      (proper_stops name (replicate pad 0x20 ++ (ext ++ (c ∷ rest))) 0x20 h refl)
      (ap (λ n. drop n (item_of name (suc pad) ext (c ∷ rest))) (sym l)
        ∙ drop-padded name (ext ++ (c ∷ rest)) (suc pad))
      k t

IsName-append : (s t : List ℕ) → IsName s → IsName t → IsName (s ++ t)
IsName-append [] t h k = k
IsName-append (c ∷ s) t (a, b, h) k = (a, b, IsName-append s t h k)

-- A name of all eight bytes runs on into the extension, which then comes twice.
pub full_name_runs_on :
    (name ext rest : List ℕ) (c : ℕ)
    → IsName name
    → IsName ext
    → length name ≡ 8
    → (c == 0 || c == 0x20) ≡ true
    → fat16_get_full_relative_filename (item_of name 0 ext (c ∷ rest))
      ≡ some (dotted (name ++ ext) ext)
full_name_runs_on name ext rest c h k l t =
    let whole : 8 ≡ length name + 0 = omega (arith, l) in
    name_of (item_of name 0 ext (c ∷ rest)) (name ++ ext) ext rest c
      (ap fat16_to_proper_string (sym (append_assoc name ext (c ∷ rest)))
        ∙ proper_stops (name ++ ext) rest c (IsName-append name ext h k) t)
      (ap (λ n. drop n (item_of name 0 ext (c ∷ rest))) whole
        ∙ drop-padded name (ext ++ (c ∷ rest)) 0)
      k t
