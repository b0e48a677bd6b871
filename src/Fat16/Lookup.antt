-- ===== src/Fat16/Lookup.antt =====
-- src/fs/fat/fat16.c: which item of a directory a path leads to.
use mathlib.Core.Path.{subst}
use tmp_os.Base.{
  ℕ, zero, suc, ◌+◌, ◌*◌, ◌<◌, ◌≡◌, ◌≢◌, refl, sym, ◌∙◌, ap, ◌⊎◌, inl, inr, Bool, true, false,
  Option, none, some, List, [], ◌∷◌, arith, take, drop, Bool-cases, Option-cases,
}
use tmp_os.Disk.{Controller}
use tmp_os.Fat16.{FatDirectory, FatPrivate}
use tmp_os.Fat16.Items.{item_size, is_subdirectory}
use tmp_os.Fat16.Directory.{
  FatItem, file_item, directory_item, has_name, find_loop, fat16_find_item_in_directory,
  fat16_new_fat_item_for_directory_item, fat16_clone_directory_item, fat16_get_directory_entry,
  fat16_load_fat_directory, walk,
}

-- The memory of a directory from item `i` on.
abbrev pub nth_item : List ℕ → ℕ → List ℕ
nth_item mem i = drop (item_size * i) mem

pub drop-drop : (a b : ℕ) (xs : List ℕ) → drop a (drop b xs) ≡ drop (b + a) xs
drop-drop a zero xs = let e : 0 + a ≡ a = omega arith in rw e refl
drop-drop zero (suc b) [] = let e : suc b + 0 ≡ suc b = omega arith in rw e refl
drop-drop (suc a) (suc b) [] = let e : suc b + suc a ≡ suc (b + suc a) = omega arith in rw e refl
drop-drop a (suc b) (x ∷ xs) =
    let e : suc b + a ≡ suc (b + a) = omega arith in rw e (drop-drop a b xs)

next_item : (mem : List ℕ) (i : ℕ) → nth_item (drop item_size mem) i ≡ nth_item mem (suc i)
next_item mem i =
    let e : item_size + item_size * i ≡ item_size * suc i = omega arith in
    drop-drop (item_size * i) item_size mem ∙ ap (λ k. drop k mem) e

-- None of the first `n` items has the name.
abbrev pub NoMatch : List ℕ → List ℕ → ℕ → Type 0
NoMatch mem name n = (i : ℕ) → i < n → has_name (nth_item mem i) name ≡ some false

-- Item `j` is the last of the first `n` that the code's comparison takes for the name; and of these
-- none that it takes for the name is a directory.
pub record LastMatch (mem name : List ℕ) (n j : ℕ) : Type 0 where
  pub inside : j < n
  pub matches : has_name (nth_item mem j) name ≡ some true
  pub later : (i : ℕ) → j < i → i < n → has_name (nth_item mem i) name ≡ some false
  pub answered :
      (i : ℕ)
      → i < n
      → (has_name (nth_item mem i) name ≡ some false)
        ⊎ ((has_name (nth_item mem i) name ≡ some true)
            × (is_subdirectory (nth_item mem i) ≡ false))

find_loop-NoMatch :
    (c : Controller) (private : FatPrivate) (name : List ℕ) (n : ℕ) (mem : List ℕ)
    (f_item : Option FatItem)
    → NoMatch mem name n
    → find_loop true c private name n mem f_item ≡ some f_item
unfolding find_loop
find_loop-NoMatch c private name zero mem f_item h = refl
find_loop-NoMatch c private name (suc n) mem f_item h =
    let here : has_name mem name ≡ some false = h 0 (omega arith) in
    rw (here, find_loop)
      (find_loop-NoMatch c private name n (drop item_size mem) f_item
        (λ i l. ap (λ x. has_name x name) (next_item mem i) ∙ h (suc i) (omega arith)))

new_item :
    (c : Controller) (private : FatPrivate) (item : List ℕ)
    → is_subdirectory item ≡ false
    → fat16_new_fat_item_for_directory_item true c private item
      ≡ some (some (file_item (take item_size item)))
unfolding fat16_new_fat_item_for_directory_item fat16_clone_directory_item
new_item c private item h = rw (h, fat16_new_fat_item_for_directory_item) refl

LastMatch-tail :
    (mem name : List ℕ) (n j : ℕ)
    → LastMatch mem name (suc n) (suc j)
    → LastMatch (drop item_size mem) name n j
LastMatch-tail mem name n j m =
    let at = λ (i : ℕ). ap (λ x. has_name x name) (next_item mem i) in
    record {
      inside = omega (arith, m.inside);
      matches = at j ∙ m.matches;
      later = λ i a b. at i ∙ m.later (suc i) (omega arith) (omega arith);
      answered = λ i b. elim (m.answered (suc i) (omega arith)) [
        | inl e ↦ inl (at i ∙ e)
        | inr (e, s) ↦ inr (at i ∙ e, ap is_subdirectory (next_item mem i) ∙ s)
      ];
    }

find_loop-LastMatch :
    (c : Controller) (private : FatPrivate) (name : List ℕ) (n j : ℕ) (mem : List ℕ)
    (f_item : Option FatItem)
    → LastMatch mem name n j
    → find_loop true c private name n mem f_item
      ≡ some (some (file_item (take item_size (nth_item mem j))))
unfolding find_loop
find_loop-LastMatch c private name zero j mem f_item m = absurd (omega (arith, m.inside))
find_loop-LastMatch c private name (suc n) zero mem f_item m = elim (m.answered 0 (omega arith)) [
  | inl e ↦ absurd (false_not_true (sym e ∙ m.matches))
  | inr (e, s) ↦
      rw (e, new_item c private mem s, find_loop)
        (find_loop-NoMatch c private name n (drop item_size mem)
          (some (file_item (take item_size mem)))
          (λ i l.
            ap (λ x. has_name x name) (next_item mem i)
            ∙ m.later (suc i) (omega arith) (omega arith)))
]
  where
    false_not_true : some false ≢ some true
    false_not_true e = cc
find_loop-LastMatch c private name (suc n) (suc j) mem f_item m =
    let rest = λ (o : Option FatItem).
      find_loop-LastMatch c private name n j (drop item_size mem) o (LastMatch-tail mem name n j m)
      ∙ ap (λ x. some (some (file_item (take item_size x)))) (next_item mem j) in
    elim (m.answered 0 (omega arith)) [
      | inl e ↦ rw (e, find_loop) (rest f_item)
      | inr (e, s) ↦
          rw (e, new_item c private mem s, find_loop) (rest (some (file_item (take item_size mem))))
    ]

-- Where there is memory for the items that it makes, and none of the first `total` items of the
-- directory that the code's comparison `istrncmp` takes for the name is a subdirectory,
-- `fat16_find_item_in_directory` returns the last of these items that is taken for the name, as a
-- file.
pub find_item-LastMatch :
    (c : Controller) (private : FatPrivate) (dir : FatDirectory) (name : List ℕ) (j : ℕ)
    → LastMatch dir.item name dir.total j
    → fat16_find_item_in_directory true c private dir name
      ≡ some (some (file_item (take item_size (nth_item dir.item j))))
unfolding fat16_find_item_in_directory
find_item-LastMatch c private dir name j m =
    find_loop-LastMatch c private name dir.total j dir.item none m

-- A file that is not among the first `total` items of the root directory is not found, and `total`
-- leaves the deleted items out: each of them hides an item at the end.
pub entry-NoMatch :
    (c : Controller) (private : FatPrivate) (part : List ℕ) (parts : List (List ℕ))
    → NoMatch private.root_dir.item part private.root_dir.total
    → fat16_get_directory_entry true c private (part ∷ parts) ≡ some none
unfolding fat16_get_directory_entry fat16_find_item_in_directory
entry-NoMatch c private part parts h =
    rw
      (
        find_loop-NoMatch c private part private.root_dir.total private.root_dir.item none h,
        fat16_get_directory_entry,
      )
      refl

-- A found item is a file.
abbrev AllFiles : Option (Option FatItem) → Type 0
AllFiles none = Unit
AllFiles (some none) = Unit
AllFiles (some (some (file_item item))) = Unit
AllFiles (some (some (directory_item dir))) = ⊥

new_item-AllFiles :
    (c : Controller) (private : FatPrivate) (item : List ℕ)
    → AllFiles (fat16_new_fat_item_for_directory_item true c private item)
unfolding fat16_new_fat_item_for_directory_item fat16_clone_directory_item
new_item-AllFiles c private item = elim (Bool-cases (is_subdirectory item)) [
  | inl e ↦ elim (Option-cases (fat16_load_fat_directory c private item)) [
    | inl q ↦ rw (e, q, fat16_new_fat_item_for_directory_item) tt
    | inr (d, q) ↦ rw (e, q, fat16_new_fat_item_for_directory_item) tt
  ]
  | inr e ↦ rw (e, fat16_new_fat_item_for_directory_item) tt
]

answer_cases : (o : Option Bool) → (o ≡ none) ⊎ (o ≡ some true) ⊎ (o ≡ some false)
answer_cases none = inl refl
answer_cases (some true) = inr (inl refl)
answer_cases (some false) = inr (inr refl)

find_loop-AllFiles :
    (c : Controller) (private : FatPrivate) (name : List ℕ) (n : ℕ) (mem : List ℕ)
    (f_item : Option FatItem)
    → AllFiles (some f_item)
    → AllFiles (find_loop true c private name n mem f_item)
unfolding find_loop
find_loop-AllFiles c private name zero mem f_item h = h
find_loop-AllFiles c private name (suc n) mem f_item h = elim (answer_cases (has_name mem name)) [
  | inl e ↦ rw (e, find_loop) tt
  | inr (inr e) ↦
      rw (e, find_loop) (find_loop-AllFiles c private name n (drop item_size mem) f_item h)
  | inr (inl e) ↦ elim (Option-cases (fat16_new_fat_item_for_directory_item true c private mem)) [
    | inl q ↦ rw (e, q, find_loop) tt
    | inr (made, q) ↦
        rw (e, q, find_loop)
          (find_loop-AllFiles c private name n (drop item_size mem) made
            (subst AllFiles q (new_item-AllFiles c private mem)))
  ]
]

walk_file :
    (c : Controller) (private : FatPrivate) (f : FatItem) (b : List ℕ) (parts : List (List ℕ))
    → AllFiles (some (some f))
    → walk true c private (some f) (b ∷ parts) ≡ some none
unfolding walk
walk_file c private (file_item item) b parts h = refl
walk_file c private (directory_item dir) b parts h = absurd h

-- Nothing is found on a path of two parts or more, whatever is on the disk: if the search for its
-- first part returns, `fat16_get_directory_entry` returns NULL.
pub deeper_path :
    (c : Controller) (private : FatPrivate) (a b : List ℕ) (parts : List (List ℕ))
    (f : Option FatItem)
    → fat16_find_item_in_directory true c private private.root_dir a ≡ some f
    → fat16_get_directory_entry true c private (a ∷ b ∷ parts) ≡ some none
unfolding fat16_get_directory_entry fat16_find_item_in_directory
deeper_path c private a b parts none e = rw (e, fat16_get_directory_entry) refl
deeper_path c private a b parts (some f) e =
    rw (e, fat16_get_directory_entry)
      (walk_file c private f b parts (
        subst AllFiles e
          (find_loop-AllFiles c private a private.root_dir.total private.root_dir.item none tt)))
