-- ===== src/Readline/Typed.antt =====
-- progs/stdlib/src/os.c: the line that is typed, as a list that the keys edit.
use tmp_os.Base.{
  ℕ, zero, suc, ◌+◌, ◌-◌, ◌%◌, ◌<◌, ◌≤◌, ◌≡◌, refl, ap, inl, inr, ◌==◌, Bool, true, false, ◌&&◌,
  Option, none, some, List, [], ◌∷◌, ◌++◌, ltb, leb, if◌then◌else◌, length, set, take, drop, arith,
  Bool-cases,
}
use tmp_os.Readline.{Reading, waiting, returned, getkey_block}

-- A key on a line: a backspace takes the last character away, and is a character itself on an
-- empty line.
abbrev pub type_key : List ℕ → ℕ → List ℕ
type_key line key =
    if (key == 8) && leb 1 (length line) then take (length line - 1) line else line ++ (key ∷ [])

-- A line, the characters shown while it was typed, and the keys left.
pub record Typed : Type 0 where
  pub line : List ℕ
  pub shown : List ℕ
  pub keys : List ℕ

abbrev pub shows : ℕ → Option Typed → Option Typed
shows key none = none
shows key (some t) = some (record t { shown = key ∷ t.shown })

-- The line that the keys, as `char`s, make of `line` until a return, or until it has no room.
unfoldable pub typed : ℕ → List ℕ → List ℕ → Option Typed
typed max line [] =
    if ltb (length line) (max - 1)
    then none
    else some (record { line = line; shown = []; keys = [] })
typed max line (key ∷ keys) =
    let same = typed max line keys in
    let more = shows (key % 256) (typed max (type_key line (key % 256)) keys) in
    if ltb (length line) (max - 1)
    then (if key == 0
        then same
        else if key % 256 == 13
        then some (record { line = line; shown = []; keys = keys })
        else more)
    else some (record { line = line; shown = []; keys = key ∷ keys })

-- What the loop comes to where the buffer holds `line`.
pub data Reads (max : ℕ) (echo : Bool) (out : List ℕ) : Option Typed → Reading → Type 0 where
  reads_none : {t : Option Typed} {r : Reading} → t ≡ none → r ≡ waiting → Reads max echo out t r
  reads_line :
      {t : Option Typed} {r : Reading} (out' line shown keys : List ℕ)
      → t ≡ some (record { line = line; shown = shown; keys = keys })
      → r ≡ returned out' (if echo then shown else []) keys
      → length line < max
      → take (length line + 1) out' ≡ line ++ (0 ∷ [])
      → length out' ≡ length out
      → drop max out' ≡ drop max out
      → Reads max echo out t r

module _ {ℓ} {A : Type ℓ} where
  pub take-set : (xs : List A) (i : ℕ) (v : A) → take i (set xs i v) ≡ take i xs
  take-set [] zero v = refl
  take-set [] (suc i) v = refl
  take-set (x ∷ xs) zero v = refl
  take-set (x ∷ xs) (suc i) v = ap (λ l. x ∷ l) (take-set xs i v)

  pub take-suc-set :
      (xs : List A) (i : ℕ) (v : A)
      → i < length xs
      → take (suc i) (set xs i v) ≡ take i xs ++ (v ∷ [])
  take-suc-set [] i v h = absurd (omega arith)
  take-suc-set (x ∷ xs) zero v h = refl
  take-suc-set (x ∷ xs) (suc i) v h = ap (λ l. x ∷ l) (take-suc-set xs i v (omega arith))

  pub drop-set : (xs : List A) (i n : ℕ) (v : A) → i < n → drop n (set xs i v) ≡ drop n xs
  drop-set xs i zero v h = absurd (omega arith)
  drop-set [] i (suc n) v h = refl
  drop-set (x ∷ xs) zero (suc n) v h = refl
  drop-set (x ∷ xs) (suc i) (suc n) v h = drop-set xs i n v (omega arith)

  pub take-take : (xs : List A) (m n : ℕ) → m ≤ n → take m (take n xs) ≡ take m xs
  take-take xs zero n h = refl
  take-take xs (suc m) zero h = absurd (omega arith)
  take-take [] (suc m) (suc n) h = refl
  take-take (x ∷ xs) (suc m) (suc n) h = ap (λ l. x ∷ l) (take-take xs m n (omega arith))

-- The keys up to the first that is not 0 change nothing.
pub typed-getkey :
    (max : ℕ) (line keys : List ℕ)
    → length line < max - 1
    → typed max line keys ≡ elim (getkey_block keys) [
      | none ↦ none
      | some (key, keys') ↦
          if key == 13
          then some (record { line = line; shown = []; keys = keys' })
          else shows key (typed max (type_key line key) keys')
    ]
unfolding typed getkey_block
typed-getkey max line [] h =
    let room : ltb (length line) (max - 1) ≡ true = ground arith in rw room refl
typed-getkey max line (key ∷ keys) h =
    let room : ltb (length line) (max - 1) ≡ true = ground arith in
    elim (Bool-cases (key == 0)) [
      | inl e ↦ rw (room, e) (typed-getkey max line keys h)
      | inr e ↦ rw (room, e) refl
    ]

pub typed_full :
    (max : ℕ) (line keys : List ℕ)
    → ltb (length line) (max - 1) ≡ false
    → typed max line keys ≡ some (record { line = line; shown = []; keys = keys })
unfolding typed
typed_full max line [] full = rw full refl
typed_full max line (key ∷ keys) full = rw full refl

pub length-getkey :
    (keys keys' : List ℕ) (key : ℕ)
    → getkey_block keys ≡ some (key, keys')
    → length keys' < length keys
unfolding getkey_block
length-getkey [] keys' key e = cc
length-getkey (k ∷ keys) keys' key e = elim (Bool-cases (k == 0)) [
  | inl z ↦ omega (arith, length-getkey keys keys' key (rw z at e))
  | inr z ↦ let q : keys ≡ keys' = cc (rw z at e) in rw (← q) (omega arith)
]
