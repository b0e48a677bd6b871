-- ===== src/Strings.antt =====
-- The string and memory routines of src/utils.c, over the bytes from a pointer to the end of the
-- buffer that it points into. `none`: a byte beyond the buffer is read.
pub mod Length
pub mod Compare
pub mod Copy
use tmp_os.Base.{
  ℕ, zero, suc, ◌+◌, ◌-◌, ◌%◌, ◌^◌, Bool, true, false, not, ◌&&◌, ◌||◌, Option, none, some, List,
  [], ◌∷◌, ltb, leb, ◌==◌, if◌then◌else◌, length, get_elem?, set, take, drop, ◌++◌,
}
use tmp_os.Base.Int.{ℤ, pos, negsuc, sub_ℕ}

-- The difference of two `char`s, which are signed.
abbrev pub char_diff : ℕ → ℕ → ℤ
char_diff a b = sub_ℕ ((a + 128) % 256) ((b + 128) % 256)

-- The loop of `strlen`.
strlen_loop : List ℕ → ℕ → Option ℕ
strlen_loop [] count = none
strlen_loop (c ∷ s) count =
    let rest = strlen_loop s ((count + 1) % 2 ^ 32) in if c == 0 then some count else rest

unfoldable pub strlen : List ℕ → Option ℕ
unfolding strlen_loop
strlen s = strlen_loop s 0

-- The loop of `strnlen`, which goes on while `count > max`.
strnlen_loop : List ℕ → ℕ → ℕ → Option ℕ
strnlen_loop [] max count = none
strnlen_loop (c ∷ s) max count =
    let rest = strnlen_loop s max ((count + 1) % 2 ^ 32) in
    if not (c == 0) || ltb max count then rest else some count

unfoldable pub strnlen : List ℕ → ℕ → Option ℤ
unfolding strnlen_loop
strnlen s max = elim (strnlen_loop s max 0) [
  | none ↦ none
  | some count ↦ some (if ltb max count then negsuc 0 else pos count)
]

unfoldable pub isdigit : ℕ → Bool
isdigit c = leb 48 c && leb c 57

unfoldable pub memcmp : List ℕ → List ℕ → ℕ → Option ℤ
memcmp s t zero = some (pos 0)
memcmp [] t (suc n) = none
memcmp (a ∷ s) [] (suc n) = none
memcmp (a ∷ s) (b ∷ t) (suc n) =
    let rest = memcmp s t n in if a == b then rest else some (char_diff a b)

unfoldable pub strcmp : List ℕ → List ℕ → Option ℤ
strcmp [] t = none
strcmp (a ∷ s) [] = none
strcmp (a ∷ s) (b ∷ t) =
    let rest = strcmp s t in if a == b && not (a == 0) then rest else some (char_diff a b)

unfoldable pub strncmp : List ℕ → List ℕ → ℕ → Option ℤ
strncmp s t zero = some (pos 0)
strncmp [] t (suc n) = none
strncmp (a ∷ s) [] (suc n) = none
strncmp (a ∷ s) (b ∷ t) (suc n) =
    let rest = strncmp s t n in if not (a == b) || a == 0 then some (char_diff a b) else rest

-- By the bytes left of `len`; `i` is the index reached.
terminator_loop : ℕ → List ℕ → ℕ → ℕ → Option ℕ
terminator_loop zero s c i = some 0
terminator_loop (suc n) [] c i = none
terminator_loop (suc n) (a ∷ s) c i =
    let rest = terminator_loop n s c (i + 1) in if a == 0 || a == c then some i else rest

unfoldable pub strnlen_terminator : List ℕ → ℕ → ℕ → Option ℕ
unfolding terminator_loop
strnlen_terminator s len c = terminator_loop len s c 0

unfoldable pub tolower : ℕ → ℕ
tolower c = if leb b'A' c && leb c b'Z' then c + 32 else c

-- After a mismatch both pointers have moved on: the result is about the next two bytes.
unfoldable pub istrncmp : List ℕ → List ℕ → ℕ → Option ℤ
istrncmp s t zero = some (pos 0)
istrncmp [] t (suc n) = none
istrncmp (a ∷ s) [] (suc n) = none
istrncmp (a ∷ s) (b ∷ t) (suc n) =
    let rest = istrncmp s t n in
    let next : Option ℤ = elim (get_elem? s 0) [
      | none ↦ none
      | some x ↦ elim (get_elem? t 0) [
        | none ↦ none
        | some y ↦ some (sub_ℕ (tolower x) (tolower y))
      ]
    ] in
    if tolower a == tolower b then rest else next

-- The routines that write return the new contents of the destination. `none`: they read or write
-- beyond a buffer.
unfoldable pub memset : List ℕ → ℕ → ℕ → Option (List ℕ)
memset d c zero = some d
memset [] c (suc n) = none
memset (x ∷ d) c (suc n) = elim (memset d c n) [ none ↦ none | some r ↦ some (c ∷ r) ]

unfoldable pub memcpy : List ℕ → List ℕ → ℕ → Option (List ℕ)
memcpy d s zero = some d
memcpy d [] (suc n) = none
memcpy [] (a ∷ s) (suc n) = none
memcpy (x ∷ d) (a ∷ s) (suc n) = elim (memcpy d s n) [ none ↦ none | some r ↦ some (a ∷ r) ]

-- For a destination apart from the text, so that `strlen` is the same in each round.
unfoldable pub memwrite : List ℕ → List ℕ → Option (List ℕ)
unfolding memcpy
memwrite addr str = elim (strlen str) [ none ↦ none | some n ↦ memcpy addr str n ]

unfoldable pub strcpy : List ℕ → List ℕ → Option (List ℕ)
strcpy [] s = none
strcpy (x ∷ d) [] = none
strcpy (x ∷ d) (a ∷ s) =
    let rest : Option (List ℕ) = elim (strcpy d s) [ none ↦ none | some r ↦ some (a ∷ r) ] in
    if a == 0 then some (0 ∷ d) else rest

-- For two different pointers that are not NULL. The terminator is written behind the last of at
-- most `n` bytes.
unfoldable pub strncpy : List ℕ → List ℕ → ℕ → Option (List ℕ)
strncpy [] s n = none
strncpy (x ∷ d) s zero = some (0 ∷ d)
strncpy (x ∷ d) [] (suc n) = none
strncpy (x ∷ d) (a ∷ s) (suc n) =
    let rest : Option (List ℕ) = elim (strncpy d s n) [ none ↦ none | some r ↦ some (a ∷ r) ] in
    if a == 0 then some (0 ∷ d) else rest

-- The size that `strdup` asks for, and the bytes that it then writes there.
unfoldable pub strdup : List ℕ → Option (ℕ × List ℕ)
unfolding strlen
strdup s = elim (strlen s) [ none ↦ none | some len ↦ some (len, take len s ++ (0 ∷ [])) ]
