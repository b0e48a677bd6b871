-- ===== src/Strings/Copy.antt =====
-- The copies: what they leave at the destination, and where they write too much.
use tmp_os.Base.{
  ℕ, zero, suc, ◌^◌, ◌≤◌, ◌<◌, ◌≡◌, ◌∙◌, length-append, refl, ap, none, some, List, [], ◌∷◌, length,
  ◌++◌, arith, take, drop, replicate,
}
use tmp_os.Strings.{memset, memcpy, memwrite, strcpy, strncpy, strdup}
use tmp_os.Strings.Length.{IsText, stored, strlen-stored}

-- `memset` inside its buffer fills the first `n` bytes and keeps the rest.
pub memset_lem :
    (n : ℕ) (d : List ℕ) (c : ℕ) → n ≤ length d → memset d c n ≡ some (replicate n c ++ drop n d)
unfolding memset
memset_lem zero d c h = refl
memset_lem (suc n) [] c h = absurd (omega arith)
memset_lem (suc n) (x ∷ d) c h = rw (memset_lem n d c (omega arith), memset)

-- `memcpy` inside both buffers copies the first `n` bytes and keeps the rest.
pub memcpy_lem :
    (n : ℕ) (d s : List ℕ)
    → n ≤ length d
    → n ≤ length s
    → memcpy d s n ≡ some (take n s ++ drop n d)
unfolding memcpy
memcpy_lem zero d s h k = refl
memcpy_lem (suc n) [] s h k = absurd (omega arith)
memcpy_lem (suc n) (x ∷ d) [] h k = absurd (omega arith)
memcpy_lem (suc n) (x ∷ d) (a ∷ s) h k = rw (memcpy_lem n d s (omega arith) (omega arith), memcpy)

take-stored : (s rest : List ℕ) → take (length s) (stored s rest) ≡ s
take-stored [] rest = refl
take-stored (c ∷ s) rest = ap (λ x. c ∷ x) (take-stored s rest)

-- `memwrite` of a text that fits copies it without its terminator.
pub memwrite_lem :
    (s rest d : List ℕ)
    → IsText s
    → length s < 2 ^ 32
    → length s ≤ length d
    → memwrite d (stored s rest) ≡ some (s ++ drop (length s) d)
unfolding memwrite
memwrite_lem s rest d t b h =
    rw (strlen-stored s rest t b, memwrite)
      (memcpy_lem (length s) d (stored s rest) h (omega (arith, length-append s (0 ∷ rest)))
        ∙ ap (λ x. some (x ++ drop (length s) d)) (take-stored s rest))

-- `strcpy` into a buffer with room for the text and its terminator copies both and keeps the rest.
pub strcpy_lem :
    (s rest d : List ℕ)
    → IsText s
    → length s < length d
    → strcpy d (stored s rest) ≡ some (s ++ (0 ∷ drop (suc (length s)) d))
unfolding strcpy
strcpy_lem [] rest [] t h = absurd (omega arith)
strcpy_lem [] rest (x ∷ d) t h = refl
strcpy_lem (c ∷ s) rest [] t h = absurd (omega arith)
strcpy_lem (c ∷ s) rest (x ∷ d) (a, t) h = ground (arith, strcpy_lem s rest d t)

-- `strncpy` of a text of at most `n` bytes into a buffer with room for its terminator copies both
-- and keeps the rest.
pub strncpy_short :
    (s rest d : List ℕ) (n : ℕ)
    → IsText s
    → length s ≤ n
    → length s < length d
    → strncpy d (stored s rest) n ≡ some (s ++ (0 ∷ drop (suc (length s)) d))
unfolding strncpy
strncpy_short s rest [] n t l h = absurd (omega arith)
strncpy_short [] rest (x ∷ d) zero t l h = refl
strncpy_short [] rest (x ∷ d) (suc n) t l h = refl
strncpy_short (c ∷ s) rest (x ∷ d) zero t l h = absurd (omega arith)
strncpy_short (c ∷ s) rest (x ∷ d) (suc n) (a, t) l h = ground (arith, strncpy_short s rest d n t)

-- `strncpy` of a text of `n` bytes or more into a buffer of `n` bytes writes the terminator behind
-- the buffer.
pub strncpy_overflows :
    (s rest d : List ℕ) (n : ℕ)
    → IsText s
    → n ≤ length s
    → length d ≡ n
    → strncpy d (stored s rest) n ≡ none
unfolding strncpy
strncpy_overflows s rest [] n t l e = refl
strncpy_overflows s rest (x ∷ d) zero t l e = absurd (omega arith)
strncpy_overflows [] rest (x ∷ d) (suc n) t l e = absurd (omega arith)
strncpy_overflows (c ∷ s) rest (x ∷ d) (suc n) (a, t) l e =
    ground (arith, strncpy_overflows s rest d n t)

take-append_left : (s r : List ℕ) → take (length s) (s ++ r) ≡ s
take-append_left [] r = refl
take-append_left (c ∷ s) r = ap (λ l. c ∷ l) (take-append_left s r)

-- `strdup` copies the text and its terminator, one byte more than it asks for.
pub strdup_overflows :
    (s rest : List ℕ)
    → IsText s
    → length s < 2 ^ 32
    → strdup (stored s rest) ≡ some (length s, s ++ (0 ∷ []))
unfolding strdup
strdup_overflows s rest t l = rw (strlen-stored s rest t l, strdup, take-append_left)
