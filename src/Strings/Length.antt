-- ===== src/Strings/Length.antt =====
-- `strlen` and `strnlen` on zero-terminated strings.
use tmp_os.Base.{
  ℕ, ◌+◌, ◌^◌, ◌≤◌, ◌<◌, ◌≡◌, ◌≢◌, ◌∙◌, ap, refl, none, some, List, [], ◌∷◌, length, ◌++◌, arith,
  length-append,
}
use tmp_os.Base.Int.{pos}
use tmp_os.Strings.{strlen, strlen_loop, strnlen, strnlen_loop}

-- No byte is the terminator.
abbrev pub IsText : List ℕ → Type 0
IsText [] = Unit
IsText (c ∷ s) = (c ≢ 0) × IsText s

-- A string in memory: its text, the terminator, and what lies behind.
abbrev pub stored : List ℕ → List ℕ → List ℕ
stored s rest = s ++ (0 ∷ rest)

strlen_loop-stored :
    (s rest : List ℕ) (count : ℕ)
    → IsText s
    → count + length s < 2 ^ 32
    → strlen_loop (stored s rest) count ≡ some (count + length s)
unfolding strlen_loop
strlen_loop-stored [] rest count t b = ap some (omega arith)
strlen_loop-stored (c ∷ s) rest count (n, t) b =
    ground (arith, strlen_loop-stored s rest (count + 1) t)

-- `strlen` of a terminated string counts its text.
pub strlen-stored :
    (s rest : List ℕ) → IsText s → length s < 2 ^ 32 → strlen (stored s rest) ≡ some (length s)
unfolding strlen
strlen-stored s rest t b = strlen_loop-stored s rest 0 t (omega arith) ∙ ap some (omega arith)

strnlen_loop-stored :
    (s rest : List ℕ) (max count : ℕ)
    → IsText s
    → count + length s ≤ max
    → max < 2 ^ 32
    → strnlen_loop (stored s rest) max count ≡ some (count + length s)
unfolding strnlen_loop
strnlen_loop-stored [] rest max count t b l = ground arith
strnlen_loop-stored (c ∷ s) rest max count (n, t) b l =
    ground (arith, strnlen_loop-stored s rest max (count + 1) t)

-- `strnlen` of a text of at most `max` bytes counts it.
pub strnlen-stored :
    (s rest : List ℕ) (max : ℕ)
    → IsText s
    → length s ≤ max
    → max < 2 ^ 32
    → strnlen (stored s rest) max ≡ some (pos (length s))
unfolding strnlen
strnlen-stored s rest max t b l = ground (arith, strnlen_loop-stored s rest max 0 t)

strnlen_loop_past :
    (s : List ℕ) (max count : ℕ)
    → max < count
    → count + length s < 2 ^ 32
    → strnlen_loop s max count ≡ none
unfolding strnlen_loop
strnlen_loop_past [] max count a b = refl
strnlen_loop_past (c ∷ s) max count a b = ground (arith, strnlen_loop_past s max (count + 1))

strnlen_loop_long :
    (s rest : List ℕ) (max count : ℕ)
    → IsText s
    → max < count + length s
    → count ≤ max
    → count + length s + length rest + 1 < 2 ^ 32
    → strnlen_loop (stored s rest) max count ≡ none
unfolding strnlen_loop
strnlen_loop_long [] rest max count t a b l = absurd (omega arith)
strnlen_loop_long (c ∷ s) rest max count (n, t) a b l = ground (
  arith,
  strnlen_loop_long s rest max (count + 1) t,
  strnlen_loop_past (stored s rest) max (count + 1),
  length-append s (0 ∷ rest),
)

-- `strnlen` of a longer text never stops at its terminator: it reads beyond the buffer, however
-- far that reaches.
pub strnlen_long :
    (s rest : List ℕ) (max : ℕ)
    → IsText s
    → max < length s
    → length s + length rest + 1 < 2 ^ 32
    → strnlen (stored s rest) max ≡ none
unfolding strnlen
strnlen_long s rest max t a l = ground (arith, strnlen_loop_long s rest max 0 t)
