-- ===== src/Print/Format.antt =====
-- `printk` prints the pieces that a format spells, with their arguments.
use tmp_os.Base.{
  ℕ, ◌+◌, ◌%◌, ◌≡◌, ◌≢◌, ◌∙◌, refl, ap, true, Option, none, some, List, [], ◌∷◌, ◌++◌, ◌==◌,
  if◌then◌else◌, length, arith, length-append,
}
use mathlib.Core.List.{append_assoc, append-nil}
use tmp_os.Base.Int.{signed32}
use tmp_os.Terminal.{Terminal, terminal_writechar, print, red, black}
use tmp_os.Terminal.Bounds.{kwrite-print}
use tmp_os.Strings.Length.{stored}
use tmp_os.Print.{
  itoa, itoau, makeaddr, Arg, word, text, got, getarg, printarg, printk, printk_loop,
}

-- One character as it stands, or one directive with its argument.
pub data Piece : Type 0 where
  lit : ℕ → Piece
  percent : Piece
  decimal : ℕ → Piece
  hex : ℕ → Piece
  string : List ℕ → Piece
  char : ℕ → Piece
  pointer : ℕ → Piece

abbrev pub directive : ℕ → List ℕ
directive c = b'%' ∷ c ∷ []

-- The format that spells a piece, the arguments it takes, and the text it stands for.
unfoldable pub spell : Piece → List ℕ
spell (lit c) = c ∷ []
spell percent = directive b'%'
spell (decimal w) = directive b'i'
spell (hex w) = directive b'X'
spell (string s) = directive b's'
spell (char c) = directive b'c'
spell (pointer w) = directive b'p'

unfoldable pub args_of : Piece → List Arg
args_of (lit c) = []
args_of percent = []
args_of (decimal w) = word w ∷ []
args_of (hex w) = word w ∷ []
args_of (string s) = text s ∷ []
args_of (char c) = word c ∷ []
args_of (pointer w) = word w ∷ []

unfoldable pub text_of : Piece → Option (List ℕ)
text_of (lit c) = some (c ∷ [])
text_of percent = some (b'%' ∷ [])
text_of (decimal w) = itoa true 10 (signed32 w)
text_of (hex w) = itoa true 16 (signed32 w)
text_of (string s) = some s
text_of (char c) = some (if c % 256 == 0 then [] else (c % 256) ∷ [])
text_of (pointer w) = elim (itoau true 16 w) [ none ↦ none | some s ↦ makeaddr s ]

-- A literal is neither the terminator nor the start of a directive.
abbrev pub IsPiece : Piece → Type 0
IsPiece (lit c) = (c ≢ 0) × (c ≢ b'%')
IsPiece _ = Unit

unfoldable pub spell_all : List Piece → List ℕ
spell_all [] = []
spell_all (p ∷ ps) = spell p ++ spell_all ps

unfoldable pub args_all : List Piece → List Arg
args_all [] = []
args_all (p ∷ ps) = args_of p ++ args_all ps

-- The pieces' texts, one behind the other.
pub data Renders : List Piece → List ℕ → Type 0 where
  nil : Renders [] []
  cons :
      {p : Piece} {ps : List Piece} {s out : List ℕ}
      → IsPiece p
      → text_of p ≡ some s
      → Renders ps out
      → Renders (p ∷ ps) (s ++ out)

pub print-append : (a b : List ℕ) (t : Terminal) → print (a ++ b) t ≡ print b (print a t)
unfolding print
print-append [] b t = refl
print-append (c ∷ a) b t = print-append a b (terminal_writechar c red black t)

loop_plain :
    (c : ℕ) (s rest : List ℕ) (args : List Arg) (i : ℕ) (t : Terminal)
    → c ≢ 0
    → c ≢ b'%'
    → printk_loop true (c ∷ stored s rest) args i t
      ≡ printk_loop true (stored s rest) args (i + 1) (terminal_writechar c red black t)
unfolding printk_loop
loop_plain c [] rest args i t a b = ground arith
loop_plain c (d ∷ s) rest args i t a b = ground arith

loop_directive :
    (d : ℕ) (s form : List ℕ) (args args' : List Arg) (i : ℕ) (t : Terminal)
    → getarg true d args ≡ got (some s) args'
    → printk_loop true (b'%' ∷ d ∷ form) args i t
      ≡ printk_loop true form args' (i + length s) (print s t)
unfolding printk_loop printarg
loop_directive d s form args args' i t e =
    rw (e, printk_loop, printarg, kwrite-print)
      (ap (λ n. printk_loop true form args' (i + n) (print s t)) (omega arith))

address :
    (w : ℕ) (s : List ℕ) (args : List Arg)
    → text_of (pointer w) ≡ some s
    → getarg true b'p' (word w ∷ args) ≡ got (some s) args
unfolding text_of getarg
address w s args e = ground arith

-- A directive's argument gives its text.
getarg-text :
    (p : Piece) (s : List ℕ) (form : List ℕ) (args : List Arg) (i : ℕ) (t : Terminal)
    (rest : List ℕ)
    → IsPiece p
    → text_of p ≡ some s
    → printk_loop true (stored (spell p ++ form) rest) (args_of p ++ args) i t
      ≡ printk_loop true (stored form rest) args (i + length s) (print s t)
unfolding text_of spell args_of getarg print
getarg-text (lit c) s form args i t rest h e =
    let q : c ∷ [] ≡ s = cc in rw (← q) (loop_plain c form rest args i t h.0 h.1)
getarg-text percent s form args i t rest h e =
    loop_directive b'%' s (stored form rest) args args i t (ap (λ o. got o args) e)
getarg-text (decimal w) s form args i t rest h e =
    loop_directive b'i' s (stored form rest) (word w ∷ args) args i t (ap (λ o. got o args) e)
getarg-text (hex w) s form args i t rest h e =
    loop_directive b'X' s (stored form rest) (word w ∷ args) args i t (ap (λ o. got o args) e)
getarg-text (string x) s form args i t rest h e =
    loop_directive b's' s (stored form rest) (text x ∷ args) args i t (ap (λ o. got o args) e)
getarg-text (char c) s form args i t rest h e =
    loop_directive b'c' s (stored form rest) (word c ∷ args) args i t (ap (λ o. got o args) e)
getarg-text (pointer w) s form args i t rest h e =
    loop_directive b'p' s (stored form rest) (word w ∷ args) args i t (address w s args e)

loop_end :
    (rest : List ℕ) (args : List Arg) (i : ℕ) (t : Terminal)
    → printk_loop true (0 ∷ rest) args i t ≡ some (i, t)
unfolding printk_loop
loop_end [] args i t = refl
loop_end (d ∷ rest) args i t = refl

printk_loop-Renders :
    (ps : List Piece) (out rest : List ℕ) (args : List Arg) (i : ℕ) (t : Terminal)
    → Renders ps out
    → printk_loop true (stored (spell_all ps) rest) (args_all ps ++ args) i t
      ≡ some (i + length out, print out t)
unfolding spell_all args_all
printk_loop-Renders ps out rest args i t nil =
    loop_end rest args i t ∙ unfold print in ap (λ n. some (n, t)) (omega arith)
printk_loop-Renders ps out rest args i t (cons {p} {ps = qs} {s} {out = o} h e r) =
    rw (append_assoc (args_of p) (args_all qs) args) (
      getarg-text p s (spell_all qs) (args_all qs ++ args) i t rest h e
      ∙ printk_loop-Renders qs o rest args (i + length s) (print s t) r
      ∙ rw (print-append s o t)
          (ap (λ n. some (n, print o (print s t))) (omega (arith, length-append s o))))

-- `printk` of the format that the pieces spell, given their arguments, prints their texts one
-- behind the other and returns how many characters these are.
pub printk-Renders :
    (ps : List Piece) (out rest : List ℕ) (t : Terminal)
    → Renders ps out
    → printk true (stored (spell_all ps) rest) (args_all ps) t ≡ some (length out, print out t)
unfolding printk
printk-Renders ps out rest t r =
    rw (← append-nil (args_all ps))
      (printk_loop-Renders ps out rest [] 0 t r ∙ ap (λ n. some (n, print out t)) (omega arith))

-- A format that ends in a bare `%` goes on with the bytes behind its terminator.
pub printk_percent_end :
    (rest : List ℕ) (args : List Arg) (i : ℕ) (t : Terminal)
    → printk_loop true (b'%' ∷ 0 ∷ rest) args i t ≡ printk_loop true rest args i t
unfolding printk_loop printarg getarg
printk_percent_end rest args i t = ap (λ n. printk_loop true rest args n t) (omega arith)
