-- ===== src/Print/Hexdump/Says.antt =====
-- src/utils.c: what prints the texts of pieces, on every terminal.
use tmp_os.Base.{
  ℕ, ◌^◌, ◌<◌, ◌≡◌, ◌∙◌, refl, ap, sym, true, false, Option, none, some, List, [], ◌∷◌, ◌++◌, ◌==◌,
  arith,
}
use mathlib.Core.List.{map, append_assoc}
use tmp_os.Base.Int.{signed32}
use tmp_os.Terminal.{Terminal, print}
use tmp_os.Print.Digits.{itoa_total, makeaddr-itoau}
use tmp_os.Print.Format.{
  Piece, lit, percent, decimal, hex, string, char, pointer, IsPiece, Renders, nil, cons, spell_all,
  args_all, text_of, print-append, printk-Renders,
}
use tmp_os.Print.Hexdump.{say, hexdump_char, text_in}

-- A literal as in a format, and an address of 32 bits.
abbrev pub IsFit : Piece → Type 0
IsFit (pointer w) = w < 2 ^ 32
IsFit (lit c) = IsPiece (lit c)
IsFit _ = Unit

abbrev pub AreFit : List Piece → Type 0
AreFit [] = Unit
AreFit (p ∷ ps) = IsFit p × AreFit ps

fit-IsPiece : (p : Piece) → IsFit p → IsPiece p
fit-IsPiece (lit c) h = h
fit-IsPiece percent h = tt
fit-IsPiece (decimal w) h = tt
fit-IsPiece (hex w) h = tt
fit-IsPiece (string s) h = tt
fit-IsPiece (char c) h = tt
fit-IsPiece (pointer w) h = tt

text_of_total : (p : Piece) → IsFit p → (s : List ℕ) × (text_of p ≡ some s)
unfolding text_of
text_of_total (lit c) h = (_, refl)
text_of_total percent h = (_, refl)
text_of_total (decimal w) h = itoa_total 10 (signed32 w) (omega arith) (omega arith)
text_of_total (hex w) h = itoa_total 16 (signed32 w) (omega arith) (omega arith)
text_of_total (string s) h = (s, refl)
text_of_total (char c) h = (_, refl)
text_of_total (pointer w) h =
    let (s, a, e, m, l, v) = makeaddr-itoau w h in (b'0' ∷ b'x' ∷ a, rw (e, text_of) m)

Renders-total : (ps : List Piece) → AreFit ps → (out : List ℕ) × Renders ps out
Renders-total [] h = ([], nil)
Renders-total (p ∷ ps) (h, g) =
    let (s, e) = text_of_total p h in
    let (out, r) = Renders-total ps g in (s ++ out, cons (fit-IsPiece p h) e r)

pub Renders-append :
    {ps qs : List Piece} {a b : List ℕ} → Renders ps a → Renders qs b → Renders (ps ++ qs) (a ++ b)
Renders-append {b = b} nil r = r
Renders-append {b = b} (cons {s} {out} h e q) r =
    rw (append_assoc s out b) (cons h e (Renders-append q r))

-- What prints the texts of the pieces, on every terminal.
abbrev pub Says : List Piece → (Terminal → Option Terminal) → Type 0
Says ps f = (out : List ℕ) × Renders ps out × ((t : Terminal) → f t ≡ some (print out t))

pub say-Says :
    (ps : List Piece) → AreFit ps → Says ps (say true (spell_all ps ++ (0 ∷ [])) (args_all ps))
unfolding say
say-Says ps h =
    let (out, r) = Renders-total ps h in (out, r, λ t. rw (printk-Renders ps out [] t r) refl)

-- One after the other.
pub both_Says :
    {ps qs : List Piece} (f g : Terminal → Option Terminal)
    → Says ps f
    → Says qs g
    → Says (ps ++ qs) (λ t. elim (f t) [ none ↦ none | some t' ↦ g t' ])
both_Says f g (a, r, e) (b, q, d) =
    (a ++ b, Renders-append r q, λ t. rw (e t) (d (print a t) ∙ ap some (sym (print-append a b t))))

pub text_in-map : (s : List ℕ) → text_in (map hexdump_char s) ≡ map hexdump_char s
unfolding text_in
text_in-map [] = refl
text_in-map (c ∷ s) =
    let nonzero : (hexdump_char c == 0) ≡ false = unfold hexdump_char in ground arith in
    rw nonzero (ap (λ x. hexdump_char c ∷ x) (text_in-map s))
