-- ===== src/Print/Hexdump/Rows.antt =====
-- src/utils.c: the lines that `hexdump` prints.
use tmp_os.Base.{
  ℕ, zero, suc, ◌+◌, ◌*◌, ◌/◌, ◌%◌, ◌^◌, ◌<◌, ◌≤◌, ◌≡◌, ◌∙◌, refl, ap, sym, true, false, some, List,
  [], ◌∷◌, ◌++◌, ltb, ◌==◌, length, get_or, take, drop, length-drop, arith,
}
use mathlib.Core.List.{map}
use tmp_os.Terminal.{Terminal, print}
use tmp_os.Print.Format.{
  Piece, lit, hex, string, pointer, IsPiece, Renders, nil, spell, spell_all, args_of, args_all,
  print-append,
}
use tmp_os.Print.Hexdump.{
  hexdump_char, text_in, say_offset, say_line, hexdump_row, hexdump_rows, hexdump_bytes,
  hexdump_rest, hexdump,
}
use tmp_os.Print.Hexdump.Says.{Says, say-Says, both_Says, Renders-append, text_in-map}

-- The lines: the offset, the bytes as numbers, and the text of a buffer.
offset_pieces : ℕ → List Piece
offset_pieces offset = pointer offset ∷ lit b' ' ∷ []

line_pieces : List ℕ → List Piece
line_pieces s = string s ∷ lit b'\n' ∷ []

abbrev pub row_pieces : ℕ → List ℕ → List Piece
row_pieces offset c =
    pointer offset
    ∷ lit b' '
    ∷ hex (get_or c 0 0)
    ∷ lit b' '
    ∷ hex (get_or c 1 0)
    ∷ lit b' '
    ∷ hex (get_or c 2 0)
    ∷ lit b' '
    ∷ hex (get_or c 3 0)
    ∷ lit b' '
    ∷ string (map hexdump_char (take 4 c))
    ∷ lit b'\n'
    ∷ []

abbrev pub rows_pieces : ℕ → ℕ → List ℕ → List Piece
rows_pieces zero offset c = []
rows_pieces (suc n) offset c = row_pieces offset c ++ rows_pieces n (offset + 4) (drop 4 c)

abbrev pub bytes_pieces : List ℕ → List Piece
bytes_pieces [] = []
bytes_pieces (b ∷ c) = hex b ∷ lit b' ' ∷ bytes_pieces c

-- The last line has no characters.
abbrev pub rest_pieces : ℕ → ℕ → List ℕ → List Piece
rest_pieces zero offset c = []
rest_pieces (suc n) offset c =
    pointer offset ∷ lit b' ' ∷ (bytes_pieces (take (suc n) c) ++ (string [] ∷ lit b'\n' ∷ []))

space : IsPiece (lit b' ')
space = (λ e. omega arith, λ e. omega arith)

newline : IsPiece (lit b'\n')
newline = (λ e. omega arith, λ e. omega arith)

say_offset-Says :
    (offset : ℕ) → offset < 2 ^ 32 → Says (offset_pieces offset) (say_offset true offset)
unfolding say_offset spell spell_all args_of args_all offset_pieces
say_offset-Says offset h = say-Says (pointer offset ∷ lit b' ' ∷ []) (h, (space, tt))

say_line-Says : (tmp s : List ℕ) → text_in tmp ≡ s → Says (line_pieces s) (say_line true tmp)
unfolding say_line spell spell_all args_of args_all line_pieces
say_line-Says tmp s e = rw e (say-Says (string s ∷ lit b'\n' ∷ []) (tt, (newline, tt)))

row_Says :
    (offset : ℕ) (c : List ℕ)
    → offset < 2 ^ 32
    → Says (row_pieces offset c) (hexdump_row true offset c)
unfolding hexdump_row offset_pieces line_pieces spell spell_all args_of args_all
row_Says offset c h =
    let numbers =
      say-Says
        (hex (get_or c 0 0)
          ∷ lit b' '
          ∷ hex (get_or c 1 0)
          ∷ lit b' '
          ∷ hex (get_or c 2 0)
          ∷ lit b' '
          ∷ hex (get_or c 3 0)
          ∷ lit b' '
          ∷ [])
        (tt, (space, (tt, (space, (tt, (space, (tt, (space, tt)))))))) in
    let tmp = map hexdump_char (take 4 c) in
    let line = say_line-Says tmp tmp (text_in-map (take 4 c)) in
    both_Says _ _ (say_offset-Says offset h) (both_Says _ _ numbers line)

bytes_Says : (c : List ℕ) → Says (bytes_pieces c) (hexdump_bytes true c)
unfolding hexdump_bytes spell spell_all args_of args_all
bytes_Says [] = ([], nil, λ t. unfold print in refl)
bytes_Says (b ∷ c) =
    both_Says _ _ (say-Says (hex b ∷ lit b' ' ∷ []) (tt, (space, tt))) (bytes_Says c)

drop_nil : (k : ℕ) → drop {A = ℕ} k [] ≡ []
drop_nil zero = refl
drop_nil (suc k) = refl

drop-drop : (m n : ℕ) (c : List ℕ) → drop m (drop n c) ≡ drop (n + m) c
drop-drop m zero c = ap (λ k. drop k c) (omega arith)
drop-drop m (suc n) [] = drop_nil m ∙ sym (drop_nil (suc n + m))
drop-drop m (suc n) (b ∷ c) =
    let e : suc (n + m) ≡ suc n + m = omega arith in drop-drop m n c ∙ ap (λ k. drop k (b ∷ c)) e

rows_Says :
    (n offset : ℕ) (c : List ℕ)
    → 4 * n ≤ length c
    → offset + 4 * n < 2 ^ 32
    → (out : List ℕ) × Renders (rows_pieces n offset c) out
      × ((t : Terminal)
          → hexdump_rows true n offset c t ≡ some (offset + 4 * n, drop (4 * n) c, print out t))
unfolding hexdump_rows
rows_Says zero offset c h l = ([], nil, λ t. unfold print in ap (λ m. some (m, c, t)) (omega arith))
rows_Says (suc n) offset c h l =
    let (a, r, e) = row_Says offset c (omega arith) in
    let (b, q, d) =
      rows_Says n (offset + 4) (drop 4 c) (omega (arith, length-drop 4 c)) (omega arith) in
    let enough : ltb (length c) 4 ≡ false = ground arith in
    let passed : offset + 4 + 4 * n ≡ offset + 4 * suc n = omega arith in
    let behind : drop (4 * n) (drop 4 c) ≡ drop (4 * suc n) c =
      drop-drop (4 * n) 4 c ∙ ap (λ m. drop m c) (omega arith) in
    (
      a ++ b,
      Renders-append r q,
      λ t.
          rw (enough, e t, hexdump_rows)
            (d (print a t) ∙ rw (passed, behind, print-append a b t) refl),
    )

rest_Says :
    (n offset : ℕ) (c : List ℕ)
    → n ≤ length c
    → offset < 2 ^ 32
    → offset % 4 ≡ 0
    → Says (rest_pieces n offset c) (hexdump_rest true n offset c)
unfolding hexdump_rest offset_pieces line_pieces text_in
rest_Says zero offset c h l e = ([], nil, λ t. unfold print in refl)
rest_Says (suc n) offset c h l e =
    let enough : ltb (length c) (suc n) ≡ false = ground arith in
    let some_left : (suc n == 0) ≡ false = ground arith in
    let characters : text_in (take (offset % 4) c) ≡ [] = rw e refl in
    let (a, r, d) = both_Says _ _ (say_offset-Says offset l) (
      both_Says _ _ (bytes_Says (take (suc n) c))
        (say_line-Says (take (offset % 4) c) [] characters)) in
    (a, r, λ t. rw (some_left, enough, hexdump_rest) (d t))

abbrev pub dump_pieces : List ℕ → ℕ → List Piece
dump_pieces c count =
    let whole = 4 * (count / 4) in
    rows_pieces (count / 4) 0 c ++ rest_pieces (count % 4) whole (drop whole c)

-- `hexdump` of at most 100 bytes that are there, where the digits find memory, prints a line for
-- every four bytes, with the offset, the bytes as numbers and as characters, a dot in the place of a
-- space, a control character and a byte from 128 on; the one to three bytes that are left get a line
-- of numbers without characters.
pub hexdump-Renders :
    (c : List ℕ) (count : ℕ) (t : Terminal)
    → count ≤ 100
    → count ≤ length c
    → (out : List ℕ) × Renders (dump_pieces c count) out
      × (hexdump true c count t ≡ some (print out t))
unfolding hexdump
hexdump-Renders c count t h l =
    let n = count / 4 in
    let whole = 4 * n in
    let small : ltb 100 count ≡ false = ground arith in
    let (a, r, e) = rows_Says n 0 c (omega arith) (omega arith) in
    let rows : hexdump_rows true n 0 c t ≡ some (whole, drop whole c, print a t) =
      e t ∙ ap (λ m. some (m, drop whole c, print a t)) (omega arith) in
    let (b, q, d) =
      rest_Says (count % 4) whole (drop whole c) (omega (arith, length-drop whole c)) (omega arith)
        (omega arith) in
    (
      a ++ b,
      Renders-append r q,
      rw (small, rows, hexdump) (d (print a t) ∙ ap some (sym (print-append a b t))),
    )
