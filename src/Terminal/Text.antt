-- ===== src/Terminal/Text.antt =====
-- What appears on the screen.
use tmp_os.Base.{
  ℕ, zero, suc, ◌+◌, ◌-◌, ◌*◌, ◌≤◌, ◌<◌, ◌≡◌, ◌≢◌, refl, List, [], ◌∷◌, ◌==◌, leb, ltb, ◌&&◌,
  if◌then◌else◌, get_or, set, length, length-set, get_or-set, get_or-cons, arith, true, ap, ==_iff,
}
use tmp_os.Base.Table.{each_passes, test-each_passes}
use tmp_os.Terminal.{
  Terminal, vga_width, vga_height, put_at_cursor, terminal_writechar, print, get_char, red, black,
  clear_cells, clear_term,
}
use tmp_os.Terminal.Bounds.{OnScreen}

cell_table : each_passes (λ c. get_char c red black == 1024 + c) 256 ≡ true
unfolding each_passes get_char
cell_table = refl

-- A cell of the kernel's own output holds the character in its low byte, red on black.
get_char-red : (c : ℕ) → c < 256 → get_char c red black ≡ 1024 + c
get_char-red c h = (==_iff _ _).0 (test-each_passes _ 256 c h cell_table)

-- Bytes that are printed as they are.
abbrev pub Plain : List ℕ → Type 0
Plain [] = Unit
Plain (c ∷ s) = (c < 256) × (c ≢ 0x0a) × (c ≢ 0x08) × Plain s

plain_step :
    (c : ℕ) (t : Terminal)
    → c < 256
    → c ≢ 0x0a
    → c ≢ 0x08
    → t.term_col + 1 < vga_width
    → terminal_writechar c red black t ≡ record t {
      video_mem = set t.video_mem (t.term_row * vga_width + t.term_col) (1024 + c);
      term_col = t.term_col + 1;
    }
unfolding terminal_writechar put_at_cursor
plain_step c t b n s w = ground (arith, get_char-red c b)

print_step :
    (c : ℕ) (s : List ℕ) (t t' : Terminal)
    → terminal_writechar c red black t ≡ t'
    → print (c ∷ s) t ≡ print s t'
unfolding print
print_step c s t t' e = ap (print s) e

-- Plain text that fits into the rest of the line appears there, one cell for each character, and
-- the cursor stands behind it; all other cells stay.
pub print-cells :
    (s : List ℕ) (t : Terminal) (m : ℕ)
    → Plain s
    → OnScreen t
    → t.term_col + length s < vga_width
    → let at = t.term_row * vga_width + t.term_col in
      ((print s t).term_col ≡ t.term_col + length s)
      × ((print s t).term_row ≡ t.term_row)
      × (get_or (print s t).video_mem m 0 ≡ (
          if leb at m && ltb m (at + length s)
          then 1024 + get_or s (m - at) 0
          else get_or t.video_mem m 0))
print-cells [] t m p o w = unfold print in ground arith
print-cells (c ∷ s) t m (a, b, d, p) o w =
    let at = t.term_row * vga_width + t.term_col in
    let t' : Terminal = record t {
      video_mem = set t.video_mem at (1024 + c);
      term_col = t.term_col + 1;
    } in
    let o' : OnScreen t' = record {
      column = omega arith;
      row = o.row;
      memory = rw (length-set t.video_mem at (1024 + c)) o.memory;
    } in
    rw (print_step c s t t' (plain_step c t a b d (omega arith))) (
      ground (
        arith,
        print-cells s t' m p o',
        get_or-set t.video_mem at m (1024 + c),
        get_or-cons c s (m - at),
        o.memory,
        o.row,
        o.column,
      ))

clear_cells_lem :
    (k m : ℕ) (v : List ℕ) (i : ℕ)
    → m + k ≤ length v
    → (length (clear_cells k m v) ≡ length v)
      × (get_or (clear_cells k m v) i 0
          ≡ (if leb m i && ltb i (m + k) then get_char b' ' red black else get_or v i 0))
unfolding clear_cells
clear_cells_lem zero m v i h = ground arith
clear_cells_lem (suc k) m v i h =
    let blank = get_char b' ' red black in
    ground (
      arith,
      clear_cells_lem k (m + 1) (set v m blank) i,
      length-set v m blank,
      get_or-set v m i blank,
    )

-- Clearing puts the cursor in the corner, blanks every cell of the screen and keeps all others.
pub clear_term_lem :
    (t : Terminal) (i : ℕ)
    → vga_height * vga_width ≤ length t.video_mem
    → OnScreen (clear_term t)
      × (get_or (clear_term t).video_mem i 0
          ≡ (if ltb i (vga_height * vga_width) then 1056 else get_or t.video_mem i 0))
unfolding clear_term
clear_term_lem t i h =
    let c = clear_cells_lem (vga_height * vga_width) 0 t.video_mem i h in
    (
      record { column = omega arith; row = omega arith; memory = rw c.0 h },
      ground (arith, c.1, get_char-red b' '),
    )
