-- ===== src/Terminal.antt =====
-- The text terminal: `terminal_*`, `print` and `kwrite` of src/utils.c, `get_char` and
-- `clear_term` of src/kernel.c. Video memory is the list of its 16-bit cells.
pub mod Scroll
pub mod Bounds
pub mod Text
use Prim.Native.Nat.{bit_or}
use tmp_os.Base.{
  ℕ, zero, suc, ◌+◌, ◌-◌, ◌*◌, ◌%◌, ◌^◌, List, [], ◌∷◌, ◌==◌, if◌then◌else◌, get_or, set, take,
  drop,
}

abbrev pub vga_width : ℕ
vga_width = 80

abbrev pub vga_height : ℕ
vga_height = 20

abbrev pub red : ℕ
red = 4

abbrev pub black : ℕ
black = 0

pub record Terminal : Type 0 where
  pub video_mem : List ℕ
  pub term_col : ℕ
  pub term_row : ℕ

-- `ah` is a byte, so the shift of the background drops its high bits.
unfoldable pub get_char : ℕ → ℕ → ℕ → ℕ
get_char ch fore_color back_color =
    let ah = bit_or (back_color * 16 % 256) fore_color in bit_or (ah * 256 % 2 ^ 16) ch

unfoldable pub terminal_putchar : ℕ → ℕ → ℕ → ℕ → ℕ → Terminal → Terminal
terminal_putchar x y c fore_color back_color t = record t {
  video_mem = set t.video_mem (y * vga_width + x) (get_char c fore_color back_color);
}

-- The inner loop of the scroll in `term_new_line`, by the columns left.
unfoldable pub scroll_columns : ℕ → ℕ → ℕ → List ℕ → List ℕ
scroll_columns zero i j v = v
scroll_columns (suc k) i j v =
    scroll_columns k i (j + 1) (set v (i * vga_width + j) (get_or v ((i + 1) * vga_width + j) 0))

-- The outer loop, by the rows left.
unfoldable pub scroll_rows : ℕ → ℕ → List ℕ → List ℕ
scroll_rows zero i v = v
scroll_rows (suc k) i v = scroll_rows k (i + 1) (scroll_columns vga_width i 0 v)

unfoldable pub term_new_line : Terminal → Terminal
term_new_line t =
    if t.term_row == 19
    then record t { video_mem = scroll_rows (vga_height - 1) 0 t.video_mem; term_col = 0 }
    else record t { term_col = 0; term_row = (t.term_row + 1) % 256 }

-- The write at the end of `term_back_space`, at the cursor.
unfoldable pub blank_cursor : Terminal → Terminal
blank_cursor t = record t {
  video_mem = set t.video_mem (t.term_row * vga_width + t.term_col) (get_char b' ' red black);
}

-- Both counters are only lowered where they are not 0.
unfoldable pub term_back_space : Terminal → Terminal
unfolding blank_cursor
term_back_space t =
    if t.term_col == 0
    then (if t.term_row == 0
        then t
        else blank_cursor (record t { term_row = t.term_row - 1; term_col = vga_width - 1 }))
    else blank_cursor (record t { term_col = t.term_col - 1 })

-- The ordinary case of `terminal_writechar`.
unfoldable pub put_at_cursor : ℕ → ℕ → ℕ → Terminal → Terminal
put_at_cursor c fore_color back_color t =
    let t' = record t {
      video_mem =
          set t.video_mem (t.term_row * vga_width + t.term_col) (get_char c fore_color back_color);
      term_col = (t.term_col + 1) % 256;
    } in
    if t'.term_col == vga_width then term_new_line t' else t'

unfoldable pub terminal_writechar : ℕ → ℕ → ℕ → Terminal → Terminal
terminal_writechar c fore_color back_color t =
    if c == 0x0a
    then term_new_line t
    else if c == 0x08
    then term_back_space t
    else put_at_cursor c fore_color back_color t

-- The characters of the string, without its terminator.
unfoldable pub print : List ℕ → Terminal → Terminal
print [] t = t
print (c ∷ s) t = print s (terminal_writechar c red black t)

-- `size` is the length of the list that is given.
unfoldable pub kwrite : List ℕ → ℕ → Terminal → ℕ × Terminal
kwrite [] i t = (i, t)
kwrite (c ∷ s) i t = kwrite s (i + 1) (terminal_writechar c red black t)

-- The loops of `clear_term`, over the cells left from cell `m` on.
unfoldable pub clear_cells : ℕ → ℕ → List ℕ → List ℕ
clear_cells zero m v = v
clear_cells (suc k) m v = clear_cells k (m + 1) (set v m (get_char b' ' red black))

unfoldable pub clear_term : Terminal → Terminal
clear_term t = record {
  video_mem = clear_cells (vga_height * vga_width) 0 t.video_mem;
  term_col = 0;
  term_row = 0;
}
