-- ===== src/Terminal/Scroll.antt =====
-- What a scroll of the terminal leaves on the screen.
use tmp_os.Base.{
  ℕ, zero, suc, ◌+◌, ◌-◌, ◌*◌, ◌≤◌, ◌<◌, ◌≡◌, ◌∙◌, refl, List, ◌==◌, ◌&&◌, leb, ltb, if◌then◌else◌,
  get_or, set, length, length-set, get_or-set, arith,
}
use tmp_os.Terminal.{scroll_columns, scroll_rows, vga_width, vga_height, Terminal, term_new_line}

pub length-scroll_columns : (k i j : ℕ) (v : List ℕ) → length (scroll_columns k i j v) ≡ length v
unfolding scroll_columns
length-scroll_columns zero i j v = refl
length-scroll_columns (suc k) i j v = length-scroll_columns k i (j + 1) _ ∙ length-set v _ _

pub length-scroll_rows : (k i : ℕ) (v : List ℕ) → length (scroll_rows k i v) ≡ length v
unfolding scroll_rows
length-scroll_rows zero i v = refl
length-scroll_rows (suc k) i v =
    length-scroll_rows k (i + 1) _ ∙ length-scroll_columns vga_width i 0 v

-- The copies of one row: the cells from column `j` on get those one row below.
scroll_columns-get :
    (k i j : ℕ) (v : List ℕ) (m : ℕ)
    → i * vga_width + j + k ≤ length v
    → k + j ≤ vga_width
    → get_or (scroll_columns k i j v) m 0 ≡ (
        if leb (i * vga_width + j) m && ltb m (i * vga_width + j + k)
        then get_or v (m + vga_width) 0
        else get_or v m 0)
unfolding scroll_columns
scroll_columns-get zero i j v m h w = ground arith
scroll_columns-get (suc k) i j v m h w =
    let x = get_or v ((i + 1) * vga_width + j) 0 in
    let at = i * vga_width + j in
    let same : (i + 1) * vga_width + j ≡ at + vga_width = omega arith in
    ground (
      arith,
      scroll_columns-get k i (j + 1) (set v at x) m,
      length-set v at x,
      get_or-set v at m x,
      get_or-set v at (m + vga_width) x,
      same,
    )

scroll_rows-get :
    (k i : ℕ) (v : List ℕ) (m : ℕ)
    → (i + k) * vga_width ≤ length v
    → get_or (scroll_rows k i v) m 0 ≡ (
        if leb (i * vga_width) m && ltb m ((i + k) * vga_width)
        then get_or v (m + vga_width) 0
        else get_or v m 0)
unfolding scroll_rows
scroll_rows-get zero i v m h = ground arith
scroll_rows-get (suc k) i v m h = ground (
  arith,
  scroll_rows-get k (i + 1) (scroll_columns vga_width i 0 v) m,
  length-scroll_columns vga_width i 0 v,
  scroll_columns-get vga_width i 0 v m,
  scroll_columns-get vga_width i 0 v (m + vga_width),
)

-- A new line on the last row moves every row up by one, and leaves the last row as it is; the
-- cursor goes to its first column. On any other row it only moves the cursor.
pub term_new_line_lem :
    (t : Terminal) (m : ℕ)
    → vga_height * vga_width ≤ length t.video_mem
    → t.term_row < vga_height
    → ((term_new_line t).term_col ≡ 0)
      × ((term_new_line t).term_row ≡ (if t.term_row == 19 then 19 else t.term_row + 1))
      × (get_or (term_new_line t).video_mem m 0 ≡ (
          if t.term_row == 19 && ltb m ((vga_height - 1) * vga_width)
          then get_or t.video_mem (m + vga_width) 0
          else get_or t.video_mem m 0))
unfolding term_new_line
term_new_line_lem t m h l = ground (arith, scroll_rows-get (vga_height - 1) 0 t.video_mem m)
