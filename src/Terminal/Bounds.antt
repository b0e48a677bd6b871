-- ===== src/Terminal/Bounds.antt =====
-- The cursor stays on the screen, and every write stays inside video memory.
use tmp_os.Base.{
  ℕ, ◌+◌, ◌-◌, ◌*◌, ◌%◌, ◌≤◌, ◌<◌, ◌≡◌, ◌∙◌, refl, List, [], ◌∷◌, ◌==◌, get_or, set, length,
  length-set, get_or-set, arith, Bool-cases, inl, inr, ap,
}
use tmp_os.Terminal.{
  Terminal, vga_width, vga_height, term_new_line, term_back_space, put_at_cursor,
  terminal_writechar, print, kwrite, get_char, red, black,
}
use tmp_os.Terminal.Scroll.{length-scroll_rows, term_new_line_lem}

pub record OnScreen (t : Terminal) : Type 0 where
  pub column : t.term_col < vga_width
  pub row : t.term_row < vga_height
  pub memory : vga_height * vga_width ≤ length t.video_mem

new_line-OnScreen :
    (t : Terminal)
    → t.term_row < vga_height
    → vga_height * vga_width ≤ length t.video_mem
    → OnScreen (term_new_line t)
unfolding term_new_line
new_line-OnScreen t r m = ground (arith, length-scroll_rows (vga_height - 1) 0 t.video_mem)

back_space-OnScreen : (t : Terminal) → OnScreen t → OnScreen (term_back_space t)
unfolding term_back_space
back_space-OnScreen t s = ground (
  arith,
  length-set t.video_mem (t.term_row * vga_width + (t.term_col - 1)) (get_char b' ' red black),
  length-set t.video_mem ((t.term_row - 1) * vga_width + (vga_width - 1)) (get_char b' ' red black),
)

put_at_cursor-OnScreen : (c f b : ℕ) (t : Terminal) → OnScreen t → OnScreen (put_at_cursor c f b t)
unfolding put_at_cursor
put_at_cursor-OnScreen c f b t s = elim (Bool-cases ((t.term_col + 1) % 256 == vga_width)) [
  | inl e ↦ rw e (new_line-OnScreen _ s.row (rw (length-set t.video_mem _ _) s.memory))
  | inr e ↦ rw e (record {
    column = ground (arith, s.column);
    row = s.row;
    memory = rw (length-set t.video_mem _ _) s.memory;
  })
]

-- Whatever character is written, the cursor stays on the screen.
pub writechar-OnScreen :
    (c f b : ℕ) (t : Terminal) → OnScreen t → OnScreen (terminal_writechar c f b t)
unfolding terminal_writechar
writechar-OnScreen c f b t s =
    ground (arith, new_line-OnScreen t, back_space-OnScreen t s, put_at_cursor-OnScreen c f b t s)

-- Printing any string keeps the cursor on the screen.
pub print-OnScreen : (s : List ℕ) (t : Terminal) → OnScreen t → OnScreen (print s t)
unfolding print
print-OnScreen [] t h = h
print-OnScreen (c ∷ s) t h = print-OnScreen s _ (writechar-OnScreen c red black t h)

-- What lies in video memory behind the screen.
SameBehind : Terminal → Terminal → Type 0
SameBehind t t' =
    (m : ℕ) → vga_height * vga_width ≤ m → get_or t'.video_mem m 0 ≡ get_or t.video_mem m 0

new_line_behind :
    (t : Terminal)
    → t.term_row < vga_height
    → vga_height * vga_width ≤ length t.video_mem
    → SameBehind t (term_new_line t)
unfolding SameBehind
new_line_behind t r h m l = ground (arith, term_new_line_lem t m h r)

back_space_behind : (t : Terminal) → OnScreen t → SameBehind t (term_back_space t)
unfolding SameBehind term_back_space
back_space_behind t s m l = ground (
  arith,
  get_or-set t.video_mem (t.term_row * vga_width + (t.term_col - 1)) m (get_char b' ' red black),
  get_or-set t.video_mem ((t.term_row - 1) * vga_width + (vga_width - 1)) m
      (get_char b' ' red black),
)

-- The terminal after the write of `put_at_cursor`, before a line is ended.
written : ℕ → Terminal → Terminal
written v t = record t {
  video_mem = set t.video_mem (t.term_row * vga_width + t.term_col) v;
  term_col = (t.term_col + 1) % 256;
}

written_behind : (v : ℕ) (t : Terminal) → OnScreen t → SameBehind t (written v t)
unfolding SameBehind written
written_behind v t s m l =
    ground (arith, get_or-set t.video_mem (t.term_row * vga_width + t.term_col) m v)

put_at_cursor_behind :
    (c f b : ℕ) (t : Terminal) → OnScreen t → SameBehind t (put_at_cursor c f b t)
unfolding SameBehind put_at_cursor written
put_at_cursor_behind c f b t s m l =
    let v = get_char c f b in
    elim (Bool-cases ((t.term_col + 1) % 256 == vga_width)) [
      | inl e ↦ rw e (
          new_line_behind (written v t) s.row (rw (length-set t.video_mem _ _) s.memory) m l
          ∙ written_behind v t s m l)
      | inr e ↦ rw e (written_behind v t s m l)
    ]

-- Writing any character leaves video memory behind the screen as it was.
writechar_behind :
    (c f b : ℕ) (t : Terminal) → OnScreen t → SameBehind t (terminal_writechar c f b t)
unfolding SameBehind terminal_writechar
writechar_behind c f b t s m l = ground (
  arith,
  new_line_behind t s.row s.memory m l,
  back_space_behind t s m l,
  put_at_cursor_behind c f b t s m l,
)

-- Printing any string writes only to the cells of the screen.
pub print_behind :
    (s : List ℕ) (t : Terminal) (m : ℕ)
    → OnScreen t
    → vga_height * vga_width ≤ m
    → get_or (print s t).video_mem m 0 ≡ get_or t.video_mem m 0
unfolding print SameBehind
print_behind [] t m h l = refl
print_behind (c ∷ s) t m h l =
    print_behind s _ m (writechar-OnScreen c red black t h) l ∙ writechar_behind c red black t h m l

-- `kwrite` prints what `print` prints, and returns the number of characters.
pub kwrite-print : (s : List ℕ) (i : ℕ) (t : Terminal) → kwrite s i t ≡ (i + length s, print s t)
unfolding kwrite print
kwrite-print [] i t = ap (λ n. (n, t)) (omega arith)
kwrite-print (c ∷ s) i t =
    kwrite-print s (i + 1) (terminal_writechar c red black t)
    ∙ ap (λ n. (n, print s (terminal_writechar c red black t))) (omega arith)
