-- ===== src/Keyboard/Ps2.antt =====
-- src/keyboard/PS2.c: from scan codes to keys.
use tmp_os.Base.{
  ℕ, ◌/◌, ◌%◌, ◌≤◌, ◌<◌, ◌≡◌, ◌↔◌, Option, none, some, List, [], ◌∷◌, ◌==◌, ltb, if◌then◌else◌,
  length, get_elem?, arith, Bool-cases, inl, inr, get_elem?-eq-none, get_elem?-eq-get_or, get_or,
  dec_lt,
}
use tmp_os.Keyboard.{CurrentTask, keyboard_push}

abbrev pub keyboard_scan_table : List ℕ
keyboard_scan_table =
    0x00 ∷ 0x1B ∷ b'1' ∷ b'2' ∷ b'3' ∷ b'4' ∷ b'5' ∷ b'6' ∷ b'7' ∷ b'8' ∷ b'9' ∷ b'0' ∷ b'-' ∷ b'='
    ∷ 0x08 ∷ 0x09 ∷ b'Q' ∷ b'W' ∷ b'E' ∷ b'R' ∷ b'T' ∷ b'Y' ∷ b'U' ∷ b'I' ∷ b'O' ∷ b'P' ∷ b'['
    ∷ b']' ∷ 0x0d ∷ 0x00 ∷ b'A' ∷ b'S' ∷ b'D' ∷ b'F' ∷ b'G' ∷ b'H' ∷ b'J' ∷ b'K' ∷ b'L' ∷ b';'
    ∷ 0x27 ∷ b'`' ∷ 0x00 ∷ 0x5c ∷ b'Z' ∷ b'X' ∷ b'C' ∷ b'V' ∷ b'B' ∷ b'N' ∷ b'M' ∷ b',' ∷ b'.'
    ∷ b'/' ∷ 0x00 ∷ b'*' ∷ 0x00 ∷ 0x20 ∷ 0x00 ∷ 0x00 ∷ 0x00 ∷ 0x00 ∷ 0x00 ∷ 0x00 ∷ 0x00 ∷ 0x00
    ∷ 0x00 ∷ 0x00 ∷ 0x00 ∷ b'7' ∷ b'8' ∷ b'9' ∷ b'-' ∷ b'4' ∷ b'5' ∷ b'6' ∷ b'+' ∷ b'1' ∷ b'2'
    ∷ b'3' ∷ b'0' ∷ b'.' ∷ []

-- `none`: an element beyond the table is read.
unfoldable pub ps2_keyboard_scan_to_char : ℕ → Option ℕ
ps2_keyboard_scan_to_char scan =
    if ltb (length keyboard_scan_table) scan then some 0 else get_elem? keyboard_scan_table scan

-- The handler's work on a scan code that was read from the port: `scan & 0x80` marks a release.
-- `none`: an element beyond the table is read, or NULL is dereferenced.
unfoldable pub ps2_keyboard_handle_interrupt : ℕ → CurrentTask → Option CurrentTask
ps2_keyboard_handle_interrupt scan t =
    if scan / 128 % 2 == 1 then some t else elim (get_elem? keyboard_scan_table scan) [
      | none ↦ none
      | some c ↦ if c == 0 then some t else keyboard_push c t
    ]

char_inside :
    (scan : ℕ)
    → scan < length keyboard_scan_table
    → (c : ℕ) × (get_elem? keyboard_scan_table scan ≡ some c)
char_inside scan h =
    (get_or keyboard_scan_table scan 0, get_elem?-eq-get_or keyboard_scan_table scan 0 h)

-- The guard of `ps2_keyboard_scan_to_char`, over any table and code.
guarded : ℕ → ℕ → Option ℕ → Option ℕ
guarded size scan read = if ltb size scan then some 0 else read

guarded-none :
    (size scan : ℕ) (read : Option ℕ)
    → ((scan < size) → (c : ℕ) × (read ≡ some c))
    → (size ≤ scan → read ≡ none)
    → ((guarded size scan read ≡ none) → (scan ≡ size))
      × ((scan ≡ size) → (guarded size scan read ≡ none))
unfolding guarded
guarded-none size scan none f g = (
  λ e. elim (dec_lt scan size) [ yes p ↦ absurd (cc (f p).1) | no p ↦ ground arith ],
  λ e. ground arith,
)
guarded-none size scan (some x) f g = (λ e. ground arith, λ e. absurd (cc (g (omega arith))))

-- `ps2_keyboard_scan_to_char` stays inside the table for every code but the one equal to its size.
pub scan_to_char_faults :
    (scan : ℕ) → (ps2_keyboard_scan_to_char scan ≡ none) ↔ (scan ≡ length keyboard_scan_table)
unfolding ps2_keyboard_scan_to_char guarded
scan_to_char_faults scan =
    guarded-none (length keyboard_scan_table) scan (get_elem? keyboard_scan_table scan)
      (char_inside scan) (get_elem?-eq-none keyboard_scan_table scan)

-- The interrupt handler reads beyond its table for every pressed key with a code from the table's
-- size on.
pub handle_interrupt_faults :
    (scan : ℕ) (t : CurrentTask)
    → length keyboard_scan_table ≤ scan
    → scan < 128
    → ps2_keyboard_handle_interrupt scan t ≡ none
unfolding ps2_keyboard_handle_interrupt
handle_interrupt_faults scan t a b = elim (Bool-cases (scan / 128 % 2 == 1)) [
  | inl h ↦ absurd (ground arith)
  | inr h ↦ rw (h, get_elem?-eq-none keyboard_scan_table scan a, ps2_keyboard_handle_interrupt)
]

-- A pressed key inside the table is pushed if the table has a character for it.
pub handle_interrupt-push :
    (scan c : ℕ) (t : CurrentTask)
    → scan < 128
    → get_elem? keyboard_scan_table scan ≡ some c
    → ps2_keyboard_handle_interrupt scan t ≡ (if c == 0 then some t else keyboard_push c t)
unfolding ps2_keyboard_handle_interrupt
handle_interrupt-push scan c t a e = elim (Bool-cases (scan / 128 % 2 == 1)) [
  | inl h ↦ absurd (ground arith)
  | inr h ↦ rw (h, e, ps2_keyboard_handle_interrupt)
]
