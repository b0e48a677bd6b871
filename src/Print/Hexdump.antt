-- ===== src/Print/Hexdump.antt =====
-- src/utils.c: `hexdump`, which prints bytes through `printk`.
pub mod Says
pub mod Rows
use tmp_os.Base.{
  ℕ, zero, suc, ◌+◌, ◌-◌, ◌/◌, ◌%◌, ◌^◌, Bool, Option, none, some, List, [], ◌∷◌, ◌||◌, ltb, leb,
  ◌==◌, if◌then◌else◌, length, get_or, take, drop,
}
use mathlib.Core.Option
use mathlib.Core.List.{map}
use tmp_os.Terminal.{Terminal}
use tmp_os.Print.{Arg, word, text, printk}

-- `printk` where its result is not used.
unfoldable pub say : Bool → List ℕ → List Arg → Terminal → Option Terminal
say alloc form args t = Option.map (λ r. r.1) (printk alloc form args t)

-- A byte as it is shown; `char` is signed.
unfoldable pub hexdump_char : ℕ → ℕ
hexdump_char c = if leb c b' ' || leb 128 c then b'.' else c

-- The text of a buffer, up to its first terminator.
unfoldable pub text_in : List ℕ → List ℕ
text_in [] = []
text_in (c ∷ s) = if c == 0 then [] else c ∷ text_in s

unfoldable pub say_offset : Bool → ℕ → Terminal → Option Terminal
unfolding say
say_offset alloc offset t = say alloc (b'%' ∷ b'p' ∷ b' ' ∷ 0 ∷ []) (word offset ∷ []) t

unfoldable pub say_line : Bool → List ℕ → Terminal → Option Terminal
unfolding say
say_line alloc tmp t = say alloc (b'%' ∷ b's' ∷ b'\n' ∷ 0 ∷ []) (text (text_in tmp) ∷ []) t

-- One round for four bytes.
unfoldable pub hexdump_row : Bool → ℕ → List ℕ → Terminal → Option Terminal
unfolding say say_offset say_line
hexdump_row alloc offset c t = elim (say_offset alloc offset t) [
  | none ↦ none
  | some t₁ ↦
      elim (say alloc
        (b'%' ∷ b'X' ∷ b' ' ∷ b'%' ∷ b'X' ∷ b' ' ∷ b'%' ∷ b'X' ∷ b' ' ∷ b'%' ∷ b'X' ∷ b' ' ∷ 0 ∷ [])
        (word (get_or c 0 0) ∷ word (get_or c 1 0) ∷ word (get_or c 2 0) ∷ word (get_or c 3 0) ∷ [])
        t₁) [ none ↦ none | some t₂ ↦ say_line alloc (map hexdump_char (take 4 c)) t₂ ]
]

-- The loop by the rounds left, with `offset` and the bytes from `c` on. `none`: a byte beyond the
-- buffer is read.
unfoldable pub hexdump_rows : Bool → ℕ → ℕ → List ℕ → Terminal → Option (ℕ × List ℕ × Terminal)
unfolding hexdump_row
hexdump_rows alloc zero offset c t = some (offset, c, t)
hexdump_rows alloc (suc n) offset c t =
    if ltb (length c) 4 then none else elim (hexdump_row alloc offset c t) [
      | none ↦ none
      | some t' ↦ hexdump_rows alloc n (offset + 4) (drop 4 c) t'
    ]

-- The loop over the bytes that are left.
unfoldable pub hexdump_bytes : Bool → List ℕ → Terminal → Option Terminal
unfolding say
hexdump_bytes alloc [] t = some t
hexdump_bytes alloc (b ∷ c) t = elim (say alloc (b'%' ∷ b'X' ∷ b' ' ∷ 0 ∷ []) (word b ∷ []) t) [
  | none ↦ none
  | some t' ↦ hexdump_bytes alloc c t'
]

-- What follows the loop, for `count % 4` bytes. The characters are those of `offset % 4` bytes.
unfoldable pub hexdump_rest : Bool → ℕ → ℕ → List ℕ → Terminal → Option Terminal
unfolding say_offset say_line hexdump_bytes
hexdump_rest alloc n offset c t =
    if n == 0 then some t else if ltb (length c) n then none else elim (say_offset alloc offset t) [
      | none ↦ none
      | some t₁ ↦ elim (hexdump_bytes alloc (take n c) t₁) [
        | none ↦ none
        | some t₂ ↦ say_line alloc (take (offset % 4) c) t₂
      ]
    ]

unfoldable pub hexdump : Bool → List ℕ → ℕ → Terminal → Option Terminal
unfolding hexdump_rows hexdump_rest
hexdump alloc c count t =
    if ltb 100 count then some t else elim (hexdump_rows alloc (count / 4) 0 c t) [
      | none ↦ none
      | some (offset, rest, t') ↦ hexdump_rest alloc (count % 4) offset rest t'
    ]
