-- ===== src/Gdt.antt =====
-- src/gdt/gdt.c: the encoding of segment descriptors.
pub mod Kernel
use Prim.Native.Nat.{bit_or}
use tmp_os.Base.{
  ℕ, ◌+◌, ◌*◌, ◌/◌, ◌%◌, ◌^◌, ◌≤◌, ◌<◌, ◌≡◌, ◌↔◌, refl, true, not, ◌&&◌, Option, none, some, List,
  [], ◌∷◌, ltb, ◌==◌, if◌then◌else◌, arith, Bool-cases, inl, inr,
}
use tmp_os.Base.Table.{each_passes, test-each_passes}

-- `struct gdt_structured`.
pub record GdtStructured : Type 0 where
  pub base : ℕ
  pub limit : ℕ
  pub type : ℕ

-- The eight bytes of `struct gdt`, by their index in `target`.
pub record Gdt : Type 0 where
  pub b0 : ℕ
  pub b1 : ℕ
  pub b2 : ℕ
  pub b3 : ℕ
  pub b4 : ℕ
  pub b5 : ℕ
  pub b6 : ℕ
  pub b7 : ℕ

-- The bytes for a limit that is already scaled, and the flags of byte 6.
write_entry : ℕ → ℕ → GdtStructured → Gdt
write_entry limit flags source = record {
  b0 = limit % 256;
  b1 = limit / 2 ^ 8 % 256;
  b2 = source.base % 256;
  b3 = source.base / 2 ^ 8 % 256;
  b4 = source.base / 2 ^ 16 % 256;
  b5 = source.type;
  b6 = bit_or flags (limit / 2 ^ 16 % 16);
  b7 = source.base / 2 ^ 24 % 256;
}

-- `none`: the kernel panics.
unfoldable pub encode_gdt_entry : GdtStructured → Option Gdt
unfolding write_entry
encode_gdt_entry source =
    if ltb 65536 source.limit && not (source.limit % 4096 == 0xFFF)
    then none
    else some (
        if ltb 65536 source.limit
        then write_entry (source.limit / 2 ^ 12) 0xC0 source
        else write_entry source.limit 0x40 source)

-- The loop over the table's entries.
unfoldable pub gdt_structured_to_gdt : List GdtStructured → Option (List Gdt)
gdt_structured_to_gdt [] = some []
gdt_structured_to_gdt (s ∷ rest) = elim (encode_gdt_entry s) [
  | none ↦ none
  | some g ↦ elim (gdt_structured_to_gdt rest) [ none ↦ none | some gs ↦ some (g ∷ gs) ]
]

-- How the processor reads a descriptor: a limit in pages when the granularity bit is set.
unfoldable pub decode : Gdt → GdtStructured
decode g =
    let limit = g.b0 + g.b1 * 2 ^ 8 + g.b6 % 16 * 2 ^ 16 in
    record {
      base = g.b2 + g.b3 * 2 ^ 8 + g.b4 * 2 ^ 16 + g.b7 * 2 ^ 24;
      limit = if g.b6 / 128 % 2 == 1 then limit * 4096 + 4095 else limit;
      type = g.b5;
    }

flags_table :
    each_passes (λ x. (bit_or 0x40 x == 0x40 + x) && (bit_or 0xC0 x == 0xC0 + x)) 16 ≡ true
unfolding each_passes
flags_table = refl

flags_add : (x : ℕ) → x < 16 → (bit_or 0x40 x ≡ 0x40 + x) × (bit_or 0xC0 x ≡ 0xC0 + x)
flags_add x h = let both = test-each_passes _ 16 x h flags_table in ground (arith, both)

pub record IsWord (s : GdtStructured) : Type 0 where
  pub base_word : s.base < 2 ^ 32
  pub limit_word : s.limit < 2 ^ 32

decode-write_small :
    (s : GdtStructured) → IsWord s → s.limit ≤ 65536 → decode (write_entry s.limit 0x40 s) ≡ s
unfolding decode write_entry
decode-write_small s w h =
    rw ((flags_add (s.limit / 2 ^ 16 % 16) (omega arith)).0)
      (ground (arith, w.base_word, w.limit_word))

decode-write_large :
    (s : GdtStructured)
    → IsWord s
    → s.limit % 4096 ≡ 0xFFF
    → decode (write_entry (s.limit / 2 ^ 12) 0xC0 s) ≡ s
unfolding decode write_entry
decode-write_large s w h =
    rw ((flags_add (s.limit / 2 ^ 12 / 2 ^ 16 % 16) (omega arith)).1)
      (ground (arith, w.base_word, w.limit_word))

-- What is encoded reads back as the segment that was asked for, whatever its granularity.
pub decode-encode :
    (s : GdtStructured) (g : Gdt) → IsWord s → encode_gdt_entry s ≡ some g → decode g ≡ s
unfolding encode_gdt_entry
decode-encode s g w e = elim (Bool-cases (ltb 65536 s.limit)) [
  | inr small ↦
      let q : some (write_entry s.limit 0x40 s) ≡ some g = rw small at e in
      ground (arith, q, decode-write_small s w (ground arith))
  | inl large ↦ elim (Bool-cases (s.limit % 4096 == 0xFFF)) [
    | inl page ↦
        let q : some (write_entry (s.limit / 2 ^ 12) 0xC0 s) ≡ some g = rw (large, page) at e in
        ground (arith, q, decode-write_large s w (ground arith))
    | inr other ↦ absurd (cc (rw (large, other) at e))
  ]
]

-- The kernel panics exactly on a limit above 65536 that is not one less than a multiple of 4096.
pub encode_panics_iff :
    (s : GdtStructured)
    → (encode_gdt_entry s ≡ none) ↔ ((65536 < s.limit) × (s.limit % 4096 < 4095))
unfolding encode_gdt_entry
encode_panics_iff s = ((λ e. ground arith), (λ h. ground arith))
