-- ===== src/Gdt/Kernel.antt =====
-- src/kernel.c: the segments of the kernel, and the descriptors that `kernel_start` makes of them.
use tmp_os.Base.{
  ℕ, ◌%◌, ◌^◌, ◌≤◌, ◌<◌, ◌≡◌, ◌⊎◌, refl, some, List, [], ◌∷◌, map, arith, Option-cases, inl, inr,
}
use tmp_os.Gdt.{
  GdtStructured, Gdt, IsWord, encode_gdt_entry, gdt_structured_to_gdt, decode, decode-encode,
  encode_panics_iff,
}

-- `sizeof(struct tss)`: 25 words.
abbrev pub tss_size : ℕ
tss_size = 100

abbrev segment : ℕ → ℕ → ℕ → GdtStructured
segment base limit type = record { base = base; limit = limit; type = type }

-- `gdt_structured`, with the address of the task state segment.
abbrev pub kernel_segments : ℕ → List GdtStructured
kernel_segments tss =
    segment 0 0 0
    ∷ segment 0 0xffffffff 0x9A
    ∷ segment 0 0xffffffff 0x92
    ∷ segment 0 0xffffffff 0xF8
    ∷ segment 0 0xffffffff 0xF2
    ∷ segment tss tss_size 0x89
    ∷ []

-- A segment that can be encoded: in words, with a limit that is small or that of whole pages.
abbrev IsSegment : GdtStructured → Type 0
IsSegment s = IsWord s × ((s.limit ≤ 65536) ⊎ (s.limit % 4096 ≡ 4095))

abbrev AreSegments : List GdtStructured → Type 0
AreSegments [] = Unit
AreSegments (s ∷ rest) = IsSegment s × AreSegments rest

encode-IsSegment :
    (s : GdtStructured) → IsSegment s → (g : Gdt) × (encode_gdt_entry s ≡ some g) × (decode g ≡ s)
encode-IsSegment s (w, fits) = elim (Option-cases (encode_gdt_entry s)) [
  | inl e ↦
      let (large, page) = (encode_panics_iff s).0 e in
      absurd (elim fits [ inl h ↦ omega arith | inr h ↦ omega arith ])
  | inr (g, e) ↦ (g, e, decode-encode s g w e)
]

to_gdt-AreSegments :
    (l : List GdtStructured)
    → AreSegments l
    → (gs : List Gdt) × (gdt_structured_to_gdt l ≡ some gs) × (map decode gs ≡ l)
unfolding gdt_structured_to_gdt
to_gdt-AreSegments [] a = ([], refl, refl)
to_gdt-AreSegments (s ∷ l) (is_segment, a) =
    let (g, e, d) = encode-IsSegment s is_segment in
    let (gs, e', d') = to_gdt-AreSegments l a in
    (g ∷ gs, rw (e, gdt_structured_to_gdt) (rw (e', gdt_structured_to_gdt) refl), rw (d, d') refl)

-- The start of the kernel does not panic on its segments, and the descriptors that it makes of them
-- are read by the processor as these segments.
pub kernel_segments-decode :
    (tss : ℕ)
    → tss < 2 ^ 32
    → (gs : List Gdt) × (gdt_structured_to_gdt (kernel_segments tss) ≡ some gs)
      × (map decode gs ≡ kernel_segments tss)
kernel_segments-decode tss h = to_gdt-AreSegments (kernel_segments tss) (
  (null, inl (omega arith)),
  (
    (flat 0x9A, inr refl),
    (
      (flat 0x92, inr refl),
      (
        (flat 0xF8, inr refl),
        (
          (flat 0xF2, inr refl),
          ((record { base_word = h; limit_word = omega arith }, inl (omega arith)), tt),
        ),
      ),
    ),
  ),
)
  where
    null : IsWord (segment 0 0 0)
    null = record { base_word = omega arith; limit_word = omega arith }

    flat : (type : ℕ) → IsWord (segment 0 0xffffffff type)
    flat type = record { base_word = omega arith; limit_word = omega arith }
