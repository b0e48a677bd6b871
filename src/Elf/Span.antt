-- ===== src/Elf/Span.antt =====
-- src/loader/formats/elfloader.c: the span of the segments that are to be loaded.
use tmp_os.Base.{
  ℕ, suc, ◌<◌, ◌≤◌, ◌≡◌, ◌≢◌, refl, sym, ◌∙◌, ap, ◌==◌, ◌||◌, arith, leb, Bool-cases, inl, inr, ◌⊎◌,
}
use tmp_os.Base.Int.{add32}
use tmp_os.Elf.{
  ElfFile, Elf32Phdr, pt_load, widen_base, widen_end, elf_process_phdr_pt_load, elf_process_pheader,
}

-- Of the first `n` headers, those to load.
abbrev pub Loads : (ℕ → Elf32Phdr) → ℕ → ℕ → Type 0
Loads phdrs n i = (i < n) × ((phdrs i).p_type ≡ pt_load)

-- The base is the lowest address of the segments to load, and 0 without one; and the physical base
-- is where the bytes of such a segment are.
pub record IsBase (phdrs : ℕ → Elf32Phdr) (memory n : ℕ) (file : ElfFile) : Type 0 where
  pub loaded_at : file.elf_memory ≡ memory
  pub least : (i : ℕ) → Loads phdrs n i → file.virtual_base_address ≤ (phdrs i).p_vaddr
  pub origin :
      ((file.virtual_base_address ≡ 0) × ((i : ℕ) → Loads phdrs n i → ⊥))
      ⊎ ((j : ℕ) × Loads phdrs n j
          × (file.virtual_base_address ≡ (phdrs j).p_vaddr)
          × (file.physical_base_address ≡ add32 memory (phdrs j).p_offset))

abbrev pub segment_end : Elf32Phdr → ℕ
segment_end phdr = add32 phdr.p_vaddr phdr.p_filesz

-- The end, likewise, is the highest.
pub record IsEnd (phdrs : ℕ → Elf32Phdr) (memory n : ℕ) (file : ElfFile) : Type 0 where
  pub loaded_at : file.elf_memory ≡ memory
  pub greatest : (i : ℕ) → Loads phdrs n i → segment_end (phdrs i) ≤ file.virtual_end_address
  pub origin :
      ((file.virtual_end_address ≡ 0) × ((i : ℕ) → Loads phdrs n i → ⊥))
      ⊎ ((j : ℕ) × Loads phdrs n j
          × (file.virtual_end_address ≡ segment_end (phdrs j))
          × (file.physical_end_address
              ≡ add32 (add32 memory (phdrs j).p_offset) (phdrs j).p_filesz))

split_last : (phdrs : ℕ → Elf32Phdr) (n i : ℕ) → Loads phdrs (suc n) i → (i ≡ n) ⊎ Loads phdrs n i
split_last phdrs n i (l, t) = elim (Bool-cases (i == n)) [
  | inl e ↦ inl (ground arith)
  | inr e ↦ inr (ground arith, t)
]

module _ (phdrs : ℕ → Elf32Phdr) (memory n : ℕ) (file : ElfFile) where
  widen_base-IsBase :
      ((i : ℕ) → 0 < (phdrs i).p_vaddr)
      → (phdrs n).p_type ≡ pt_load
      → IsBase phdrs memory n file
      → IsBase phdrs memory (suc n) (widen_base file (phdrs n))
  unfolding widen_base
  widen_base-IsBase positive t b =
      let base = file.virtual_base_address in
      elim (Bool-cases (leb (phdrs n).p_vaddr base || base == 0)) [
        | inl e ↦ rw e (record {
          loaded_at = b.loaded_at;
          least = λ i l. elim (split_last phdrs n i l) [
            | inl q ↦ rw q (omega arith)
            | inr l' ↦ elim b.origin [
              | inl (z, unloaded) ↦ absurd (unloaded i l')
              | inr (j, l'', v, p) ↦ ground (arith, b.least i l', positive j)
            ]
          ];
          origin =
              inr (n, (omega arith, t), refl, ap (λ m. add32 m (phdrs n).p_offset) b.loaded_at);
        })
        | inr e ↦ rw e (record {
          loaded_at = b.loaded_at;
          least = λ i l. elim (split_last phdrs n i l) [
            | inl q ↦ rw q (ground arith)
            | inr l' ↦ b.least i l'
          ];
          origin = elim b.origin [
            | inl (z, unloaded) ↦ absurd (ground arith)
            | inr (j, (l, u), v, p) ↦ inr (j, (omega arith, u), v, p)
          ];
        })
      ]

  widen_end-IsEnd :
      ((i : ℕ) → 0 < segment_end (phdrs i))
      → (phdrs n).p_type ≡ pt_load
      → IsEnd phdrs memory n file
      → IsEnd phdrs memory (suc n) (widen_end file (phdrs n))
  unfolding widen_end
  widen_end-IsEnd positive t b =
      let end = file.virtual_end_address in
      elim (Bool-cases (leb end (segment_end (phdrs n)) || end == 0)) [
        | inl e ↦ rw e (record {
          loaded_at = b.loaded_at;
          greatest = λ i l. elim (split_last phdrs n i l) [
            | inl q ↦ rw q (omega arith)
            | inr l' ↦ elim b.origin [
              | inl (z, unloaded) ↦ absurd (unloaded i l')
              | inr (j, l'', v, p) ↦ ground (arith, b.greatest i l', positive j)
            ]
          ];
          origin = inr (
            n,
            (omega arith, t),
            refl,
            ap (λ m. add32 (add32 m (phdrs n).p_offset) (phdrs n).p_filesz) b.loaded_at,
          );
        })
        | inr e ↦ rw e (record {
          loaded_at = b.loaded_at;
          greatest = λ i l. elim (split_last phdrs n i l) [
            | inl q ↦ rw q (ground arith)
            | inr l' ↦ b.greatest i l'
          ];
          origin = elim b.origin [
            | inl (z, unloaded) ↦ absurd (ground arith)
            | inr (j, (l, u), v, p) ↦ inr (j, (omega arith, u), v, p)
          ];
        })
      ]

  widen_end-IsBase :
      (m : ℕ) (phdr : Elf32Phdr)
      → IsBase phdrs memory m file
      → IsBase phdrs memory m (widen_end file phdr)
  unfolding widen_end
  widen_end-IsBase m phdr b =
      elim (Bool-cases
        (leb file.virtual_end_address (segment_end phdr) || file.virtual_end_address == 0)) [
          | inl e ↦ rw e (record { loaded_at = b.loaded_at; least = b.least; origin = b.origin })
          | inr e ↦ rw e b
        ]

  widen_base-IsEnd :
      (m : ℕ) (phdr : Elf32Phdr)
      → IsEnd phdrs memory m file
      → IsEnd phdrs memory m (widen_base file phdr)
  unfolding widen_base
  widen_base-IsEnd m phdr b =
      elim (Bool-cases
        (leb phdr.p_vaddr file.virtual_base_address || file.virtual_base_address == 0)) [
          | inl e ↦
              rw e (record { loaded_at = b.loaded_at; greatest = b.greatest; origin = b.origin })
          | inr e ↦ rw e b
        ]

  not_loaded : (i : ℕ) → (phdrs n).p_type ≢ pt_load → Loads phdrs (suc n) i → Loads phdrs n i
  not_loaded i u (l, t) = elim (split_last phdrs n i (l, t)) [
    | inl q ↦ absurd (u (ap (λ k. (phdrs k).p_type) (sym q) ∙ t))
    | inr l' ↦ l'
  ]

  other_type-IsBase :
      (phdrs n).p_type ≢ pt_load → IsBase phdrs memory n file → IsBase phdrs memory (suc n) file
  other_type-IsBase u b = record {
    loaded_at = b.loaded_at;
    least = λ i l. b.least i (not_loaded i u l);
    origin = elim b.origin [
      | inl (z, unloaded) ↦ inl (z, λ i l. unloaded i (not_loaded i u l))
      | inr (j, (l, t), v, p) ↦ inr (j, (omega arith, t), v, p)
    ];
  }

  other_type-IsEnd :
      (phdrs n).p_type ≢ pt_load → IsEnd phdrs memory n file → IsEnd phdrs memory (suc n) file
  other_type-IsEnd u b = record {
    loaded_at = b.loaded_at;
    greatest = λ i l. b.greatest i (not_loaded i u l);
    origin = elim b.origin [
      | inl (z, unloaded) ↦ inl (z, λ i l. unloaded i (not_loaded i u l))
      | inr (j, (l, t), v, p) ↦ inr (j, (omega arith, t), v, p)
    ];
  }

-- Both ends, as far as the first `n` headers go.
abbrev pub Spans : (ℕ → Elf32Phdr) → ℕ → ℕ → ElfFile → Type 0
Spans phdrs memory n file = IsBase phdrs memory n file × IsEnd phdrs memory n file

-- An address of 0 would stand for none yet.
abbrev pub AllPositive : (ℕ → Elf32Phdr) → Type 0
AllPositive phdrs = (i : ℕ) → (0 < (phdrs i).p_vaddr) × (0 < segment_end (phdrs i))

pub process_pheader-Spans :
    (phdrs : ℕ → Elf32Phdr) (memory n : ℕ) (file : ElfFile)
    → AllPositive phdrs
    → Spans phdrs memory n file
    → Spans phdrs memory (suc n) (elf_process_pheader file (phdrs n))
unfolding elf_process_pheader elf_process_phdr_pt_load
process_pheader-Spans phdrs memory n file positive (b, d) =
    let p = phdrs n in
    elim (Bool-cases (p.p_type == pt_load)) [
      | inl e ↦
          let t : p.p_type ≡ pt_load = ground arith in
          let file' = widen_base file p in
          rw e (
            widen_end-IsBase phdrs memory n file' (suc n) p
                (widen_base-IsBase phdrs memory n file (λ i. (positive i).0) t b),
            widen_end-IsEnd phdrs memory n file' (λ i. (positive i).1) t
                (widen_base-IsEnd phdrs memory n file n p d),
          )
      | inr e ↦
          let t : p.p_type ≢ pt_load = ground arith in
          rw e (other_type-IsBase phdrs memory n file t b, other_type-IsEnd phdrs memory n file t d)
    ]
