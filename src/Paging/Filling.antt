-- ===== src/Paging/Filling.antt =====
-- src/memory/paging.c: the words that one round of `paging_new_chunk` writes.
use Prim.Native.Nat.{bit_or}
use mathlib.Core.Path.{subst}
use tmp_os.Base.{
  ℕ, zero, suc, ◌+◌, ◌*◌, ◌%◌, ◌^◌, ◌<◌, ◌≤◌, ◌≡◌, ◌≢◌, ◌∙◌, refl, sym, ap, ◌==◌, ltb, arith,
  Bool-cases, inl, inr, ◌⊎◌,
}
use tmp_os.Memory.Kheap.{memset}
use tmp_os.Paging.{page_size, Words, write_word}
use tmp_os.Paging.Map.{write_same, write_other}
use tmp_os.Paging.Chunk.{total_entries, is_writable, fill_entries}

abbrev entry_value : ℕ → ℕ → ℕ → ℕ
entry_value offset j flags = bit_or ((offset + j * page_size) % 2 ^ 32) flags

fill_outside :
    (k j entry offset flags : ℕ) (mem : Words) (x : ℕ)
    → (x < entry + 4 * j) ⊎ (entry + 4 * (j + k) ≤ x)
    → fill_entries k j entry offset flags mem x ≡ mem x
unfolding fill_entries write_word
fill_outside zero j entry offset flags mem x o = refl
fill_outside (suc k) j entry offset flags mem x o =
    fill_outside k (j + 1) entry offset flags
      (write_word (entry + 4 * j) (entry_value offset j flags) mem) x (ground (arith, o))
    ∙ ground (arith, o)

fill_inside :
    (k j entry offset flags : ℕ) (mem : Words) (t : ℕ)
    → j ≤ t
    → t < j + k
    → fill_entries k j entry offset flags mem (entry + 4 * t) ≡ entry_value offset t flags
unfolding fill_entries
fill_inside zero j entry offset flags mem t a b = absurd (omega arith)
fill_inside (suc k) j entry offset flags mem t a b = elim (Bool-cases (j == t)) [
  | inl e ↦
      fill_outside k (j + 1) entry offset flags
        (write_word (entry + 4 * j) (entry_value offset j flags) mem) (entry + 4 * t)
        (inl (ground arith))
      ∙ write_same (entry + 4 * j) (entry + 4 * t) (entry_value offset j flags) mem (ground arith)
      ∙ ap (λ n. entry_value offset n flags) (ground arith)
  | inr e ↦
      fill_inside k (j + 1) entry offset flags
        (write_word (entry + 4 * j) (entry_value offset j flags) mem) t (ground arith) (omega arith)
]

-- A word of page `p`.
abbrev pub In : ℕ → ℕ → Type 0
In p x = (p ≤ x) × (x < p + page_size)

-- The words behind one round of the outer loop, that makes a table on page `p`.
pub record Round (i dir offset flags p : ℕ) (mem mem' : Words) : Type 0 where
  pub same : (x : ℕ) → ¬ In p x → x ≢ dir + 4 * i → mem' x ≡ mem x
  pub table : (t : ℕ) → t < 1024 → mem' (p + 4 * t) ≡ entry_value offset t flags
  pub entry : mem' (dir + 4 * i) ≡ bit_or (bit_or p flags) is_writable

pub outside : (p x : ℕ) → ¬ In p x → (x < p + 4 * 0) ⊎ (p + 4 * (0 + total_entries) ≤ x)
outside p x n = elim (Bool-cases (ltb x p)) [
  | inl e ↦ inl (ground arith)
  | inr e ↦ elim (Bool-cases (ltb x (p + page_size))) [
    | inl f ↦ absurd (n (ground arith))
    | inr f ↦ inr (ground arith)
  ]
]

pub memset_outside :
    (p size x : ℕ) (mem : Words) → (x < p + 4 * 0) ⊎ (p + size ≤ x) → memset p 0 size mem x ≡ mem x
unfolding memset
memset_outside p size x mem o = ground (arith, o)

Round-fill :
    (i dir offset flags p : ℕ) (mem : Words)
    → ¬ In p (dir + 4 * i)
    → Round i dir offset flags p mem (
        write_word
          (dir + 4 * i)
          (bit_or (bit_or p flags) is_writable)
          (fill_entries total_entries 0 p offset flags (memset p 0 (4 * total_entries) mem)))
Round-fill i dir offset flags p mem o =
    let value = bit_or (bit_or p flags) is_writable in
    let zeroed = memset p 0 (4 * total_entries) mem in
    let filled = fill_entries total_entries 0 p offset flags zeroed in
    record {
      same = λ x n ne.
          write_other (dir + 4 * i) x value filled (λ e. ne (sym e))
          ∙ fill_outside total_entries 0 p offset flags zeroed x (outside p x n)
          ∙ memset_outside p (4 * total_entries) x mem (outside p x n);
      table = λ t l.
          write_other (dir + 4 * i) (p + 4 * t) value filled (λ e. o (omega arith))
          ∙ fill_inside total_entries 0 p offset flags zeroed t (omega arith) (omega arith);
      entry = write_same (dir + 4 * i) (dir + 4 * i) value filled refl;
    }

pub Round-Given :
    (i dir offset flags p : ℕ) (mem zeroed : Words)
    → zeroed ≡ memset p 0 (4 * total_entries) mem
    → ¬ In p (dir + 4 * i)
    → Round i dir offset flags p mem (
        write_word
          (dir + 4 * i)
          (bit_or (bit_or p flags) is_writable)
          (fill_entries total_entries 0 p offset flags zeroed))
Round-Given i dir offset flags p mem zeroed e o =
    subst
      (λ z. Round i dir offset flags p mem (
        write_word (dir + 4 * i) (bit_or (bit_or p flags) is_writable)
          (fill_entries total_entries 0 p offset flags z)))
      (sym e) (Round-fill i dir offset flags p mem o)
