-- ===== src/Paging/Built.antt =====
-- src/memory/paging.c: the tables that `paging_new_chunk` has made so far.
use Prim.Native.Nat.{bit_or}
use mathlib.Core.Path.{subst}
use tmp_os.Base.{
  ℕ, zero, suc, ◌+◌, ◌*◌, ◌%◌, ◌^◌, ◌<◌, ◌≤◌, ◌≡◌, ◌≢◌, ◌∙◌, refl, sym, ap, ◌==◌, false, arith,
  Bool-cases, inl, inr, ◌⊎◌,
}
use tmp_os.Base.Bits.{bit_or_flags}
use tmp_os.Memory.Heap.{Heap, has_next}
use tmp_os.Memory.Kheap.{kzalloc}
use tmp_os.Memory.Pages.{
  IsPage, block_entry, entry-Given, IsReady, Given, free_blocks, kzalloc-Given,
}
use tmp_os.Paging.{page_size, table_span, Words, write_word, address_only}
use tmp_os.Paging.Chunk.{total_entries, is_writable, fill_entries, fill_directory}
use tmp_os.Paging.Filling.{In, Round, Round-Given}

-- The first `i` tables of a directory that is being filled.
pub record Built (i dir flags : ℕ) (h : Heap) (mem : Words) : Type 0 where
  pub directory : IsPage h dir
  pub directory_single : has_next (block_entry h dir) ≡ false
  pub single : (t : ℕ) → t < i → has_next (block_entry h (address_only (mem (dir + 4 * t)))) ≡ false
  pub page : (t : ℕ) → t < i → IsPage h (address_only (mem (dir + 4 * t)))
  pub apart :
      (t u : ℕ)
      → t < i
      → u < i
      → t ≢ u
      → address_only (mem (dir + 4 * t)) ≢ address_only (mem (dir + 4 * u))
  pub beside : (t : ℕ) → t < i → address_only (mem (dir + 4 * t)) ≢ dir
  pub maps :
      (t j : ℕ)
      → t < i
      → j < 1024
      → mem (address_only (mem (dir + 4 * t)) + 4 * j) ≡ bit_or ((t * 1024 + j) * page_size) flags

lt_cases : (t i : ℕ) → t < suc i → (t < i) ⊎ (t ≡ i)
lt_cases t i h = elim (Bool-cases (t == i)) [
  | inl e ↦ inr (ground arith)
  | inr e ↦ inl (ground arith)
]

pub off_page :
    (size p : ℕ) (h h' : Heap) (mem zeroed : Words) (a j : ℕ)
    → Given size p h h' mem zeroed
    → IsPage h a
    → j < 1024
    → ¬ In p (a + 4 * j)
off_page size p h h' mem zeroed a j g w m n = g.fresh a w (omega (arith, w.aligned, g.page.aligned))

-- A further allocation keeps what was built, where only its page and later entries are written.
module _ (i dir flags size p : ℕ) (h h' : Heap) (mem zeroed mem' : Words) (l : i ≤ 1024)
    (b : Built i dir flags h mem) (g : Given size p h h' mem zeroed)
    (same : (a j : ℕ)
      → IsPage h a
      → j < 1024
      → (a ≡ dir → j < i)
      → mem' (a + 4 * j) ≡ mem (a + 4 * j)) where
  old_table : (t : ℕ) → t < i → address_only (mem' (dir + 4 * t)) ≡ address_only (mem (dir + 4 * t))
  old_table t m = ap (λ e. address_only e) (same dir t b.directory (omega arith) (λ _. m))

  old_fresh : (t : ℕ) → t < i → address_only (mem' (dir + 4 * t)) ≢ p
  old_fresh t m = rw (old_table t m) (g.fresh (address_only (mem (dir + 4 * t))) (b.page t m))

  old_maps :
      (t j : ℕ)
      → t < i
      → j < 1024
      → mem' (address_only (mem' (dir + 4 * t)) + 4 * j) ≡ bit_or ((t * 1024 + j) * page_size) flags
  old_maps t j k m =
      let a = address_only (mem (dir + 4 * t)) in
      ap (λ a. mem' (a + 4 * j)) (old_table t k)
      ∙ same a j (b.page t k) m (λ e. absurd (b.beside t k e))
      ∙ b.maps t j k m

  pub Built-kept : Built i dir flags h' mem'
  Built-kept = record {
    directory = g.kept dir b.directory;
    directory_single = rw (entry-Given size p h h' mem zeroed dir g b.directory) b.directory_single;
    single = λ t m.
        let a = address_only (mem (dir + 4 * t)) in
        rw (old_table t m, entry-Given size p h h' mem zeroed a g (b.page t m)) (b.single t m);
    page = λ t m. rw (old_table t m) (g.kept (address_only (mem (dir + 4 * t))) (b.page t m));
    apart = λ t u m n ne. rw (old_table t m, old_table u n) (b.apart t u m n ne);
    beside = λ t m. rw (old_table t m) (b.beside t m);
    maps = old_maps;
  }

-- A round adds the table that it makes.
module _ (i dir flags offset p : ℕ) (h h' : Heap) (mem zeroed mem' : Words) (l : i < 1024)
    (f : flags < page_size) (at : offset ≡ i * table_span) (b : Built i dir flags h mem)
    (g : Given (4 * total_entries) p h h' mem zeroed)
    (r : Round i dir offset flags p mem mem') where
  round_same :
      (a j : ℕ) → IsPage h a → j < 1024 → (a ≡ dir → j < i) → mem' (a + 4 * j) ≡ mem (a + 4 * j)
  round_same a j w m o =
      r.same (a + 4 * j) (off_page (4 * total_entries) p h h' mem zeroed a j g w m) (λ e.
        let k : a ≡ dir = omega (arith, w.aligned, b.directory.aligned) in
        absurd (omega (arith, o k)))

  new_table : (t : ℕ) → t ≡ i → address_only (mem' (dir + 4 * t)) ≡ p
  new_table t e =
      ap (λ n. address_only (mem' (dir + 4 * n))) e
      ∙ rw r.entry (bit_or_flags p flags is_writable g.page.aligned f (omega arith))

  new_maps :
      (t j : ℕ)
      → t ≡ i
      → j < 1024
      → mem' (address_only (mem' (dir + 4 * t)) + 4 * j) ≡ bit_or ((t * 1024 + j) * page_size) flags
  new_maps t j e m =
      ap (λ a. mem' (a + 4 * j)) (new_table t e)
      ∙ r.table j m
      ∙ ap (λ n. bit_or n flags) (omega arith)

  Built-suc : Built (suc i) dir flags h' mem'
  Built-suc =
      let size = 4 * total_entries in
      let old = Built-kept i dir flags size p h h' mem zeroed mem' (omega arith) b g round_same in
      let fresh = old_fresh i dir flags size p h h' mem zeroed mem' (omega arith) b g round_same in
      record {
        directory = old.directory;
        directory_single = old.directory_single;
        single = λ t m. elim (lt_cases t i m) [
          | inl k ↦ old.single t k
          | inr e ↦ rw (new_table t e) g.last
        ];
        page = λ t m. elim (lt_cases t i m) [
          | inl k ↦ old.page t k
          | inr e ↦ rw (new_table t e) g.page
        ];
        apart = λ t u m n ne. elim (lt_cases t i m) [
          | inl k ↦ elim (lt_cases u i n) [
            | inl k' ↦ old.apart t u k k' ne
            | inr e ↦ rw (new_table u e) (fresh t k)
          ]
          | inr e ↦ elim (lt_cases u i n) [
            | inl k' ↦ rw (new_table t e) (λ q. fresh u k' (sym q))
            | inr e' ↦ absurd (ne (e ∙ sym e'))
          ]
        ];
        beside = λ t m. elim (lt_cases t i m) [
          | inl k ↦ old.beside t k
          | inr e ↦ rw (new_table t e) (λ q. g.fresh dir b.directory (sym q))
        ];
        maps = λ t j m n. elim (lt_cases t i m) [
          | inl k ↦ old.maps t j k n
          | inr e ↦ new_maps t j e n
        ];
      }

-- What the loop and the allocations before and behind it leave.
pub record Filled (i dir flags : ℕ) (h h' : Heap) (mem mem' : Words) (free : ℕ) : Type 0 where
  pub ready : IsReady h'
  pub room : free_blocks h' ≡ free
  pub built : Built i dir flags h' mem'
  pub kept : (a : ℕ) → IsPage h a → IsPage h' a
  pub same : (a j : ℕ) → IsPage h a → a ≢ dir → j < 1024 → mem' (a + 4 * j) ≡ mem (a + 4 * j)

pub fill_directory-Filled :
    (k i dir offset flags : ℕ) (h : Heap) (mem : Words) (free : ℕ)
    → i + k ≤ 1024
    → flags < page_size
    → offset ≡ i * table_span % 2 ^ 32
    → IsReady h
    → free_blocks h ≡ k + free
    → Built i dir flags h mem
    → let (h', mem') = fill_directory k i dir offset flags h mem in
      Filled (i + k) dir flags h h' mem mem' free
unfolding fill_directory
fill_directory-Filled zero i dir offset flags h mem free l f at ready room b =
    let e : i + 0 ≡ i = omega arith in
    record {
      ready = ready;
      room = omega arith;
      built = rw e b;
      kept = λ a w. w;
      same = λ a j w n m. refl;
    }
fill_directory-Filled (suc k) i dir offset flags h mem free l f at ready room b =
    let (p, h', zeroed) = kzalloc (4 * total_entries) h mem in
    let g =
      kzalloc-Given (4 * total_entries) h mem ready (omega arith) (omega arith) (omega arith) in
    let filled = fill_entries total_entries 0 p offset flags zeroed in
    let mem' = write_word (dir + 4 * i) (bit_or (bit_or p flags) is_writable) filled in
    let r =
      Round-Given i dir offset flags p mem zeroed g.zeroed
        (λ n. g.fresh dir b.directory (omega (arith, b.directory.aligned, g.page.aligned))) in
    let b' =
      Built-suc i dir flags offset p h h' mem zeroed mem' (omega arith) f (omega arith) b g r in
    let rest =
      fill_directory-Filled k (i + 1) dir ((offset + table_span) % 2 ^ 32) flags h' mem' free
        (omega arith) f (omega arith) g.ready (omega (arith, g.one_less))
        (subst (λ n. Built n dir flags h' mem') (omega arith) b') in
    let e : i + 1 + k ≡ i + suc k = omega arith in
    record {
      ready = rest.ready;
      room = rest.room;
      built = rw (← e) rest.built;
      kept = λ a w. rest.kept a (g.kept a w);
      same = λ a j w n m.
          rest.same a j (g.kept a w) n m
          ∙ r.same (a + 4 * j) (λ q. g.fresh a w (omega (arith, w.aligned, g.page.aligned)))
              (λ q. n (omega (arith, w.aligned, b.directory.aligned)));
    }
