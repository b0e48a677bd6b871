-- ===== src/Paging/Identity.antt =====
-- src/memory/paging.c: what the tables of a new address space hold.
use Prim.Native.Nat.{bit_or}
use tmp_os.Base.{
  ℕ, zero, suc, ◌+◌, ◌-◌, ◌*◌, ◌/◌, ◌%◌, ◌^◌, ◌<◌, ◌≤◌, ◌≡◌, ◌∙◌, refl, ap, false, some, arith, inl,
  inr, ◌⊎◌,
}
use tmp_os.Base.Bits.{bit_or_page}
use tmp_os.Memory.Heap.{Heap, has_next}
use tmp_os.Memory.Kheap.{memset, kzalloc}
use tmp_os.Memory.Pages.{
  IsPage, block_entry, IsReady, Given, free_blocks, kzalloc-Given, kfree-single,
}
use tmp_os.Paging.{page_size, table_span, Words, write_word, address_only, paging_get}
use tmp_os.Paging.Map.{IsDirectory, write_same, write_other, get_aligned}
use tmp_os.Paging.Chunk.{
  total_entries, fill_directory, paging_new_chunk, paging_4gb_chunk_get_dir, free_tables,
  paging_free_chunk,
}
use tmp_os.Paging.Filling.{In, memset_outside, outside}
use tmp_os.Paging.Built.{Built, Built-kept, Filled, fill_directory-Filled, off_page}

-- A new address space, by the address of its chunk.
record NewChunk (chunk flags : ℕ) (h h' : Heap) (mem mem' : Words) : Type 0 where
  pub ready : IsReady h'
  pub taken : free_blocks h' + 1026 ≡ free_blocks h
  pub page : IsPage h' chunk
  pub chunk_single : has_next (block_entry h' chunk) ≡ false
  pub built : Built 1024 (paging_4gb_chunk_get_dir chunk mem') flags h' mem'
  pub kept : (a : ℕ) → IsPage h a → IsPage h' a
  pub same : (a j : ℕ) → IsPage h a → j < 1024 → mem' (a + 4 * j) ≡ mem (a + 4 * j)

four_outside : (p x : ℕ) → ¬ In p x → (x < p + 4 * 0) ⊎ (p + 4 ≤ x)
four_outside p x n = elim (outside p x n) [ inl l ↦ inl l | inr l ↦ inr (omega arith) ]

-- An allocation and a write of its first word.
chunk_same :
    (chunk v x : ℕ) (mem zeroed : Words)
    → zeroed ≡ memset chunk 0 4 mem
    → ¬ In chunk x
    → write_word chunk v zeroed x ≡ mem x
chunk_same chunk v x mem zeroed e n =
    write_other chunk x v zeroed (λ q. n (omega arith))
    ∙ ap (λ z. z x) e
    ∙ memset_outside chunk 4 x mem (four_outside chunk x n)

-- The directory, its tables and the chunk, in this order.
NewChunk-intro :
    (flags dir chunk free : ℕ) (h h₁ h₂ h₃ : Heap) (mem m₁ m₂ m₃ : Words)
    → Given (4 * total_entries) dir h h₁ mem m₁
    → Filled 1024 dir flags h₁ h₂ m₁ m₂ free
    → Given 4 chunk h₂ h₃ m₂ m₃
    → free + 1025 ≡ free_blocks h
    → NewChunk chunk flags h h₃ mem (write_word chunk dir m₃)
unfolding paging_4gb_chunk_get_dir
NewChunk-intro flags dir chunk free h h₁ h₂ h₃ mem m₁ m₂ m₃ g F g₃ room =
    let last = write_word chunk dir m₃ in
    let is_dir : last chunk ≡ dir = write_same chunk chunk dir m₃ refl in
    let same : (a j : ℕ) → IsPage h₂ a → j < 1024 → last (a + 4 * j) ≡ m₂ (a + 4 * j) = λ a j w m.
      chunk_same chunk dir (a + 4 * j) m₂ m₃ g₃.zeroed (off_page 4 chunk h₂ h₃ m₂ m₃ a j g₃ w m) in
    record {
      ready = g₃.ready;
      taken = omega (arith, F.room, g₃.one_less);
      page = g₃.page;
      chunk_single = g₃.last;
      built = rw is_dir (
          Built-kept 1024 dir flags 4 chunk h₂ h₃ m₂ m₃ last (omega arith) F.built g₃
            (λ a j w m _. same a j w m));
      kept = λ a w. g₃.kept a (F.kept a (g.kept a w));
      same = λ a j w m.
          same a j (F.kept a (g.kept a w)) m
          ∙ F.same a j (g.kept a w) (g.fresh a w) m
          ∙ ap (λ z. z (a + 4 * j)) g.zeroed
          ∙ memset_outside dir (4 * total_entries) (a + 4 * j) mem
              (outside dir (a + 4 * j) (off_page (4 * total_entries) dir h h₁ mem m₁ a j g w m));
    }

paging_new_chunk-NewChunk :
    (flags : ℕ) (h : Heap) (mem : Words)
    → IsReady h
    → flags < page_size
    → 1026 ≤ free_blocks h
    → let (chunk, h', mem') = paging_new_chunk flags h mem in NewChunk chunk flags h h' mem mem'
unfolding paging_new_chunk paging_4gb_chunk_get_dir
paging_new_chunk-NewChunk flags h mem ready f room =
    let (dir, h₁, zeroed) = kzalloc (4 * total_entries) h mem in
    let g =
      kzalloc-Given (4 * total_entries) h mem ready (omega arith) (omega arith) (omega arith) in
    let start : Built 0 dir flags h₁ zeroed = record {
      directory = g.page;
      directory_single = g.last;
      single = λ t m. absurd (omega arith);
      page = λ t m. absurd (omega arith);
      apart = λ t u m. absurd (omega arith);
      beside = λ t m. absurd (omega arith);
      maps = λ t j m. absurd (omega arith);
    } in
    let (h₂, mem₂) = fill_directory total_entries 0 dir 0 flags h₁ zeroed in
    let F =
      fill_directory-Filled total_entries 0 dir 0 flags h₁ zeroed (free_blocks h - 1025)
        (omega arith) f (omega arith) g.ready (omega (arith, g.one_less)) start in
    let (chunk, h₃, zeroed₃) = kzalloc 4 h₂ mem₂ in
    let g₃ = kzalloc-Given 4 h₂ mem₂ F.ready (omega (arith, F.room)) (omega arith) (omega arith) in
    NewChunk-intro flags dir chunk (free_blocks h - 1025) h h₁ h₂ h₃ mem zeroed mem₂ zeroed₃ g F g₃
      (omega arith)

Built-IsDirectory :
    (dir flags : ℕ) (h : Heap) (mem : Words) → Built 1024 dir flags h mem → IsDirectory dir mem
Built-IsDirectory dir flags h mem b = record {
  aligned = b.directory.aligned;
  apart = λ i j l m ne. b.apart i j l m ne;
  tables = λ i l. b.beside i l;
}

Built-get :
    (dir flags a : ℕ) (h : Heap) (mem : Words)
    → Built 1024 dir flags h mem
    → flags < page_size
    → a < 2 ^ 32
    → a % page_size ≡ 0
    → paging_get dir a mem ≡ a + flags
Built-get dir flags a h mem b f l e =
    get_aligned dir a mem e
    ∙ b.maps (a / table_span) (a % table_span / page_size) (omega arith) (omega arith)
    ∙ ap (λ n. bit_or n flags) (omega arith)
    ∙ bit_or_page a flags e f

-- A new address space maps every page to itself with the flags, as long as the heap has a block for
-- its directory, for each of the 1024 tables and for the chunk. The pages that were taken before
-- keep their words.
pub new_chunk-get :
    (flags : ℕ) (h : Heap) (mem : Words)
    → IsReady h
    → flags < page_size
    → 1026 ≤ free_blocks h
    → let (chunk, h', mem') = paging_new_chunk flags h mem in
      let dir = paging_4gb_chunk_get_dir chunk mem' in
      IsDirectory dir mem'
      × ((a : ℕ) → a < 2 ^ 32 → a % page_size ≡ 0 → paging_get dir a mem' ≡ a + flags)
      × ((a j : ℕ) → IsPage h a → j < 1024 → mem' (a + 4 * j) ≡ mem (a + 4 * j))
new_chunk-get flags h mem ready f room =
    let (chunk, h', mem') = paging_new_chunk flags h mem in
    let dir = paging_4gb_chunk_get_dir chunk mem' in
    let n = paging_new_chunk-NewChunk flags h mem ready f room in
    (
      Built-IsDirectory dir flags h' mem' n.built,
      λ a l e. Built-get dir flags a h' mem' n.built f l e,
      n.same,
    )

free_tables-kept :
    (k i dir flags : ℕ) (h : Heap) (mem : Words)
    → i + k ≤ 1024
    → IsReady h
    → Built 1024 dir flags h mem
    → free_tables k i dir mem h ≡ some h
unfolding free_tables
free_tables-kept zero i dir flags h mem l ready b = refl
free_tables-kept (suc k) i dir flags h mem l ready b =
    rw
      (
        kfree-single h (address_only (mem (dir + 4 * i))) ready (b.page i (omega arith))
            (b.single i (omega arith)),
        free_tables,
      )
      (free_tables-kept k (i + 1) dir flags h mem (omega arith) ready b)

-- Making an address space takes 1026 blocks, and its release gives none of them back.
pub free_chunk-leaks :
    (flags : ℕ) (h : Heap) (mem : Words)
    → IsReady h
    → flags < page_size
    → 1026 ≤ free_blocks h
    → let (chunk, h', mem') = paging_new_chunk flags h mem in
      (free_blocks h' + 1026 ≡ free_blocks h) × (paging_free_chunk chunk mem' h' ≡ some h')
unfolding paging_free_chunk
free_chunk-leaks flags h mem ready f room =
    let (chunk, h', mem') = paging_new_chunk flags h mem in
    let dir = paging_4gb_chunk_get_dir chunk mem' in
    let n = paging_new_chunk-NewChunk flags h mem ready f room in
    (
      n.taken,
      rw
          (
            free_tables-kept 1024 0 dir flags h' mem' (omega arith) n.ready n.built,
            kfree-single h' dir n.ready n.built.directory n.built.directory_single,
            kfree-single h' chunk n.ready n.page n.chunk_single,
            paging_free_chunk,
          )
          refl,
    )
