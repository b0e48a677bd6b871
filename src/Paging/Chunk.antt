-- ===== src/Paging/Chunk.antt =====
-- src/memory/paging.c: the making of an address space, and its release.
use Prim.Native.Nat.{bit_or}
use tmp_os.Base.{ℕ, zero, suc, ◌+◌, ◌*◌, ◌^◌, ◌%◌, Option, none, some}
use tmp_os.Memory.Heap.{Heap}
use tmp_os.Memory.Kheap.{kzalloc, kfree}
use tmp_os.Paging.{page_size, table_span, Words, write_word, address_only}

abbrev pub total_entries : ℕ
total_entries = 1024

abbrev pub is_writable : ℕ
is_writable = 0b00000010

-- The inner loop, by the entries left.
unfoldable pub fill_entries : ℕ → ℕ → ℕ → ℕ → ℕ → Words → Words
fill_entries zero j entry offset flags mem = mem
fill_entries (suc k) j entry offset flags mem =
    fill_entries k (j + 1) entry offset flags
      (write_word (entry + 4 * j) (bit_or ((offset + j * page_size) % 2 ^ 32) flags) mem)

-- The outer loop, by the tables left.
unfoldable pub fill_directory : ℕ → ℕ → ℕ → ℕ → ℕ → Heap → Words → Heap × Words
fill_directory zero i directory offset flags h mem = (h, mem)
fill_directory (suc k) i directory offset flags h mem =
    let (entry, h', zeroed) = kzalloc (4 * total_entries) h mem in
    let filled = fill_entries total_entries 0 entry offset flags zeroed in
    fill_directory k (i + 1) directory ((offset + table_span) % 2 ^ 32) flags h'
      (write_word (directory + 4 * i) (bit_or (bit_or entry flags) is_writable) filled)

-- The address of the chunk, whose only field is the address of its directory.
unfoldable pub paging_new_chunk : ℕ → Heap → Words → ℕ × Heap × Words
paging_new_chunk flags h mem =
    let (directory, h', zeroed) = kzalloc (4 * total_entries) h mem in
    let (h'', filled) = fill_directory total_entries 0 directory 0 flags h' zeroed in
    let (chunk, last, mem') = kzalloc 4 h'' filled in (chunk, last, write_word chunk directory mem')

unfoldable pub paging_4gb_chunk_get_dir : ℕ → Words → ℕ
paging_4gb_chunk_get_dir chunk mem = mem chunk

-- The loop of `paging_free_chunk` by the tables left. `none`: `kfree` leaves the table of blocks.
unfoldable pub free_tables : ℕ → ℕ → ℕ → Words → Heap → Option Heap
free_tables zero i directory mem h = some h
free_tables (suc k) i directory mem h = elim (kfree (address_only (mem (directory + 4 * i))) h) [
  | none ↦ none
  | some h' ↦ free_tables k (i + 1) directory mem h'
]

unfoldable pub paging_free_chunk : ℕ → Words → Heap → Option Heap
paging_free_chunk chunk mem h =
    elim (free_tables total_entries 0 (paging_4gb_chunk_get_dir chunk mem) mem h) [
      | none ↦ none
      | some h' ↦ elim (kfree (paging_4gb_chunk_get_dir chunk mem) h') [
        | none ↦ none
        | some h'' ↦ kfree chunk h''
      ]
    ]
