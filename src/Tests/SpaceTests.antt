-- ===== src/Tests/SpaceTests.antt =====
-- src/memory/paging.c on the heap of the start-up, and src/fs/ext/ext2.c on a small disk.
use tmp_os.Base.{
  ℕ, ◌+◌, ◌*◌, ◌^◌, ◌%◌, ◌<◌, ◌≤◌, ◌≡◌, refl, true, false, none, some, List, [], ◌∷◌, ◌==◌, arith,
  if◌then◌else◌, length-replicate, replicate,
}
use tmp_os.Base.Int.{pos}
use tmp_os.Base.Errno.{neg_efsnotus}
use tmp_os.Memory.Heap.{Heap}
use tmp_os.Memory.Kheap.{kheap_init}
use tmp_os.Memory.Pages.{IsReady, IsPage, free_blocks, kheap_init-IsReady}
use tmp_os.Paging.{page_size, Words, write_word, paging_get}
use tmp_os.Paging.Map.{IsDirectory}
use tmp_os.Paging.Chunk.{
  fill_entries, paging_new_chunk, paging_4gb_chunk_get_dir, paging_free_chunk,
}
use tmp_os.Paging.Identity.{new_chunk-get, free_chunk-leaks}
use tmp_os.Disk.{Controller}
use tmp_os.Disk.Sector.{IsDisk, address, slice}
use tmp_os.Ext2.{
  Ext2Private, Ext2Disk, ext2_resolve, ext2_signature, superblock_of, ext2_get_inode_group,
  ext2_get_inode_pos_in_group,
}
use tmp_os.Ext2.Superblock.{superblock_on, ext2_resolve_cases, inode_place}
use tmp_os.Readline.{waiting, returned, getkey_block, readline_loop, terminal_readline}
use tmp_os.Readline.Typed.{Reads, typed}
use tmp_os.Readline.Editing.{readline-Reads}

abbrev blank : Words
blank a = 0

-- Three entries of the table at 8192, behind the first 4 MB.
three_entries :
    let mem = fill_entries 3 0 8192 0x400000 7 blank in
    (mem 8192 ≡ 0x400007) × (mem 8196 ≡ 0x401007) × (mem 8200 ≡ 0x402007) × (mem 8204 ≡ 0)
unfolding fill_entries write_word
three_entries = (refl, refl, refl, refl)

abbrev no_heap : Heap
no_heap = record { table = record { entries = []; total = 0 }; saddr = 0 }

pub start_heap : Heap
start_heap = (kheap_init no_heap (replicate 25600 0)).1

pub start_heap-IsReady : IsReady start_heap × (free_blocks start_heap ≡ 25600)
unfolding start_heap
start_heap-IsReady =
    kheap_init-IsReady no_heap (replicate 25600 0) (length-replicate {A = ℕ} 25600 0)

pub start_heap_room : 1026 ≤ free_blocks start_heap
start_heap_room = omega (arith, start_heap-IsReady.1)

new_chunk-get_example :
    let (chunk, h', mem') = paging_new_chunk 7 start_heap blank in
    let dir = paging_4gb_chunk_get_dir chunk mem' in
    IsDirectory dir mem'
    × ((a : ℕ) → a < 2 ^ 32 → a % page_size ≡ 0 → paging_get dir a mem' ≡ a + 7)
    × ((a j : ℕ) → IsPage start_heap a → j < 1024 → mem' (a + 4 * j) ≡ blank (a + 4 * j))
new_chunk-get_example =
    new_chunk-get 7 start_heap blank start_heap-IsReady.0 (omega arith) start_heap_room

free_chunk-leaks_example :
    let (chunk, h', mem') = paging_new_chunk 7 start_heap blank in
    (free_blocks h' + 1026 ≡ free_blocks start_heap) × (paging_free_chunk chunk mem' h' ≡ some h')
free_chunk-leaks_example =
    free_chunk-leaks 7 start_heap blank start_heap-IsReady.0 (omega arith) start_heap_room

-- The signature, and 8 inodes in a group.
abbrev ext_byte : ℕ → ℕ
ext_byte a = if a == 1080 then 0x53 else if a == 1081 then 0xef else if a == 1064 then 8 else 0

ext_byte_bound : (a : ℕ) → ext_byte a < 256
ext_byte_bound a = ground arith

abbrev ext_disk : Controller
ext_disk r k = ext_byte (address r * 512 + 2 * k) + 256 * ext_byte (address r * 512 + 2 * k + 1)

ext_disk-IsDisk : IsDisk ext_byte ext_disk
ext_disk-IsDisk = record { is_byte = ext_byte_bound; answers = λ r k e d h. refl }

abbrev zeroed : Ext2Private
zeroed = record { sb = superblock_of [] }

abbrev on_disk : Ext2Private
on_disk = record { sb = superblock_on ext_byte }

abbrev the_ext2_disk : Ext2Disk
the_ext2_disk = record { id = 0; fs_private = none; fs = false }

ext2_resolve_cases_example :
    ext2_resolve ext_disk (some zeroed) the_ext2_disk
    ≡ some (
        if ext_byte 1080 + 256 * ext_byte 1081 == ext2_signature
        then (pos 0, record { id = 0; fs_private = some on_disk; fs = true })
        else (neg_efsnotus, record { id = 0; fs_private = none; fs = false }))
ext2_resolve_cases_example =
    ext2_resolve_cases ext_byte ext_disk zeroed the_ext2_disk ext_disk-IsDisk refl

inode_place_example :
    (ext2_get_inode_group 21 on_disk * on_disk.sb.inodes_in_group
        + ext2_get_inode_pos_in_group 21 on_disk
        + 1
      ≡ 21)
    × (ext2_get_inode_pos_in_group 21 on_disk < on_disk.sb.inodes_in_group)
unfolding superblock_of slice
inode_place_example = inode_place 21 on_disk (omega arith) (omega arith) (omega arith)

-- `a`, `b`, a backspace, no key, `c` and a return.
abbrev some_keys : List ℕ
some_keys = b'a' ∷ b'b' ∷ 8 ∷ 0 ∷ b'c' ∷ 13 ∷ b'd' ∷ []

typed_line :
    terminal_readline some_keys (replicate 6 1) 5 true
    ≡ returned (b'a' ∷ b'c' ∷ 0 ∷ 1 ∷ 1 ∷ 1 ∷ []) (b'a' ∷ b'b' ∷ 8 ∷ b'c' ∷ []) (b'd' ∷ [])
unfolding terminal_readline readline_loop getkey_block
typed_line = refl

-- The first key is a backspace, and is put into the line.
first_backspace :
    terminal_readline (8 ∷ b'a' ∷ 13 ∷ []) (replicate 3 1) 3 false
    ≡ returned (8 ∷ b'a' ∷ 0 ∷ []) [] (13 ∷ [])
unfolding terminal_readline readline_loop getkey_block
first_backspace = refl

not_finished : terminal_readline (b'a' ∷ 0 ∷ []) (replicate 3 1) 3 false ≡ waiting
unfolding terminal_readline readline_loop getkey_block
not_finished = refl

readline-Reads_example :
    Reads 5 true
      (replicate 6 1)
      (typed 5 [] some_keys)
      (terminal_readline some_keys (replicate 6 1) 5 true)
readline-Reads_example = readline-Reads 5 true some_keys (replicate 6 1) (omega arith) (omega arith)
