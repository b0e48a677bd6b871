-- ===== src/Task/Stray.antt =====
-- src/task/task.c: what the copy of a string does to the page tables and to the heap.
use tmp_os.Base.{ℕ, ◌+◌, ◌*◌, ◌/◌, ◌%◌, ◌^◌, ◌<◌, ◌≡◌, refl, ◌==◌, leb, false, some, arith}
use tmp_os.Base.Int.{pos}
use tmp_os.Memory.Heap.{Heap}
use tmp_os.Memory.Kheap.{Memory, kzalloc}
use tmp_os.Memory.Pages.{IsReady, free_blocks, kzalloc-Given}
use tmp_os.Paging.{page_size, table_span, write_word, paging_get}
use tmp_os.Paging.Map.{word_for, set_aligned}
use tmp_os.Task.Stack.{Mmu}
use tmp_os.Task.Copying.{
  words_of, bytes_of, map_buffer, copy_with, strncpy_under, copy_string_from_task,
}

-- Where the wrong mapping of the buffer is written.
abbrev pub stray : ℕ → ℕ
stray tmp = (tmp / table_span + 2) * 2 ^ 20 + 4 * (tmp % table_span / page_size)

-- A copy of a string of at most a page takes a block of the heap and does not give it back.
pub copy_string-leaks :
    (mmu : Mmu) (kernel_directory page_dir virtual phys max : ℕ) (heap : Heap) (mem : Memory)
    → IsReady heap
    → 0 < free_blocks heap
    → 0 < max
    → max < page_size
    → (heap' : Heap) × (mem' : Memory) × (copy_string_from_task mmu kernel_directory page_dir
          virtual phys max heap mem
        ≡ some (pos 0, heap', mem'))
      × (free_blocks heap' + 1 ≡ free_blocks heap)
unfolding copy_string_from_task copy_with
copy_string-leaks mmu kernel_directory page_dir virtual phys max heap mem ready free a b =
    let (tmp, heap', mem') = kzalloc max heap mem in
    let g = kzalloc-Given max heap mem ready free a (omega arith) in
    let dir = words_of mem' page_dir in
    let small : leb page_size max ≡ false = ground arith in
    let nonzero : (tmp == 0) ≡ false = ground (arith, g.page.base, g.ready.valid.nonzero) in
    let old_entry = paging_get dir tmp (words_of mem') in
    let mapped = bytes_of (map_buffer dir tmp (words_of mem')).1 in
    let copied = strncpy_under mmu dir tmp virtual max mapped in
    let back = set_aligned dir tmp old_entry (words_of copied) g.page.aligned in
    (
      heap',
      strncpy_under mmu kernel_directory phys tmp max
          (bytes_of (write_word (word_for dir tmp (words_of copied)) old_entry (words_of copied))),
      rw (small, nonzero, back, copy_string_from_task) refl,
      g.one_less,
    )
