-- ===== src/Task/Copying.antt =====
-- src/task/task.c: the copy of a string from a task's memory, over the bytes in memory. A word is
-- four of them, from any address on. The reads and writes go through the page tables in use.
use tmp_os.Base.{
  ℕ, zero, suc, ◌+◌, ◌-◌, ◌*◌, ◌/◌, ◌%◌, ◌^◌, ◌==◌, ◌||◌, Option, some, leb, if◌then◌else◌,
}
use mathlib.Core.Option
use tmp_os.Base.Int.{ℤ, pos, is_neg}
use tmp_os.Base.Errno.{neg_eio, neg_einvarg, neg_enomem}
use tmp_os.Memory.Heap.{Heap}
use tmp_os.Memory.Kheap.{Memory, kzalloc, kfree}
use tmp_os.Paging.{Words, page_size, paging_get, paging_set, paging_map}
use tmp_os.Task.Stack.{Mmu}

unfoldable pub words_of : Memory → Words
words_of mem a = mem a + 2 ^ 8 * mem (a + 1) + 2 ^ 16 * mem (a + 2) + 2 ^ 24 * mem (a + 3)

-- The bytes of the aligned words.
unfoldable pub bytes_of : Words → Memory
bytes_of words a = words (a - a % 4) / 256 ^ (a % 4) % 256

unfoldable pub write_byte : ℕ → ℕ → Memory → Memory
write_byte address value mem a = if address == a then value else mem a

-- The loop of `strncpy` by the bytes left, where `at` gives the place of a virtual address.
unfoldable pub strncpy_loop : (ℕ → Memory → ℕ) → ℕ → ℕ → ℕ → ℕ → Memory → Memory
strncpy_loop at zero i dest src mem = write_byte (at (dest + i) mem) 0 mem
strncpy_loop at (suc n) i dest src mem =
    let c = mem (at (src + i) mem) in
    let rest = strncpy_loop at n (i + 1) dest src (write_byte (at (dest + i) mem) c mem) in
    if c == 0 then write_byte (at (dest + i) mem) 0 mem else rest

unfoldable pub strncpy_under : Mmu → ℕ → ℕ → ℕ → ℕ → Memory → Memory
unfolding strncpy_loop
strncpy_under mmu directory dest src n mem =
    if (dest == 0) || (src == 0) || (dest == src)
    then mem
    else strncpy_loop (λ virt mem. mmu directory (virt % 2 ^ 32) (words_of mem)) n 0 dest src mem

-- PAGING_IS_WRITABLE | PAGING_IS_PRESENT | PAGING_ACESS_FROM_ALL
abbrev pub copy_flags : ℕ
copy_flags = 7

-- `paging_map` of the buffer. It takes a chunk and finds the directory in its first word, and is
-- given the directory.
unfoldable pub map_buffer : ℕ → ℕ → Words → ℤ × Words
map_buffer task_directory tmp words = paging_map (words task_directory) tmp tmp copy_flags words

-- The copy with the buffer `tmp` that `kzalloc` gave. Its result is negative where the old
-- entry is not put back.
unfoldable pub copy_with : Mmu → ℕ → ℕ → ℕ → ℕ → ℕ → ℕ → Memory → ℤ × Memory
unfolding map_buffer
copy_with mmu kernel_directory task_directory tmp virtual phys max mem =
    let old_entry = paging_get task_directory tmp (words_of mem) in
    let mapped = bytes_of (map_buffer task_directory tmp (words_of mem)).1 in
    let copied = strncpy_under mmu task_directory tmp virtual max mapped in
    let (res, words) = paging_set task_directory tmp old_entry (words_of copied) in
    if is_neg res
    then (neg_eio, bytes_of words)
    else (pos 0, strncpy_under mmu kernel_directory phys tmp max (bytes_of words))

-- For the task with this page directory; `none`: `kfree` reads beyond the table of blocks.
unfoldable pub copy_string_from_task :
    Mmu → ℕ → ℕ → ℕ → ℕ → ℕ → Heap → Memory → Option (ℤ × Heap × Memory)
copy_string_from_task mmu kernel_directory page_dir virtual phys max heap mem =
    let (tmp, heap', mem') = kzalloc max heap mem in
    let (res, copied) =
      copy_with mmu kernel_directory (words_of mem' page_dir) tmp virtual phys max mem' in
    if leb page_size max
    then some (neg_einvarg, heap, mem)
    else if tmp == 0
    then some (neg_enomem, heap', mem')
    else if is_neg res
    then Option.map (λ freed. (res, freed, copied)) (kfree tmp heap')
    else some (res, heap', copied)
