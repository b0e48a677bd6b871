-- ===== src/Paging/Size.antt =====
-- src/memory/kheap.c: `vsize`, the size of a block of the heap by its virtual address.
use tmp_os.Base.{
  ℕ, ◌+◌, ◌-◌, ◌/◌, ◌%◌, ◌^◌, ◌≡◌, ◌≢◌, refl, false, ◌==◌, Option, some, if◌then◌else◌, length,
  arith,
}
use tmp_os.Base.Int.{sub32}
use tmp_os.Memory.Heap.{Heap, block_size}
use tmp_os.Memory.Kheap.{ksize, size_loop}
use tmp_os.Paging.{
  Words, address_only, paging_get, paging_get_physical_address, paging_align_to_lower_page,
}
use tmp_os.Paging.Chunk.{paging_4gb_chunk_get_dir}

-- Through the page tables of the chunk `kernel_chunk`.
unfoldable pub vsize : ℕ → ℕ → Heap → Words → Option ℕ
vsize kernel_chunk ptr heap mem =
    let ptr1 = paging_get_physical_address (paging_4gb_chunk_get_dir kernel_chunk mem) ptr mem in
    if ptr == 0
    then some 0
    else size_loop (length heap.table.entries + 1) (sub32 ptr1 heap.saddr / block_size)
        heap.table.entries 0

-- `vsize` of an address is `ksize` of the page that its entry names, where that is not page 0: the
-- offset in the page is lost.
pub vsize-ksize :
    (kernel_chunk ptr : ℕ) (heap : Heap) (mem : Words)
    → ptr ≢ 0
    → address_only (paging_get (paging_4gb_chunk_get_dir kernel_chunk mem) ptr mem) % 2 ^ 32 ≢ 0
    → vsize kernel_chunk ptr heap mem
      ≡ ksize
          (address_only (paging_get (paging_4gb_chunk_get_dir kernel_chunk mem) ptr mem) % 2 ^ 32)
          heap
unfolding vsize ksize paging_get_physical_address paging_align_to_lower_page
vsize-ksize kernel_chunk ptr heap mem h k =
    let entry = paging_get (paging_4gb_chunk_get_dir kernel_chunk mem) ptr mem in
    let page = address_only entry % 2 ^ 32 in
    let there : (ptr == 0) ≡ false = ground (arith, h) in
    let mapped : (page == 0) ≡ false = ground (arith, k) in
    let same : (address_only entry + (ptr - ptr)) % 2 ^ 32 ≡ page = omega arith in
    rw (there, mapped, same, vsize, ksize) refl
