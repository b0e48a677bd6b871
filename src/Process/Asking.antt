-- ===== src/Process/Asking.antt =====
-- src/task/process.c: what a process that asks for memory is given.
use tmp_os.Base.{
  ℕ, ◌+◌, ◌%◌, ◌^◌, ◌<◌, ◌≤◌, ◌≡◌, ◌∙◌, refl, ap, ◌==◌, false, some, arith, get_elem?, set,
}
use tmp_os.Memory.Kheap.{kzalloc}
use tmp_os.Memory.Pages.{IsReady, Given, free_blocks, kzalloc-Given}
use tmp_os.Paging.{page_size, paging_map_to}
use tmp_os.Process.{
  Process, Machine, user_flags, find_allocation, paging_align_address,
  process_find_free_alloc_index, record_allocation, process_malloc,
}
use tmp_os.Process.Allocations.{Recorded, find_allocation-some}

-- A process that asks for at most a page gets a page that nobody has, recorded in a free slot, as
-- long as there is one and the heap has a free block.
pub process_malloc-Given :
    (size i : ℕ) (process : Process) (m : Machine)
    → IsReady m.heap
    → 0 < free_blocks m.heap
    → 0 < size
    → size ≤ page_size
    → find_allocation 0 process.allocations 0 ≡ some i
    → (p : ℕ) × (process' : Process) × (m' : Machine) × (process_malloc size process m
        ≡ some (p, process', m'))
      × Given size p m.heap m'.heap m.blocks m'.blocks
      × Recorded process p size process'
unfolding process_malloc record_allocation process_find_free_alloc_index
process_malloc-Given size i process m ready free a b slot =
    let (p, heap, blocks) = kzalloc size m.heap m.blocks in
    let g = kzalloc-Given size m.heap m.blocks ready free a b in
    let nonzero : (p == 0) ≡ false = ground (arith, g.page.base, g.ready.valid.nonzero) in
    let (j, before, q, inside, was, is_free) =
      find_allocation-some 0 process.allocations 0 i slot in
    let end = paging_align_address ((p + size) % 2 ^ 32) in
    let (_, tables) = paging_map_to process.page_dir p p end user_flags m.tables in
    let process' = record process {
      allocations = set process.allocations i (record { ptr = p; size = size });
    } in
    (
      p,
      process',
      record { heap = heap; blocks = blocks; tables = tables },
      rw (nonzero, process_malloc) (rw (slot, record_allocation) refl),
      g,
      record {
        slot = i;
        before = before;
        inside = omega arith;
        was = ap (λ n. get_elem? process.allocations n) (omega arith) ∙ was;
        is_free = is_free;
        table = refl;
      },
    )
