-- ===== src/Paging.antt =====
-- src/memory/paging.c: the page tables of an address space, as words in physical memory.
pub mod Chunk
pub mod Size
pub mod Built
pub mod Filling
pub mod Identity
pub mod Map
use Prim.Native.Nat.{bit_or}
use tmp_os.Base.{
  ℕ, zero, suc, ◌+◌, ◌-◌, ◌*◌, ◌/◌, ◌%◌, ◌^◌, ◌==◌, ltb, not, ◌||◌, Bool, true, false, Option, none,
  some, if◌then◌else◌,
}
use tmp_os.Base.Int.{ℤ, pos, is_neg}
use tmp_os.Base.Errno.{neg_einvarg}

abbrev pub page_size : ℕ
page_size = 4096

-- The bytes that one page table maps: 1024 pages.
abbrev pub table_span : ℕ
table_span = 1024 * page_size

-- Physical memory by the address of a word.
abbrev pub Words : Type 0
Words = ℕ → ℕ

unfoldable pub write_word : ℕ → ℕ → Words → Words
write_word address value mem a = if address == a then value else mem a

abbrev pub paging_is_aligned : ℕ → Bool
paging_is_aligned addr = addr % page_size == 0

-- The aligned address is computed, and the address itself returned.
unfoldable pub paging_align_to_lower_page : ℕ → ℕ
paging_align_to_lower_page addr = addr

-- The two indexes. `none`: the address is not aligned, and they are not written.
unfoldable pub paging_get_indexes : ℕ → Option (ℕ × ℕ)
paging_get_indexes virtual_adress =
    if paging_is_aligned virtual_adress
    then some (virtual_adress / table_span, virtual_adress % table_span / page_size)
    else none

-- `entry & 0xfffff000`
abbrev pub address_only : ℕ → ℕ
address_only entry = entry - entry % page_size

-- Where `table[table_index]` lies, for the table of `dir[dir_index]`.
abbrev pub entry_address : ℕ → ℕ → ℕ → Words → ℕ
entry_address dir dir_index table_index mem =
    address_only (mem (dir + 4 * dir_index)) + 4 * table_index

unfoldable pub paging_set : ℕ → ℕ → ℕ → Words → ℤ × Words
unfolding paging_get_indexes
paging_set dir virtual_adress val mem = elim (paging_get_indexes virtual_adress) [
  | none ↦ (neg_einvarg, mem)
  | some (dir_index, table_index) ↦
      (pos 0, write_word (entry_address dir dir_index table_index mem) val mem)
]

unfoldable pub paging_map : ℕ → ℕ → ℕ → ℕ → Words → ℤ × Words
unfolding paging_set
paging_map dir virt phys flags mem =
    if not (paging_is_aligned virt) || not (paging_is_aligned phys)
    then (neg_einvarg, mem)
    else paging_set dir virt (bit_or phys flags) mem

-- The loop of `paging_map_range` by the pages left, with the result of the last round.
unfoldable pub map_pages : ℕ → ℤ → ℕ → ℕ → ℕ → ℕ → Words → ℤ × Words
map_pages zero res dir virt phys flags mem = (res, mem)
map_pages (suc count) res dir virt phys flags mem =
    let r = paging_map dir virt phys flags mem in
    let rest =
      map_pages count r.0 dir ((virt + page_size) % 2 ^ 32) ((phys + page_size) % 2 ^ 32) flags
        r.1 in
    if is_neg r.0 then r else rest

unfoldable pub paging_map_range : ℕ → ℕ → ℕ → ℕ → ℕ → Words → ℤ × Words
paging_map_range dir virt phys count flags mem = map_pages count (pos 0) dir virt phys flags mem

unfoldable pub paging_map_to : ℕ → ℕ → ℕ → ℕ → ℕ → Words → ℤ × Words
paging_map_to dir virt phys phys_end flags mem =
    if not (paging_is_aligned virt)
      || not (paging_is_aligned phys_end)
      || not (paging_is_aligned phys)
      || ltb phys_end phys
    then (neg_einvarg, mem)
    else paging_map_range dir virt phys ((phys_end - phys) / page_size) flags mem

-- An address that is not aligned leaves both indexes at 0.
unfoldable pub paging_get : ℕ → ℕ → Words → ℕ
unfolding paging_get_indexes
paging_get directory virt mem = elim (paging_get_indexes virt) [
  | none ↦ mem (entry_address directory 0 0 mem)
  | some (dir_index, table_index) ↦ mem (entry_address directory dir_index table_index mem)
]

unfoldable pub paging_get_physical_address : ℕ → ℕ → Words → ℕ
unfolding paging_align_to_lower_page
paging_get_physical_address directory virt mem =
    let virt_addr_new = paging_align_to_lower_page virt in
    let difference = virt - virt_addr_new in
    (address_only (paging_get directory virt_addr_new mem) + difference) % 2 ^ 32
