-- ===== src/Process/Segments.antt =====
-- src/task/process.c: which pages a program finds behind the mapping of its segments.
use tmp_os.Base.{
  ℕ, zero, suc, ◌+◌, ◌-◌, ◌*◌, ◌/◌, ◌%◌, ◌^◌, ◌<◌, ◌≤◌, ◌≡◌, ◌∙◌, refl, ap, List, [], ◌∷◌, Option,
  some, arith,
}
use tmp_os.Base.Int.{ℤ, pos, add32}
use tmp_os.Elf.{ElfFile, ElfHeader, Elf32Phdr, elf_header, elf_program_header, elf_phdr_phys_addr}
use tmp_os.Paging.{Words, page_size, paging_get, paging_map_to, paging_align_to_lower_page}
use tmp_os.Paging.Map.{IsDirectory, mapped, map_to-get}
use tmp_os.Process.{paging_align_address}
use tmp_os.Process.Loading.{segment_flags, map_segments, process_map_elf}

-- The program headers of a file from number `i` on.
pub data Headers (bytes : List ℕ) (header : ElfHeader) : ℕ → ℕ → List Elf32Phdr → Type 0 where
  no_headers : {i : ℕ} → Headers bytes header i zero []
  a_header :
      {i n : ℕ} {phdr : Elf32Phdr} {l : List Elf32Phdr}
      → elf_program_header bytes header i ≡ some phdr
      → Headers bytes header (i + 1) n l
      → Headers bytes header i (suc n) (phdr ∷ l)

-- A segment that starts with a page, in the file's memory and in the program's, and does not reach
-- the end of the address space.
pub record IsPaged (file : ElfFile) (phdr : Elf32Phdr) : Type 0 where
  pub virt : phdr.p_vaddr % page_size ≡ 0
  pub phys : (file.elf_memory + phdr.p_offset) % page_size ≡ 0
  pub phys_fits : file.elf_memory + phdr.p_offset + phdr.p_memsz + page_size ≤ 2 ^ 32
  pub virt_fits : phdr.p_vaddr + phdr.p_memsz + page_size ≤ 2 ^ 32

abbrev pub ArePaged : ElfFile → List Elf32Phdr → Type 0
ArePaged file [] = Unit
ArePaged file (phdr ∷ l) = IsPaged file phdr × ArePaged file l

-- The entry of page `b` behind the segment, with the one before it.
abbrev pub segment_entry : ElfFile → Elf32Phdr → ℕ → ℕ → ℕ
segment_entry file phdr b before =
    mapped phdr.p_vaddr (file.elf_memory + phdr.p_offset)
      ((phdr.p_memsz + (page_size - 1)) / page_size) (segment_flags phdr.p_flags) b before

-- And behind all segments, the later ones over the earlier ones.
abbrev pub segments_entry : ElfFile → List Elf32Phdr → ℕ → ℕ → ℕ
segments_entry file [] b before = before
segments_entry file (phdr ∷ l) b before = segments_entry file l b (segment_entry file phdr b before)

align_end :
    (phys size : ℕ)
    → phys % page_size ≡ 0
    → phys + size + page_size ≤ 2 ^ 32
    → paging_align_address (add32 phys size)
      ≡ phys + (size + (page_size - 1)) / page_size * page_size
unfolding paging_align_address
align_end phys size e l = ground arith

segment-get :
    (dir b : ℕ) (file : ElfFile) (phdr : Elf32Phdr) (mem : Words)
    → IsDirectory dir mem
    → IsPaged file phdr
    → b < 2 ^ 32
    → b % page_size ≡ 0
    → let phys = elf_phdr_phys_addr file phdr in
      let r =
        paging_map_to dir phdr.p_vaddr phys
          (paging_align_address (add32 phys phdr.p_memsz))
          (segment_flags phdr.p_flags)
          mem in
      (r.0 ≡ pos 0)
      × IsDirectory dir r.1
      × (paging_get dir b r.1 ≡ segment_entry file phdr b (paging_get dir b mem))
unfolding elf_phdr_phys_addr
segment-get dir b file phdr mem d p l e =
    let phys = file.elf_memory + phdr.p_offset in
    let pages = (phdr.p_memsz + (page_size - 1)) / page_size in
    let start : add32 file.elf_memory phdr.p_offset ≡ phys = omega (arith, p.phys_fits) in
    let end = align_end phys phdr.p_memsz p.phys p.phys_fits in
    let count : (phys + pages * page_size - phys) / page_size ≡ pages = omega arith in
    rw (start, end)
      (rw count at (
        map_to-get dir phdr.p_vaddr phys (phys + pages * page_size) (segment_flags phdr.p_flags) b
          mem d p.virt p.phys (omega (arith, p.phys)) (omega arith) (omega (arith, p.phys_fits))
          (omega (arith, p.virt_fits)) l e))

-- One round of the loop: the header is there and its segment is mapped.
map_segments_step :
    (dir n i : ℕ) (file : ElfFile) (header : ElfHeader) (mem : Words) {phdr : Elf32Phdr}
    (r : ℤ × Words) {x : Option (ℤ × Words)}
    → elf_program_header file.bytes header i ≡ some phdr
    → (paging_map_to dir phdr.p_vaddr
          (elf_phdr_phys_addr file phdr)
          (paging_align_address (add32 (elf_phdr_phys_addr file phdr) phdr.p_memsz))
          (segment_flags phdr.p_flags)
          mem
        ≡ r)
    → r.0 ≡ pos 0
    → map_segments dir file header n (i + 1) (pos 0) r.1 ≡ x
    → map_segments dir file header (suc n) i (pos 0) mem ≡ x
unfolding map_segments paging_align_to_lower_page
map_segments_step dir n i file header mem {phdr} r {x} h m z s =
    rw (h, map_segments, paging_align_to_lower_page, m, z) s

map_segments-get :
    (dir b n i : ℕ) (file : ElfFile) (header : ElfHeader) (mem : Words) {l : List Elf32Phdr}
    → IsDirectory dir mem
    → Headers file.bytes header i n l
    → ArePaged file l
    → b < 2 ^ 32
    → b % page_size ≡ 0
    → (mem' : Words) × (map_segments dir file header n i (pos 0) mem ≡ some (pos 0, mem'))
      × IsDirectory dir mem'
      × (paging_get dir b mem' ≡ segments_entry file l b (paging_get dir b mem))
unfolding map_segments
map_segments-get dir b zero i file header mem d no_headers a k e = (mem, refl, d, refl)
map_segments-get dir b (suc n) i file header mem d (a_header {phdr} {l} h r) (p, a) k e =
    let phys = elf_phdr_phys_addr file phdr in
    let m =
      paging_map_to dir phdr.p_vaddr phys (paging_align_address (add32 phys phdr.p_memsz))
        (segment_flags phdr.p_flags) mem in
    let g = segment-get dir b file phdr mem d p k e in
    let (mem', s, d', f) = map_segments-get dir b n (i + 1) file header m.1 g.1 r a k e in
    (
      mem',
      map_segments_step dir n i file header mem m h refl g.0 s,
      d',
      f ∙ ap (segments_entry file l b) g.2,
    )

-- The mapping of an ELF file whose segments start with pages succeeds, and then every page is mapped
-- as the last of the segments that has it says, to its bytes in the file and writable only by the
-- segment's flag; a page that no segment has is mapped as before.
pub map_elf-get :
    (dir b : ℕ) (file : ElfFile) (header : ElfHeader) (mem : Words) (l : List Elf32Phdr)
    → elf_header file.bytes ≡ some header
    → Headers file.bytes header 0 header.e_phnum l
    → IsDirectory dir mem
    → ArePaged file l
    → b < 2 ^ 32
    → b % page_size ≡ 0
    → (mem' : Words) × (process_map_elf dir file mem ≡ some (pos 0, mem'))
      × IsDirectory dir mem'
      × (paging_get dir b mem' ≡ segments_entry file l b (paging_get dir b mem))
unfolding process_map_elf
map_elf-get dir b file header mem l h r d a k e =
    rw (h, process_map_elf) (map_segments-get dir b header.e_phnum 0 file header mem d r a k e)
