-- ===== src/Tests/SegmentTests.antt =====
-- src/task/process.c: the pages of a small program.
use tmp_os.Base.{ℕ, ◌+◌, ◌-◌, ◌*◌, ◌/◌, ◌≡◌, refl, some, List, [], ◌∷◌, ◌++◌, arith, replicate}
use tmp_os.Base.Int.{pos}
use tmp_os.Elf.{ElfFile, ElfHeader, Elf32Phdr, elf_header, elf_program_header}
use tmp_os.Paging.{Words, page_size, paging_get}
use tmp_os.Paging.Map.{IsDirectory}
use tmp_os.Process.Loading.{process_map_elf}
use tmp_os.Process.Segments.{Headers, no_headers, a_header, segments_entry, map_elf-get}

-- A directory at 0x400000, and its tables behind 0x800000.
abbrev dir : ℕ
dir = 0x400000

abbrev tables : Words
tables a = 0x800000 + (a - dir) / 4 * page_size + 7

dir-IsDirectory : IsDirectory dir tables
dir-IsDirectory = record {
  aligned = refl;
  apart = λ i j l m ne e. omega arith;
  tables = λ i l e. omega arith;
}

-- A header and one segment, 5000 bytes that may be written from 0x8000000 on.
abbrev bytes : List ℕ
bytes =
    (0x7f ∷ b'E' ∷ b'L' ∷ b'F' ∷ 1 ∷ 1 ∷ 1 ∷ [])
    ++ replicate 9 0
    ++ (2 ∷ 0 ∷ 3 ∷ 0 ∷ 1 ∷ 0 ∷ 0 ∷ 0 ∷ 0 ∷ 0 ∷ 0 ∷ 8 ∷ 52 ∷ 0 ∷ 0 ∷ 0 ∷ [])
    ++ replicate 12 0
    ++ (1 ∷ 0 ∷ 0 ∷ 0 ∷ 0 ∷ 0 ∷ 0 ∷ 0 ∷ [])
    ++ (1 ∷ 0 ∷ 0 ∷ 0 ∷ 0 ∷ 0x10 ∷ 0 ∷ 0 ∷ 0 ∷ 0 ∷ 0 ∷ 8 ∷ 0 ∷ 0 ∷ 0 ∷ 0 ∷ [])
    ++ (0 ∷ 0 ∷ 0 ∷ 0 ∷ 0x88 ∷ 0x13 ∷ 0 ∷ 0 ∷ 6 ∷ 0 ∷ 0 ∷ 0 ∷ 0 ∷ 0 ∷ 0 ∷ 0 ∷ [])

abbrev file : ElfFile
file = record {
  elf_memory = 0x1000000;
  bytes = bytes;
  virtual_base_address = 0;
  virtual_end_address = 0;
  physical_base_address = 0;
  physical_end_address = 0;
}

abbrev header : ElfHeader
header = record {
  ei_class = 1;
  ei_data = 1;
  e_type = 2;
  e_machine = 3;
  e_version = 1;
  e_entry = 0x8000000;
  e_phoff = 52;
  e_shoff = 0;
  e_flags = 0;
  e_ehsize = 0;
  e_phentsize = 0;
  e_phnum = 1;
  e_shentsize = 0;
  e_shnum = 0;
  e_shstrndx = 0;
}

abbrev segment : Elf32Phdr
segment = record {
  p_type = 1;
  p_offset = 0x1000;
  p_vaddr = 0x8000000;
  p_paddr = 0;
  p_filesz = 0;
  p_memsz = 5000;
  p_flags = 6;
  p_align = 0;
}

has_header : elf_header bytes ≡ some header
unfolding elf_header
has_header = refl

has_segment : Headers bytes header 0 1 (segment ∷ [])
unfolding elf_program_header
has_segment = a_header refl no_headers

-- The second page of the segment.
abbrev page : ℕ
page = 0x8001000

map_elf-get_example :
    (mem' : Words) × (process_map_elf dir file tables ≡ some (pos 0, mem'))
    × IsDirectory dir mem'
    × (paging_get dir page mem'
        ≡ segments_entry file (segment ∷ []) page (paging_get dir page tables))
map_elf-get_example =
    map_elf-get dir page file header tables (segment ∷ []) has_header has_segment dir-IsDirectory
      (record { virt = refl; phys = refl; phys_fits = omega arith; virt_fits = omega arith }, tt)
      (omega arith) refl

page_entry : segments_entry file (segment ∷ []) page 0 ≡ 0x1002007
page_entry = refl
