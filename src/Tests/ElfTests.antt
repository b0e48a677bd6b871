-- ===== src/Tests/ElfTests.antt =====
-- src/loader/formats/elfloader.c on a file with one segment, and on no file.
use tmp_os.Base.{ℕ, zero, suc, ◌≡◌, refl, none, some, List, [], ◌∷◌, ◌++◌, arith, replicate}
use tmp_os.Base.Int.{pos}
use tmp_os.File.{Files, fopen}
use tmp_os.Elf.{ElfFile, ElfHeader, Elf32Phdr, elf_header, elf_validate_loaded, elf_program_header}
use tmp_os.Elf.Load.{NoReturn, elf_process_loaded, elf_load}
use tmp_os.Elf.Span.{Spans}
use tmp_os.Elf.Loading.{IsTable, process_loaded-Spans, missing_file_loads}

abbrev ident : List ℕ
ident = 0x7f ∷ b'E' ∷ b'L' ∷ b'F' ∷ 1 ∷ 1 ∷ 1 ∷ []

-- The program headers are at 52, and there is one.
abbrev elf_bytes : List ℕ
elf_bytes =
    ident
    ++ replicate 9 0
    ++ (2 ∷ 0 ∷ 3 ∷ 0 ∷ 1 ∷ 0 ∷ 0 ∷ 0 ∷ 0 ∷ 0 ∷ 0x40 ∷ 0 ∷ 52 ∷ 0 ∷ 0 ∷ 0 ∷ [])
    ++ replicate 12 0
    ++ (1 ∷ 0 ∷ 0 ∷ 0 ∷ 0 ∷ 0 ∷ 0 ∷ 0 ∷ [])
    ++ (1 ∷ 0 ∷ 0 ∷ 0 ∷ 84 ∷ 0 ∷ 0 ∷ 0 ∷ 0 ∷ 0 ∷ 0x40 ∷ 0 ∷ 0 ∷ 0 ∷ 0 ∷ 0 ∷ [])
    ++ (16 ∷ 0 ∷ 0 ∷ 0 ∷ 16 ∷ 0 ∷ 0 ∷ 0 ∷ 5 ∷ 0 ∷ 0 ∷ 0 ∷ 0 ∷ 0 ∷ 0 ∷ 0 ∷ [])

abbrev header : ElfHeader
header = record {
  ei_class = 1;
  ei_data = 1;
  e_type = 2;
  e_machine = 3;
  e_version = 1;
  e_entry = 0x400000;
  e_phoff = 52;
  e_shoff = 0;
  e_flags = 0;
  e_ehsize = 0;
  e_phentsize = 0;
  e_phnum = 1;
  e_shentsize = 0;
  e_shnum = 0;
  e_shstrndx = 0;
}

abbrev phdr : Elf32Phdr
phdr = record {
  p_type = 1;
  p_offset = 84;
  p_vaddr = 0x400000;
  p_paddr = 0;
  p_filesz = 16;
  p_memsz = 16;
  p_flags = 5;
  p_align = 0;
}

abbrev file : ElfFile
file = record {
  elf_memory = 0x1000000;
  bytes = elf_bytes;
  virtual_base_address = 0;
  virtual_end_address = 0;
  physical_base_address = 0;
  physical_end_address = 0;
}

abbrev left : NoReturn
left = record { pheader = λ i. pos 0; pheaders = pos 0 }

is_header : elf_header elf_bytes ≡ some header
unfolding elf_header
is_header = refl

is_valid : elf_validate_loaded elf_bytes ≡ some (pos 0)
unfolding elf_validate_loaded elf_header tmp_os.Elf.elf_valid_signature tmp_os.Strings.memcmp
    tmp_os.Elf.elf_valid_class tmp_os.Elf.elf_valid_encoding tmp_os.Elf.elf_has_program_header
is_valid = refl

is_table : IsTable elf_bytes header (λ i. phdr)
unfolding elf_program_header
is_table zero h = refl
is_table (suc i) h = absurd (omega arith)

process_loaded-Spans_example :
    (file' : ElfFile) × (elf_process_loaded left file ≡ some (pos 0, file'))
    × Spans (λ i. phdr) 0x1000000 1 file'
process_loaded-Spans_example =
    process_loaded-Spans left file header (λ i. phdr) 0x1000000 (refl, refl, refl) is_header
      is_valid is_table (λ i. refl) (λ i. (omega arith, omega arith))

abbrev no_files : Files ℕ
no_files = record { filesystems = []; file_descriptors = []; disk_fs = none }

not_there : fopen (b'x' ∷ 0 ∷ []) (b'r' ∷ 0 ∷ []) no_files ≡ some (pos 0, no_files)
unfolding fopen tmp_os.File.open_result tmp_os.Parser.parser_parse tmp_os.Strings.strlen
    tmp_os.Parser.parser_get_drive_by_path tmp_os.Parser.path_valid tmp_os.Strings.strnlen
    tmp_os.File.out
not_there = refl

missing_file_loads_example :
    elf_load left 0x1000000 (b'x' ∷ 0 ∷ []) no_files ≡ some (pos 0, none, no_files)
missing_file_loads_example = missing_file_loads left 0x1000000 (b'x' ∷ 0 ∷ []) no_files not_there
