-- ===== src/Elf.antt =====
-- src/loader/formats/elfloader.c with the structures of elf.h: a file in memory, its headers, and
-- the segments to load. A pointer into the file is an offset; `none`: it leads outside of the file.
pub mod Load
pub mod Span
pub mod Loading
use tmp_os.Base.{
  ℕ, zero, suc, ◌+◌, ◌-◌, ◌*◌, ◌%◌, ◌^◌, ◌==◌, ◌&&◌, ◌||◌, not, Bool, true, false, Option, none,
  some, List, [], ◌∷◌, if◌then◌else◌, ltb, leb, length, drop, replicate, get_or, get16, get32,
}
use tmp_os.Base.Int.{ℤ, pos, negsuc, is_neg, is_zero, add32}
use tmp_os.Base.Errno.{neg_einformat}
use tmp_os.Strings.{memcmp}
use tmp_os.File.{FileSystem, FileStat, Files, fopen, fread, fstat, fclose}

-- `struct elf32_phdr`
pub record Elf32Phdr : Type 0 where
  pub p_type : ℕ
  pub p_offset : ℕ
  pub p_vaddr : ℕ
  pub p_paddr : ℕ
  pub p_filesz : ℕ
  pub p_memsz : ℕ
  pub p_flags : ℕ
  pub p_align : ℕ

-- `struct elf32_shdr`
pub record Elf32Shdr : Type 0 where
  pub sh_name : ℕ
  pub sh_type : ℕ
  pub sh_flags : ℕ
  pub sh_addr : ℕ
  pub sh_offset : ℕ
  pub sh_size : ℕ
  pub sh_link : ℕ
  pub sh_info : ℕ
  pub sh_addralign : ℕ
  pub sh_entsize : ℕ

-- `struct elf_header`, with the two bytes of `e_ident` that are used.
pub record ElfHeader : Type 0 where
  pub ei_class : ℕ
  pub ei_data : ℕ
  pub e_type : ℕ
  pub e_machine : ℕ
  pub e_version : ℕ
  pub e_entry : ℕ
  pub e_phoff : ℕ
  pub e_shoff : ℕ
  pub e_flags : ℕ
  pub e_ehsize : ℕ
  pub e_phentsize : ℕ
  pub e_phnum : ℕ
  pub e_shentsize : ℕ
  pub e_shnum : ℕ
  pub e_shstrndx : ℕ

-- `struct elf_file`, with the bytes at `elf_memory`.
pub record ElfFile : Type 0 where
  pub elf_memory : ℕ
  pub bytes : List ℕ
  pub virtual_base_address : ℕ
  pub virtual_end_address : ℕ
  pub physical_base_address : ℕ
  pub physical_end_address : ℕ

-- The size of each structure.
abbrev pub elf_header_size : ℕ
elf_header_size = 52

abbrev pub phdr_size : ℕ
phdr_size = 32

abbrev pub shdr_size : ℕ
shdr_size = 40

unfoldable pub elf_header : List ℕ → Option ElfHeader
elf_header b =
    if ltb (length b) elf_header_size
    then none
    else some (record {
      ei_class = get_or b 4 0;
      ei_data = get_or b 5 0;
      e_type = get16 b 16;
      e_machine = get16 b 18;
      e_version = get32 b 20;
      e_entry = get32 b 24;
      e_phoff = get32 b 28;
      e_shoff = get32 b 32;
      e_flags = get32 b 36;
      e_ehsize = get16 b 40;
      e_phentsize = get16 b 42;
      e_phnum = get16 b 44;
      e_shentsize = get16 b 46;
      e_shnum = get16 b 48;
      e_shstrndx = get16 b 50;
    })

unfoldable pub elf_valid_signature : List ℕ → Option Bool
elf_valid_signature buffer = elim (memcmp buffer (0x7f ∷ b'E' ∷ b'L' ∷ b'F' ∷ []) 4) [
  | none ↦ none
  | some z ↦ some (is_zero z)
]

-- ELFCLASSNONE or ELFCLASS32
unfoldable pub elf_valid_class : ElfHeader → Bool
elf_valid_class h = h.ei_class == 0 || h.ei_class == 1

-- ELFDATANONE or ELFDATA2LSB
unfoldable pub elf_valid_encoding : ElfHeader → Bool
elf_valid_encoding h = h.ei_data == 0 || h.ei_data == 1

-- ET_EXEC, from PROGRAM_VIRTUAL_ADDRESS on. Nothing calls it.
unfoldable pub elf_is_executable : ElfHeader → Bool
elf_is_executable h = h.e_type == 2 && leb 0x400000 h.e_entry

unfoldable pub elf_has_program_header : ElfHeader → Bool
elf_has_program_header h = if h.e_phoff == 0 then false else true

unfoldable pub elf_validate_loaded : List ℕ → Option ℤ
elf_validate_loaded b = elim (elf_header b) [
  | none ↦ none
  | some h ↦ elim (elf_valid_signature b) [
    | none ↦ none
    | some signature ↦ some (
        if signature && elf_valid_class h && elf_valid_encoding h && elf_has_program_header h
        then pos 0
        else neg_einformat)
  ]
]

-- A file with program headers.
unfoldable pub elf_program_header : List ℕ → ElfHeader → ℕ → Option Elf32Phdr
elf_program_header b header index =
    let at = header.e_phoff + phdr_size * index in
    if ltb (length b) (at + phdr_size)
    then none
    else some (record {
      p_type = get32 b at;
      p_offset = get32 b (at + 4);
      p_vaddr = get32 b (at + 8);
      p_paddr = get32 b (at + 12);
      p_filesz = get32 b (at + 16);
      p_memsz = get32 b (at + 20);
      p_flags = get32 b (at + 24);
      p_align = get32 b (at + 28);
    })

unfoldable pub elf_section : List ℕ → ElfHeader → ℕ → Option Elf32Shdr
elf_section b header index =
    let at = header.e_shoff + shdr_size * index in
    if ltb (length b) (at + shdr_size)
    then none
    else some (record {
      sh_name = get32 b at;
      sh_type = get32 b (at + 4);
      sh_flags = get32 b (at + 8);
      sh_addr = get32 b (at + 12);
      sh_offset = get32 b (at + 16);
      sh_size = get32 b (at + 20);
      sh_link = get32 b (at + 24);
      sh_info = get32 b (at + 28);
      sh_addralign = get32 b (at + 32);
      sh_entsize = get32 b (at + 36);
    })

-- The offset of the table.
unfoldable pub efl_str_table : List ℕ → ElfHeader → Option ℕ
unfolding elf_section
efl_str_table b header = elim (elf_section b header header.e_shstrndx) [
  | none ↦ none
  | some section ↦ some section.sh_offset
]

unfoldable pub elf_phdr_phys_addr : ElfFile → Elf32Phdr → ℕ
elf_phdr_phys_addr file phdr = add32 file.elf_memory phdr.p_offset

-- The start of `elf_process_phdr_pt_load`, up to `end_virt_addr`, and the rest.
unfoldable pub widen_base : ElfFile → Elf32Phdr → ElfFile
widen_base file phdr =
    if leb phdr.p_vaddr file.virtual_base_address || file.virtual_base_address == 0
    then record file {
      virtual_base_address = phdr.p_vaddr;
      physical_base_address = add32 file.elf_memory phdr.p_offset;
    }
    else file

unfoldable pub widen_end : ElfFile → Elf32Phdr → ElfFile
widen_end file phdr =
    let end_virt_addr = add32 phdr.p_vaddr phdr.p_filesz in
    if leb file.virtual_end_address end_virt_addr || file.virtual_end_address == 0
    then record file {
      virtual_end_address = end_virt_addr;
      physical_end_address = add32 (add32 file.elf_memory phdr.p_offset) phdr.p_filesz;
    }
    else file

unfoldable pub elf_process_phdr_pt_load : ElfFile → Elf32Phdr → ElfFile
elf_process_phdr_pt_load file phdr = widen_end (widen_base file phdr) phdr

abbrev pub pt_load : ℕ
pt_load = 1

unfoldable pub elf_process_pheader : ElfFile → Elf32Phdr → ElfFile
elf_process_pheader file phdr =
    if phdr.p_type == pt_load then elf_process_phdr_pt_load file phdr else file
