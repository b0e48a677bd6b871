-- ===== src/Elf/Load.antt =====
-- src/loader/formats/elfloader.c: the loading of a file, from its name on.
use tmp_os.Base.{
  ℕ, zero, suc, ◌+◌, ◌||◌, Option, none, some, List, [], ◌∷◌, if◌then◌else◌, replicate,
}
use tmp_os.Base.Int.{ℤ, pos, is_neg, is_zero}
use tmp_os.File.{Files, fopen, fread, fstat, fclose}
use tmp_os.Elf.{
  ElfFile, ElfHeader, elf_header, elf_validate_loaded, elf_program_header, elf_process_pheader,
}

-- What the two functions leave as their result, which have no return statement: the first by the
-- number of the header.
pub record NoReturn : Type 0 where
  pub pheader : ℕ → ℤ
  pub pheaders : ℤ

-- The loop of `elf_process_pheaders` by the headers left.
unfoldable pub pheaders_loop : NoReturn → List ℕ → ElfHeader → ElfFile → ℕ → ℕ → Option ElfFile
pheaders_loop r b header file zero i = some file
pheaders_loop r b header file (suc n) i = elim (elf_program_header b header i) [
  | none ↦ none
  | some phdr ↦
      let file' = elf_process_pheader file phdr in
      let rest = pheaders_loop r b header file' n (i + 1) in
      if is_neg (r.pheader i) then some file' else rest
]

-- The file is followed as it is where the result is negative.
unfoldable pub elf_process_loaded : NoReturn → ElfFile → Option (ℤ × ElfFile)
elf_process_loaded r file = elim (elf_header file.bytes) [
  | none ↦ none
  | some header ↦ elim (elf_validate_loaded file.bytes) [
    | none ↦ none
    | some res ↦
        let processed : Option (ℤ × ElfFile) =
          elim (pheaders_loop r file.bytes header file header.e_phnum 0) [
            | none ↦ none
            | some file' ↦ some (r.pheaders, file')
          ] in
        if is_neg res then some (res, file) else processed
  ]
]

-- `elf_load` from the label `out` on, without what it frees.
unfoldable pub out :
    {P : Type 0} → ℤ → ℤ → Option ElfFile → Files P → Option (ℤ × Option ElfFile × Files P)
out fd res file s = elim (fclose fd s) [ none ↦ none | some (_, s') ↦ some (res, file, s') ]

-- `elf_load` from `kzalloc` on, for the size of the file, where the first memory is at `memory`.
unfoldable pub load_bytes :
    {P : Type 0} → NoReturn → ℕ → ℤ → ℕ → Files P → Option (ℤ × Option ElfFile × Files P)
unfolding out
load_bytes r memory fd size s = elim (fread (replicate size 0) size 1 fd s) [
  | none ↦ none
  | some (res, bytes, s') ↦
      let file : ElfFile = record {
        elf_memory = memory;
        bytes = bytes;
        virtual_base_address = 0;
        virtual_end_address = 0;
        physical_base_address = 0;
        physical_end_address = 0;
      } in
      let loaded : Option (ℤ × Option ElfFile × Files _) = elim (elf_process_loaded r file) [
        | none ↦ none
        | some (res', file') ↦
            if is_neg res' then out fd res' none s' else out fd (pos 0) (some file') s'
      ] in
      if is_neg res then out fd res none s' else loaded
]

-- The result, `*file_out` where it is written, and the open files. `memory` is where `kzalloc` puts
-- the file's bytes. `none` also where `fstat` succeeds and leaves the size as it was.
unfoldable pub elf_load :
    {P : Type 0} → NoReturn → ℕ → List ℕ → Files P → Option (ℤ × Option ElfFile × Files P)
unfolding out load_bytes
elf_load r memory filename s = elim (fopen filename (b'r' ∷ 0 ∷ []) s) [
  | none ↦ none
  | some (fd, s1) ↦
      let opened : Option (ℤ × Option ElfFile × Files _) = elim (fstat fd s1) [
        | none ↦ none
        | some (res, stat) ↦
            if is_neg res
            then out fd res none s1
            else (elim stat [ none ↦ none | some x ↦ load_bytes r memory fd x.file_size s1 ])
      ] in
      if is_neg fd || is_zero fd then out fd fd none s1 else opened
]
