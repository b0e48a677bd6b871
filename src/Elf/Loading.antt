-- ===== src/Elf/Loading.antt =====
-- src/loader/formats/elfloader.c: what a loaded file is, and what a missing one is taken for.
use mathlib.Core.Path.{subst}
use tmp_os.Base.{ℕ, zero, suc, ◌+◌, ◌<◌, ◌≡◌, refl, false, none, some, List, [], ◌∷◌, arith, inl}
use tmp_os.Base.Int.{pos, is_neg}
use tmp_os.File.{Files, fopen, fclose, file_get_descriptor}
use tmp_os.Elf.{
  ElfFile, ElfHeader, Elf32Phdr, elf_header, elf_validate_loaded, elf_program_header,
  elf_process_pheader,
}
use tmp_os.Elf.Load.{NoReturn, elf_process_loaded, pheaders_loop, elf_load, out}
use tmp_os.Elf.Span.{Spans, AllPositive, process_pheader-Spans}

-- The program headers of a file, in their order.
abbrev pub IsTable : List ℕ → ElfHeader → (ℕ → Elf32Phdr) → Type 0
IsTable b header phdrs =
    (i : ℕ) → i < header.e_phnum → elf_program_header b header i ≡ some (phdrs i)

-- No call of `elf_process_pheader` leaves a negative number where its result is read.
abbrev pub NeverNegative : NoReturn → Type 0
NeverNegative r = (i : ℕ) → is_neg (r.pheader i) ≡ false

loop-Spans :
    (r : NoReturn) (b : List ℕ) (header : ElfHeader) (phdrs : ℕ → Elf32Phdr) (memory n i : ℕ)
    (file : ElfFile)
    → IsTable b header phdrs
    → NeverNegative r
    → AllPositive phdrs
    → i + n ≡ header.e_phnum
    → Spans phdrs memory i file
    → (file' : ElfFile) × (pheaders_loop r b header file n i ≡ some file')
      × Spans phdrs memory header.e_phnum file'
unfolding pheaders_loop
loop-Spans r b header phdrs memory zero i file h k p e s =
    let i' : i ≡ header.e_phnum = omega (arith, e) in
    (file, refl, subst (λ m. Spans phdrs memory m file) i' s)
loop-Spans r b header phdrs memory (suc n) i file h k p e s =
    let i' : suc i ≡ i + 1 = omega arith in
    let file1 = elf_process_pheader file (phdrs i) in
    let s1 =
      subst (λ m. Spans phdrs memory m file1) i' (process_pheader-Spans phdrs memory i file p s) in
    let (file', q, s') =
      loop-Spans r b header phdrs memory n (i + 1) file1 h k p (omega (arith, e)) s1 in
    (file', rw (h i (omega (arith, e)), k i, pheaders_loop) q, s')

abbrev pub IsFresh : ℕ → ElfFile → Type 0
IsFresh memory file =
    (file.elf_memory ≡ memory) × (file.virtual_base_address ≡ 0) × (file.virtual_end_address ≡ 0)

-- `elf_process_loaded` on a valid file, with the addresses zeroed, finds the span of the segments
-- that are to be loaded: the lowest of their addresses and the highest of their ends, and where
-- the bytes of these two lie, if no address is 0 and if `elf_process_pheader`, which returns
-- nothing, never leaves a negative number. What it then returns is what `elf_process_pheaders`,
-- which returns nothing either, leaves.
pub process_loaded-Spans :
    (r : NoReturn) (file : ElfFile) (header : ElfHeader) (phdrs : ℕ → Elf32Phdr) (memory : ℕ)
    → IsFresh memory file
    → elf_header file.bytes ≡ some header
    → elf_validate_loaded file.bytes ≡ some (pos 0)
    → IsTable file.bytes header phdrs
    → NeverNegative r
    → AllPositive phdrs
    → (file' : ElfFile) × (elf_process_loaded r file ≡ some (r.pheaders, file'))
      × Spans phdrs memory header.e_phnum file'
unfolding elf_process_loaded
process_loaded-Spans r file header phdrs memory (m, z, w) e v h k p =
    let none_yet : Spans phdrs memory 0 file = (
      record {
        loaded_at = m;
        least = λ i (l, t). absurd (omega arith);
        origin = inl (z, λ i (l, t). absurd (omega arith));
      },
      record {
        loaded_at = m;
        greatest = λ i (l, t). absurd (omega arith);
        origin = inl (w, λ i (l, t). absurd (omega arith));
      },
    ) in
    let (file', q, s) =
      loop-Spans r file.bytes header phdrs memory header.e_phnum 0 file h k p (omega arith)
        none_yet in
    (file', rw (e, v, q, elf_process_loaded) refl, s)

-- A file that cannot be opened is taken for loaded: `fopen` then returns 0, and `elf_load` returns
-- this 0 too, for success, and gives no file.
pub missing_file_loads :
    {P : Type 0} (r : NoReturn) (memory : ℕ) (filename : List ℕ) (s : Files P)
    → fopen filename (b'r' ∷ 0 ∷ []) s ≡ some (pos 0, s)
    → elf_load r memory filename s ≡ some (pos 0, none, s)
unfolding elf_load out fclose file_get_descriptor
missing_file_loads r memory filename s e = rw (e, elf_load) refl
