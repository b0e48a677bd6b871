-- ===== src/Process/Loading.antt =====
-- src/task/process.c: the loading of a program, from its file to its pages. What `kzalloc` and
-- `paging_new_chunk` give is a parameter, with the page tables as the latter leaves them; what is
-- freed is not followed.
use tmp_os.Base.{
  ℕ, zero, suc, ◌+◌, ◌/◌, ◌%◌, ◌==◌, Bool, true, false, Option, none, some, List, [], ◌∷◌,
  if◌then◌else◌, replicate,
}
use tmp_os.Base.Int.{ℤ, pos, negsuc, is_neg, is_zero, add32}
use tmp_os.Base.Errno.{neg_eio}
use tmp_os.File.{Files, fopen, fread, fstat, fclose}
use tmp_os.Elf.{ElfFile, ElfHeader, elf_header, elf_program_header, elf_phdr_phys_addr}
use tmp_os.Elf.Load.{NoReturn, elf_load}
use tmp_os.Paging.{Words, paging_map_to, paging_align_to_lower_page}
use tmp_os.Task.{process_filetype_elf, program_virtual_address}
use tmp_os.Process.{user_flags, paging_align_address}

-- The union of `struct process`: the bytes of a program at `ptr`, or the file, which may be NULL.
pub data Contents : Type 0 where
  binary_at : ℕ → List ℕ → Contents
  elf_of : Option ElfFile → Contents

-- The fields of `struct process` that loading sets.
pub record Program : Type 0 where
  pub filetype : ℕ
  pub contents : Contents
  pub size : ℕ

abbrev pub process_filetype_binary : ℕ
process_filetype_binary = 1

-- Behind `kzalloc`.
abbrev pub process_init : Program
process_init = record { filetype = process_filetype_elf; contents = elf_of none; size = 0 }

-- `process_load_binary` from `fread` on. The file stays open where this fails.
unfoldable pub load_program :
    {P : Type 0} → ℕ → ℕ → ℤ → Program → Files P → Option (ℤ × Program × Files P)
load_program memory size fd process s = elim (fread (replicate size 0) size 1 fd s) [
  | none ↦ none
  | some (pos (suc zero), bytes, s') ↦ elim (fclose fd s') [
    | none ↦ none
    | some (_, s'') ↦
        some (pos 0, record process { contents = binary_at memory bytes; size = size }, s'')
  ]
  | some (res, bytes, s') ↦ some (neg_eio, process, s')
]

-- With memory for the program. `none` also where `fstat` succeeds and leaves the size as it was.
unfoldable pub process_load_binary :
    {P : Type 0} → ℕ → List ℕ → Program → Files P → Option (ℤ × Program × Files P)
unfolding load_program
process_load_binary memory filename process s = elim (fopen filename (b'r' ∷ 0 ∷ []) s) [
  | none ↦ none
  | some (fd, s') ↦
      let found : Option (ℤ × Program × Files _) = elim (fstat fd s') [
        | none ↦ none
        | some (res, stat) ↦
            if is_zero res
            then (elim stat [
              | none ↦ none
              | some x ↦ load_program memory x.file_size fd process s'
            ])
            else some (res, process, s')
      ] in
      if is_zero fd then some (neg_eio, process, s') else found
]

unfoldable pub process_load_elf :
    {P : Type 0} → NoReturn → ℕ → List ℕ → Program → Files P → Option (ℤ × Program × Files P)
process_load_elf r memory filename process s = elim (elf_load r memory filename s) [
  | none ↦ none
  | some (res, file, s') ↦ some (
      if is_neg res
      then (res, process, s')
      else (res, record process { filetype = process_filetype_elf; contents = elf_of file }, s'))
]

-- `res == -EINFORMAT`
abbrev pub is_einformat : ℤ → Bool
is_einformat (pos n) = false
is_einformat (negsuc n) = n == 8

unfoldable pub process_load_data :
    {P : Type 0} → NoReturn → ℕ → List ℕ → Program → Files P → Option (ℤ × Program × Files P)
unfolding process_load_elf
process_load_data r memory filename process s =
    elim (process_load_elf r memory filename process s) [
      | none ↦ none
      | some (res, process', s') ↦ elim (is_einformat res) [
        | true ↦ process_load_binary memory filename process' s'
        | false ↦ some (res, process', s')
      ]
    ]

unfoldable pub process_map_binary : ℕ → ℕ → ℕ → Words → ℤ × Words
process_map_binary directory ptr size mem =
    paging_map_to directory program_virtual_address ptr (paging_align_address (add32 ptr size))
      user_flags mem

-- `PAGING_IS_PRESENT | PAGING_ACESS_FROM_ALL`, with PAGING_IS_WRITABLE where PF_W is set.
abbrev pub segment_flags : ℕ → ℕ
segment_flags p_flags = if p_flags / 2 % 2 == 1 then user_flags else 5

-- The loop of `process_map_elf` by the headers left, with the result so far.
unfoldable pub map_segments : ℕ → ElfFile → ElfHeader → ℕ → ℕ → ℤ → Words → Option (ℤ × Words)
map_segments directory file header zero i res mem = some (res, mem)
map_segments directory file header (suc n) i res mem =
    elim (elf_program_header file.bytes header i) [
      | none ↦ none
      | some phdr ↦
          let phys = elf_phdr_phys_addr file phdr in
          let r =
            paging_map_to directory (paging_align_to_lower_page phdr.p_vaddr)
              (paging_align_to_lower_page phys) (paging_align_address (add32 phys phdr.p_memsz))
              (segment_flags phdr.p_flags) mem in
          let rest = map_segments directory file header n (i + 1) r.0 r.1 in
          if is_neg r.0 then some r else rest
    ]

unfoldable pub process_map_elf : ℕ → ElfFile → Words → Option (ℤ × Words)
unfolding map_segments
process_map_elf directory file mem = elim (elf_header file.bytes) [
  | none ↦ none
  | some header ↦ map_segments directory file header header.e_phnum 0 (pos 0) mem
]

abbrev pub user_program_stack_size : ℕ
user_program_stack_size = 16384

abbrev pub program_virtual_stack_address_end : ℕ
program_virtual_stack_address_end = 0x3FB000

-- The map of the stack, after what was mapped before.
unfoldable pub map_stack : ℕ → ℕ → ℤ × Words → ℤ × Words
map_stack directory stack r =
    if is_neg r.0
    then r
    else paging_map_to directory program_virtual_stack_address_end (paging_align_address stack)
        (paging_align_address (add32 stack user_program_stack_size)) user_flags r.1

-- `none`: it panics, or takes the one member of the union for the other.
unfoldable pub process_map_memory_process : ℕ → ℕ → Program → Words → Option (ℤ × Words)
unfolding map_stack
process_map_memory_process directory stack process mem = elim process.contents [
  | elf_of none ↦ none
  | elf_of (some file) ↦
      if process.filetype == process_filetype_elf
      then (elim (process_map_elf directory file mem) [
        | none ↦ none
        | some r ↦ some (map_stack directory stack r)
      ])
      else none
  | binary_at ptr bytes ↦
      if process.filetype == process_filetype_binary
      then some (map_stack directory stack (process_map_binary directory ptr process.size mem))
      else none
]
