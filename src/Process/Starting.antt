-- ===== src/Process/Starting.antt =====
-- src/task/process.c: a new process, with its task, in the table of processes. The name and the
-- number that the process gets are not kept.
use tmp_os.Base.{ℕ, ◌==◌, true, false, Option, none, some, List, if◌then◌else◌, set, replicate}
use tmp_os.Base.Int.{ℤ, pos, negsuc, is_neg, is_zero}
use tmp_os.Base.Errno.{neg_eio, neg_enomem, neg_eistkn}
use tmp_os.File.{Files}
use tmp_os.Elf.{elf_header}
use tmp_os.Elf.Load.{NoReturn}
use tmp_os.Paging.{Words}
use tmp_os.Task.{Tasks, task_new, process_filetype_elf}
use tmp_os.Process.{Process, process_get, process_get_free_slot, max_program_allocations}
use tmp_os.Process.Loading.{
  Program, binary_at, elf_of, process_init, process_load_data, process_map_memory_process,
}

-- What the calls of `kzalloc` give in turn, 0 for none, the page directory of the new task, and the
-- word that lies in the place of the entry where there is no ELF file behind the process.
pub record Supplies : Type 0 where
  pub process : ℕ
  pub contents : ℕ
  pub stack : ℕ
  pub task : ℕ
  pub directory : ℕ
  pub stray_entry : ℕ

-- The open files, the page tables, the tasks, `processes` and `cur_process`.
pub record Kernel (P : Type 0) : Type 0 where
  pub files : Files P
  pub tables : Words
  pub tasks : Tasks
  pub processes : List (Option Process)
  pub cur_process : ℕ

-- What `task_init` reads as the entry of an ELF file; `stray` is what it finds where there is none.
unfoldable pub entry_of : ℕ → Program → ℕ
entry_of stray process =
    let of_file : ℕ = elim process.contents [
      | binary_at ptr bytes ↦ stray
      | elf_of none ↦ stray
      | elf_of (some file) ↦ elim (elf_header file.bytes) [
        | none ↦ stray
        | some header ↦ header.e_entry
      ]
    ] in
    if process.filetype == process_filetype_elf then of_file else 0

abbrev pub new_process : Supplies → Process
new_process m = record {
  allocations = replicate max_program_allocations (record { ptr = 0; size = 0 });
  page_dir = m.directory;
}

-- `process_load_for_slot` from `task_new` on. An error of `task_new` is not found, and its number is
-- then used as the task: this is `none`.
unfoldable pub start : {P : Type 0} → Supplies → ℕ → Program → Kernel P → Option (ℤ × Kernel P)
unfolding entry_of
start m slot process k =
    let t =
      task_new m.task m.directory
        (record {
          address = m.process;
          filetype = process.filetype;
          e_entry = entry_of m.stray_entry process;
        })
        k.tasks in
    elim t.0 [
      | negsuc e ↦ none
      | pos task ↦ elim (process_map_memory_process m.directory m.stack process k.tables) [
        | none ↦ none
        | some (res, tables) ↦
            let k' = record k { tasks = t.1; tables = tables } in
            some (
              if is_neg res
              then (res, k')
              else (pos 0, record k' { processes = set k.processes slot (some (new_process m)) }))
      ]
    ]

-- `process_load_for_slot` from `process_load_data` on.
unfoldable pub load_and_start :
    {P : Type 0} → NoReturn → Supplies → List ℕ → ℕ → Kernel P → Option (ℤ × Kernel P)
load_and_start r m filename slot k =
    elim (process_load_data r m.contents filename process_init k.files) [
      | none ↦ none
      | some (res, process, files) ↦
          let k' = record k { files = files } in
          elim (is_zero res) [
            | false ↦ some (neg_eio, k')
            | true ↦ elim (m.stack == 0) [
              | true ↦ some (neg_enomem, k')
              | false ↦ start m slot process k'
            ]
          ]
    ]

unfoldable pub process_load_for_slot :
    {P : Type 0} → NoReturn → Supplies → List ℕ → ℕ → Kernel P → Option (ℤ × Kernel P)
unfolding process_get
process_load_for_slot r m filename slot k = elim (process_get (pos slot) k.processes) [
  | none ↦ none
  | some (some process) ↦ some (neg_eistkn, k)
  | some none ↦ elim (m.process == 0) [
    | true ↦ some (neg_enomem, k)
    | false ↦ load_and_start r m filename slot k
  ]
]

unfoldable pub process_load :
    {P : Type 0} → NoReturn → Supplies → List ℕ → Kernel P → Option (ℤ × Kernel P)
process_load r m filename k = elim (process_get_free_slot k.processes) [
  | negsuc e ↦ some (neg_eistkn, k)
  | pos slot ↦ process_load_for_slot r m filename slot k
]

unfoldable pub process_switch : {P : Type 0} → ℕ → Kernel P → ℤ × Kernel P
process_switch process k = (pos 0, record k { cur_process = process })

unfoldable pub process_load_switch :
    {P : Type 0} → NoReturn → Supplies → List ℕ → Kernel P → Option (ℤ × Kernel P)
unfolding process_switch
process_load_switch r m filename k = elim (process_load r m filename k) [
  | none ↦ none
  | some (res, k') ↦ some (if is_zero res then process_switch m.process k' else (res, k'))
]
