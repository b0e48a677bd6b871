-- ===== src/Tests/LoadTests.antt =====
-- src/task/process.c with a file system of one file.
use tmp_os.Base.{ℕ, none, some, List, [], ◌∷◌, ◌++◌, replicate, length, set}
use tmp_os.Base.Int.{pos}
use tmp_os.File.{FileSystem, Files, opened}
use tmp_os.Elf.{ElfFile}
use tmp_os.Elf.Load.{NoReturn}
use tmp_os.Paging.{Words, paging_map_to}
use tmp_os.Task.{Tasks}
use tmp_os.Process.Loading.{Program, binary_at, elf_of, process_load_binary, map_stack}
use tmp_os.Process.Starting.{Supplies, Kernel, new_process}
use tmp_os.Process.Outcome.{new_task}

abbrev one_file : List ℕ → FileSystem ℕ
one_file bytes = record {
  resolve = λ d. some (pos 0);
  open_path = λ d path mode. some (opened 0);
  read = λ d p size nmemb mem. some (pos 1, p, bytes);
  seek = λ p offset seek_mode. some (pos 0, p);
  stat = λ d p. some (pos 0, some (record { flags = 0; file_size = length bytes }));
  close = λ p. some (pos 0);
}

abbrev files : List ℕ → Files ℕ
files bytes = record {
  filesystems = [];
  file_descriptors = none ∷ none ∷ [];
  disk_fs = some (one_file bytes);
}

abbrev tasks : Tasks
tasks = record {
  task_at = λ a. record {
    page_dir = 0;
    registers = record {
      edi = 0;
      esi = 0;
      ebp = 0;
      ebx = 0;
      edx = 0;
      ecx = 0;
      eax = 0;
      ip = 0;
      cs = 0;
      flags = 0;
      esp = 0;
      ss = 0;
    };
    process = 0;
    next = 0;
    prev = 0;
  };
  task_head = 0;
  task_tail = 0;
  curr_task = 0;
  loaded = 0;
}

abbrev kernel : List ℕ → Kernel ℕ
kernel bytes = record {
  files = files bytes;
  tables = λ a. 0;
  tasks = tasks;
  processes = replicate 12 none;
  cur_process = 0;
}

abbrev supplies : Supplies
supplies = record {
  process = 0x1800000;
  contents = 0x1000000;
  stack = 0x1400000;
  task = 0x1900000;
  directory = 0x1A00000;
  stray_entry = 0;
}

abbrev left : NoReturn
left = record { pheader = λ i. pos 0; pheaders = pos 0 }

abbrev path : List ℕ
path = b'0' ∷ b':' ∷ b'/' ∷ b'a' ∷ 0 ∷ []

-- One segment, the whole file, for 0x400000.
abbrev elf_bytes : List ℕ
elf_bytes =
    (0x7f ∷ b'E' ∷ b'L' ∷ b'F' ∷ 1 ∷ 1 ∷ 1 ∷ [])
    ++ replicate 9 0
    ++ (2 ∷ 0 ∷ 3 ∷ 0 ∷ 1 ∷ 0 ∷ 0 ∷ 0 ∷ 16 ∷ 0 ∷ 0x40 ∷ 0 ∷ 52 ∷ 0 ∷ 0 ∷ 0 ∷ [])
    ++ replicate 12 0
    ++ (1 ∷ 0 ∷ 0 ∷ 0 ∷ 0 ∷ 0 ∷ 0 ∷ 0 ∷ [])
    ++ (1 ∷ 0 ∷ 0 ∷ 0 ∷ 0 ∷ 0 ∷ 0 ∷ 0 ∷ 0 ∷ 0 ∷ 0x40 ∷ 0 ∷ 0 ∷ 0 ∷ 0 ∷ 0 ∷ [])
    ++ (84 ∷ 0 ∷ 0 ∷ 0 ∷ 84 ∷ 0 ∷ 0 ∷ 0 ∷ 5 ∷ 0 ∷ 0 ∷ 0 ∷ 0 ∷ 0 ∷ 0 ∷ 0 ∷ [])

abbrev program : Program
program = record {
  filetype = 0;
  contents = elf_of (
      some (record {
        elf_memory = 0x1000000;
        bytes = elf_bytes;
        virtual_base_address = 0x400000;
        virtual_end_address = 0x400054;
        physical_base_address = 0x1000000;
        physical_end_address = 0x1000054;
      }));
  size = 0;
}

abbrev mapped_tables : Words
mapped_tables =
    (map_stack 0x1A00000 0x1400000
      (paging_map_to 0x1A00000 0x400000 0x1000000 0x1001000 5 (λ a. 0))).1

abbrev with_program : Kernel ℕ
with_program = record (kernel elf_bytes) {
  tables = mapped_tables;
  tasks = (new_task supplies program tasks).1;
  processes = set (replicate 12 none) 0 (some (new_process supplies));
}
