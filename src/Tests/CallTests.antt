-- ===== src/Tests/CallTests.antt =====
-- src/isr80h/heap.c and the parts of src/task/task.c that read a task's memory, on a small memory.
use tmp_os.Base.{
  ℕ, ◌+◌, ◌-◌, ◌*◌, ◌/◌, ◌%◌, ◌^◌, ◌≡◌, refl, Option, none, some, get_elem?, [], ◌∷◌, ◌==◌, leb,
  ltb, ◌&&◌, arith, if◌then◌else◌, replicate,
}
use tmp_os.Base.Int.{ℤ}
use tmp_os.Memory.Kheap.{Memory}
use tmp_os.Memory.Pages.{Given}
use tmp_os.Paging.{
  Words, page_size, address_only, paging_get, write_word, paging_map_to, map_pages, paging_map,
  paging_set, paging_get_indexes, paging_map_range,
}
use tmp_os.Paging.Map.{IsDirectory}
use tmp_os.Paging.Chunk.{paging_4gb_chunk_get_dir}
use tmp_os.Process.{find_allocation}
use tmp_os.Process.Allocations.{Recorded}
use tmp_os.Task.{Registers}
use tmp_os.Task.Stack.{Mmu, IsMmu, kernel_page, task_get_stack_item}
use tmp_os.Task.Arguments.{with_stack}
use tmp_os.Task.Stray.{stray}
use tmp_os.Isr80h.Memory.{System, paged, HasStack, top_word, isr80h_command4_malloc, malloc-Given}
use tmp_os.Keyboard.Drivers.{Drivers, Ps2State, keyboard_init, ps2_keyboard_init}
use tmp_os.Idt.{idt_register_interrupt_callback}
use tmp_os.Task.Arguments.{stack_item-mapped}
use tmp_os.Tests.SpaceTests.{start_heap, start_heap-IsReady, start_heap_room}

abbrev mmu : Mmu
mmu dir virt mem = address_only (paging_get dir (virt - virt % page_size) mem) + virt % page_size

mmu-IsMmu : IsMmu mmu
mmu-IsMmu = record { translates = λ dir virt mem l q p. refl }

-- A chunk at 0x300000, its directory at 0x400000 and the tables behind 0x800000; the stack's words
-- are all 64.
abbrev dir : ℕ
dir = 0x400000

words : Words
words a =
    if leb dir a
    then 0x800000 + (a - dir) / 4 * page_size + 7
    else if a == 0x300000
    then dir
    else 64

words_directory : (i : ℕ) → words (dir + 4 * i) ≡ 0x800000 + i * page_size + 7
unfolding words
words_directory i = ground arith

words-IsDirectory : IsDirectory dir words
words-IsDirectory = record {
  aligned = refl;
  apart = λ i j l m ne e. ne (omega (arith, words_directory i, words_directory j));
  tables = λ i l e. absurd (omega (arith, words_directory i));
}

abbrev stack : ℕ
stack = 0x200000

abbrev registers : Registers
registers = record {
  edi = 0;
  esi = 0;
  ebp = 0;
  ebx = 0;
  edx = 0;
  ecx = 0;
  eax = 4;
  ip = 0x400000;
  cs = 0x1b;
  flags = 0;
  esp = 0x3FEFF0;
  ss = 0x23;
}

abbrev system : System
system = record {
  tasks = record {
    task_at =
        λ a. record { page_dir = 0x300000; registers = registers; process = 0; next = 0; prev = 0 };
    task_head = 100;
    task_tail = 100;
    curr_task = 100;
    loaded = 0x300000;
  };
  kernel_chunk = 0x310000;
  process = record { allocations = replicate 3 (record { ptr = 0; size = 0 }); page_dir = dir };
  machine = record { heap = start_heap; blocks = λ a. 1; tables = with_stack dir stack words };
}

system_top : top_word stack system ≡ 64
unfolding words paging_map_to paging_map_range map_pages paging_map paging_set paging_get_indexes
    write_word
system_top = refl

system_dir : paging_4gb_chunk_get_dir 0x300000 (with_stack dir stack words) ≡ dir
unfolding words paging_map_to paging_map_range map_pages paging_map paging_set paging_get_indexes
    write_word paging_4gb_chunk_get_dir
system_dir = refl

system_present : with_stack dir stack words dir % 2 ≡ 1
unfolding words paging_map_to paging_map_range map_pages paging_map paging_set paging_get_indexes
    write_word
system_present = refl

system-HasStack : HasStack mmu dir stack words system
system-HasStack = record {
  is_mmu = mmu-IsMmu;
  directory = words-IsDirectory;
  aligned = refl;
  fits = omega arith;
  tables = refl;
  present = system_present;
  current = omega arith;
  own = system_dir;
  lower = omega arith;
  upper = omega arith;
}

first_slot : find_allocation 0 system.process.allocations 0 ≡ some 0
unfolding find_allocation
first_slot = refl

malloc-Given_example :
    (p : ℕ) × (s' : System) × (isr80h_command4_malloc mmu system ≡ some (p, s'))
    × Given
        (top_word stack system)
        p
        system.machine.heap
        s'.machine.heap
        system.machine.blocks
        s'.machine.blocks
    × Recorded system.process p (top_word stack system) s'.process
    × (s'.tasks ≡ record (system.tasks) { loaded = system.kernel_chunk })
malloc-Given_example =
    malloc-Given mmu dir stack 0 words system system-HasStack start_heap-IsReady.0
      (omega (arith, start_heap_room)) (omega (arith, system_top)) (omega (arith, system_top))
      first_slot

-- A directory at 4096 whose first table, at 8192, maps each page to itself, but for the stack.
table_word : ℕ → ℕ
table_word a =
    if leb 12268 a && ltb a 12284
    then 0x1400000 + (a - 12268) / 4 * page_size + 7
    else if leb 8192 a && ltb a 12288
    then (a - 8192) / 4 * page_size + 5
    else if a == 4096
    then 8192 + 7
    else 0

table_byte : Memory
table_byte a =
    let w = table_word (a - a % 4) in
    if a % 4 == 0
    then w % 256
    else if a % 4 == 1
    then w / 2 ^ 8 % 256
    else if a % 4 == 2
    then w / 2 ^ 16 % 256
    else w / 2 ^ 24 % 256

-- The block at 16 MB is taken for a buffer, and the word at 6 MB is overwritten.
stray_of_heap : stray 0x1000000 ≡ 0x600000
stray_of_heap = refl

abbrev no_keyboards : Drivers
no_keyboards = record { next = λ a. 0; keyboard_list_head = 0; keyboard_list_last = 0 }

abbrev ports : Ps2State ℕ
ports = record { callbacks = replicate 64 none; written = [] }

abbrev keyboards : ℕ → Option (Ps2State ℕ → ℤ × Ps2State ℕ)
keyboards k = if k == 700 then some (ps2_keyboard_init 5) else none

-- The handler is found at the keyboard's interrupt behind the start.
started :
    let (d, s) = keyboard_init keyboards 700 no_keyboards ports in
    (get_elem? s.callbacks 0x21 ≡ some (some 5)) × (s.written ≡ (0x64, 0xAE) ∷ [])
unfolding keyboard_init ps2_keyboard_init idt_register_interrupt_callback
started = (refl, refl)

stack_item-mapped_example :
    task_get_stack_item mmu 100 0 (paged system)
    ≡ (system.machine.tables (stack + (0x3FEFF0 + 4 * 0 - 0x3FB000)), kernel_page (paged system))
stack_item-mapped_example =
    stack_item-mapped mmu dir stack 100 0 words (paged system) mmu-IsMmu words-IsDirectory refl
      (omega arith) refl system_present system_dir (omega arith) (omega arith)
