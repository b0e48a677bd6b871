-- ===== src/Task.antt =====
-- src/task/task.c: the list of tasks, over the memory that their pointers lead to. A pointer is an
-- address, 0 for NULL; what a freed task's memory holds is not followed.
pub mod Saving
pub mod Stack
pub mod Stray
pub mod Copying
pub mod Arguments
pub mod Order
pub mod Turns
pub mod Removal
use tmp_os.Base.{ℕ, ◌==◌, Bool, true, false, Option, none, some, if◌then◌else◌}
use tmp_os.Base.Int.{ℤ, pos, negsuc}
use tmp_os.Base.Errno.{neg_enomem}

-- `struct registers`
pub record Registers : Type 0 where
  pub edi : ℕ
  pub esi : ℕ
  pub ebp : ℕ
  pub ebx : ℕ
  pub edx : ℕ
  pub ecx : ℕ
  pub eax : ℕ
  pub ip : ℕ
  pub cs : ℕ
  pub flags : ℕ
  pub esp : ℕ
  pub ss : ℕ

-- `struct interrupt_frame`
pub record InterruptFrame : Type 0 where
  pub edi : ℕ
  pub esi : ℕ
  pub ebp : ℕ
  pub reserved : ℕ
  pub ebx : ℕ
  pub edx : ℕ
  pub ecx : ℕ
  pub eax : ℕ
  pub ip : ℕ
  pub cs : ℕ
  pub flags : ℕ
  pub esp : ℕ
  pub ss : ℕ

-- `struct task`
pub record Task : Type 0 where
  pub page_dir : ℕ
  pub registers : Registers
  pub process : ℕ
  pub next : ℕ
  pub prev : ℕ

-- What `task_init` reads of a `struct process`: its address, its type, and the entry in the header
-- of its ELF file.
pub record LoadedProcess : Type 0 where
  pub address : ℕ
  pub filetype : ℕ
  pub e_entry : ℕ

-- The tasks in memory, `task_head`, `task_tail`, `curr_task`, and the page directory in use.
pub record Tasks : Type 0 where
  pub task_at : ℕ → Task
  pub task_head : ℕ
  pub task_tail : ℕ
  pub curr_task : ℕ
  pub loaded : ℕ

abbrev pub put : ℕ → Task → (ℕ → Task) → ℕ → Task
put a t m x = if a == x then t else m x

unfoldable pub task_switch : ℕ → Tasks → ℤ × Tasks
task_switch task s = (pos 0, record s { curr_task = task; loaded = (s.task_at task).page_dir })

-- All but `ebx`.
unfoldable pub task_save_state : Task → InterruptFrame → Task
task_save_state task frame = record task {
  registers = record task.registers {
    ip = frame.ip;
    cs = frame.cs;
    flags = frame.flags;
    esp = frame.esp;
    ss = frame.ss;
    eax = frame.eax;
    ebp = frame.ebp;
    ecx = frame.ecx;
    edi = frame.edi;
    edx = frame.edx;
    esi = frame.esi;
  };
}

-- `none`: it panics.
unfoldable pub task_current_save_state : InterruptFrame → Tasks → Option Tasks
task_current_save_state frame s =
    if s.curr_task == 0
    then none
    else some (record s {
      task_at = put s.curr_task (task_save_state (s.task_at s.curr_task) frame) s.task_at;
    })

-- Of the first task the list has, whether or not it is the current one. `none`: it panics.
unfoldable pub task_run_first_task : Tasks → Option (Tasks × Registers)
task_run_first_task s =
    if s.curr_task == 0
    then none
    else some ((task_switch s.task_head s).1, (s.task_at s.task_head).registers)

abbrev pub process_filetype_elf : ℕ
process_filetype_elf = 0

abbrev pub program_virtual_address : ℕ
program_virtual_address = 0x400000

abbrev pub program_virtual_stack_address_start : ℕ
program_virtual_stack_address_start = 0x3FF000

abbrev pub user_data_segment : ℕ
user_data_segment = 0x23

abbrev pub user_code_segment : ℕ
user_code_segment = 0x1b

abbrev no_registers : Registers
no_registers = record {
  edi = 0;
  esi = 0;
  ebp = 0;
  ebx = 0;
  edx = 0;
  ecx = 0;
  eax = 0;
  ip = 0;
  cs = 0;
  flags = 0;
  esp = 0;
  ss = 0;
}

-- The result and the task, for what `paging_new_chunk` gives.
unfoldable pub task_init : ℕ → LoadedProcess → ℤ × Task
task_init chunk process =
    let empty : Task = record {
      page_dir = chunk;
      registers = no_registers;
      process = 0;
      next = 0;
      prev = 0;
    } in
    if chunk == 0 then (neg_enomem, empty) else (
      pos 0,
      record empty {
        registers = record no_registers {
          ip =
              if process.filetype == process_filetype_elf
              then process.e_entry
              else program_virtual_address;
          ss = user_data_segment;
          cs = user_code_segment;
          esp = program_virtual_stack_address_start;
        };
        process = process.address;
      },
    )

-- `task_new` behind `task_init`.
unfoldable pub link : ℕ → Tasks → Tasks
link task s =
    if s.task_head == 0
    then record s { task_head = task; task_tail = task; curr_task = task }
    else let behind_tail =
        put s.task_tail (record (s.task_at s.task_tail) { next = task }) s.task_at in
      record s {
        task_at = put task (record (behind_tail task) { prev = task }) behind_tail;
        task_tail = task;
      }

-- For what `kzalloc` and `paging_new_chunk` give: an error number, or the address of the new task.
unfoldable pub task_new : ℕ → ℕ → LoadedProcess → Tasks → ℤ × Tasks
unfolding task_init
task_new memory chunk process s =
    let s' = record s { task_at = put memory (task_init chunk process).1 s.task_at } in
    if memory == 0 then (neg_enomem, s) else elim (task_init chunk process).0 [
      | negsuc e ↦ (negsuc e, s')
      | pos n ↦ (pos memory, link memory s')
    ]

-- For a current task.
unfoldable pub task_get_next : Tasks → ℕ
task_get_next s = let next = (s.task_at s.curr_task).next in if next == 0 then s.task_head else next

-- `task_list_remove` up to the change of the predecessor's `next`.
unfoldable pub unlink : ℕ → Tasks → Tasks
unlink task s =
    let prev = (s.task_at task).prev in
    if prev == 0 then s else record s {
      task_at = put prev (record (s.task_at prev) { next = (s.task_at task).next }) s.task_at;
    }

-- `task_head` and `task_tail`, where the task is one of them.
unfoldable pub move_ends : ℕ → Tasks → Tasks
move_ends task s = record s {
  task_head = if task == s.task_head then (s.task_at task).next else s.task_head;
  task_tail = if task == s.task_tail then (s.task_at task).prev else s.task_tail;
}

unfoldable pub task_list_remove : ℕ → Tasks → Tasks
unfolding task_get_next unlink move_ends
task_list_remove task s =
    let s' = move_ends task (unlink task s) in
    record s' { curr_task = if task == s'.curr_task then task_get_next s' else s'.curr_task }
