-- ===== src/Task/Saving.antt =====
-- src/task/task.c: what of an interrupted program is saved.
use tmp_os.Base.{ℕ, ◌≡◌, ◌≢◌, refl, ◌==◌, true, false, some, arith}
use tmp_os.Task.{Registers, InterruptFrame, Tasks, put, task_save_state, task_current_save_state}

-- The registers of a frame, with another `ebx`.
abbrev pub of_frame : InterruptFrame → ℕ → Registers
of_frame f ebx = record {
  edi = f.edi;
  esi = f.esi;
  ebp = f.ebp;
  ebx = ebx;
  edx = f.edx;
  ecx = f.ecx;
  eax = f.eax;
  ip = f.ip;
  cs = f.cs;
  flags = f.flags;
  esp = f.esp;
  ss = f.ss;
}

-- `task_current_save_state` with a current task saves all registers of the frame but `ebx`, which
-- keeps what was saved before, and leaves the rest of the task as it was.
pub save_state-of_frame :
    (frame : InterruptFrame) (s : Tasks)
    → s.curr_task ≢ 0
    → (s' : Tasks) × (task_current_save_state frame s ≡ some s')
      × (s'.task_at s.curr_task ≡ record (s.task_at s.curr_task) {
        registers = of_frame frame (s.task_at s.curr_task).registers.ebx;
      })
unfolding task_current_save_state task_save_state
save_state-of_frame frame s c =
    let e : (s.curr_task == 0) ≡ false = ground arith in
    let here : (s.curr_task == s.curr_task) ≡ true = ground arith in
    (
      record s {
        task_at = put s.curr_task (task_save_state (s.task_at s.curr_task) frame) s.task_at;
      },
      rw (e, task_current_save_state) refl,
      rw here refl,
    )
