-- ===== src/Tests/TaskTests.antt =====
-- src/task/task.c with two tasks.
use tmp_os.Base.{
  ℕ, zero, suc, ◌+◌, ◌<◌, ◌≤◌, ◌≡◌, ◌≢◌, refl, some, List, [], ◌∷◌, ◌++◌, arith, get_or,
}
use tmp_os.Base.Int.{pos}
use tmp_os.Task.{
  Registers, InterruptFrame, Task, Tasks, LoadedProcess, task_new, task_list_remove,
  task_current_save_state,
}
use tmp_os.Task.Saving.{of_frame, save_state-of_frame}
use tmp_os.Task.Order.{IsTaskList, task_new-IsTaskList}
use tmp_os.Task.Turns.{turns, each_task_gets_a_turn}
use tmp_os.Task.Removal.{removed_stays, removal_of_first}

abbrev registers : Registers
registers = record {
  edi = 0;
  esi = 0;
  ebp = 0;
  ebx = 7;
  edx = 0;
  ecx = 0;
  eax = 0;
  ip = 0;
  cs = 0;
  flags = 0;
  esp = 0;
  ss = 0;
}

-- The task at 100, and the memory of another at 200.
abbrev tasks : Tasks
tasks = record {
  task_at =
      λ a. record { page_dir = a + 1; registers = registers; process = 0; next = 0; prev = 0 };
  task_head = 100;
  task_tail = 100;
  curr_task = 100;
  loaded = 101;
}

abbrev process : LoadedProcess
process = record { address = 500; filetype = 0; e_entry = 0x400010 }

abbrev one : List ℕ
one = 100 ∷ []

tasks-IsTaskList : IsTaskList tasks one
tasks-IsTaskList = record {
  head_is = refl;
  tail_is = refl;
  not_null = not_null;
  next_is = λ k h. absurd (omega arith);
  last_next = λ h. refl;
  distinct = λ j k h g. absurd (omega arith);
}
  where
    not_null : (k : ℕ) → k < 1 → get_or one k 0 ≢ 0
    not_null zero h = omega arith
    not_null (suc k) h = absurd (omega arith)

apart : (k : ℕ) → k < 1 → get_or one k 0 ≢ 200
apart zero h = omega arith
apart (suc k) h = absurd (omega arith)

abbrev two_tasks : Tasks
two_tasks = (task_new 200 300 process tasks).1

task_new-IsTaskList_example :
    ((task_new 200 300 process tasks).0 ≡ pos 200) × IsTaskList two_tasks (one ++ (200 ∷ []))
task_new-IsTaskList_example =
    task_new-IsTaskList 200 300 process tasks one tasks-IsTaskList (omega arith) (omega arith) apart

two_tasks-IsTaskList : IsTaskList two_tasks (one ++ (200 ∷ []))
two_tasks-IsTaskList =
    (task_new-IsTaskList 200 300 process tasks one tasks-IsTaskList (omega arith) (omega arith)
      apart).1

each_task_gets_a_turn_example :
    (n : ℕ) × (0 < n)
    × (n ≤ 2)
    × ((turns n two_tasks).curr_task ≡ 200)
    × ((turns n two_tasks).loaded ≡ ((turns n two_tasks).task_at 200).page_dir)
unfolding task_new tmp_os.Task.link tmp_os.Task.task_init
each_task_gets_a_turn_example =
    each_task_gets_a_turn two_tasks (one ++ (200 ∷ [])) 0 1 two_tasks-IsTaskList refl (omega arith)
      (omega arith)

removed_stays_example : IsTaskList (task_list_remove 200 two_tasks) (one ++ (200 ∷ []))
removed_stays_example =
    removed_stays 200 300 process tasks one tasks-IsTaskList (omega arith) (omega arith)
      (omega arith) apart

removal_of_first_example : IsTaskList (task_list_remove 100 tasks) []
removal_of_first_example = removal_of_first tasks 100 [] tasks-IsTaskList refl

abbrev frame : InterruptFrame
frame = record {
  edi = 1;
  esi = 2;
  ebp = 3;
  reserved = 0;
  ebx = 4;
  edx = 5;
  ecx = 6;
  eax = 7;
  ip = 8;
  cs = 9;
  flags = 10;
  esp = 11;
  ss = 12;
}

save_state-of_frame_example :
    (s' : Tasks) × (task_current_save_state frame tasks ≡ some s')
    × (s'.task_at 100 ≡ record (tasks.task_at 100) { registers = of_frame frame 7 })
save_state-of_frame_example = save_state-of_frame frame tasks (omega arith)
