-- ===== src/Process/Outcome.antt =====
-- src/task/process.c: which programs become processes.
use tmp_os.Base.{
  ℕ, ◌<◌, ◌≡◌, ◌≢◌, refl, ◌∙◌, ◌==◌, true, false, Option, none, some, List, [], ◌∷◌, ◌++◌, length,
  get_or, get_elem?, set, get_elem?-set_self, arith,
}
use tmp_os.Base.Int.{ℤ, pos, is_neg}
use tmp_os.File.{Files}
use tmp_os.Elf.Load.{NoReturn}
use tmp_os.Paging.{Words}
use tmp_os.Task.{Tasks, LoadedProcess, task_new}
use tmp_os.Task.Order.{IsTaskList, task_new-IsTaskList}
use tmp_os.Process.{process_get}
use tmp_os.Process.Loading.{Program, process_init, process_load_data, process_map_memory_process}
use tmp_os.Process.Starting.{
  Supplies, Kernel, entry_of, new_process, start, load_and_start, process_load_for_slot,
}

-- A free slot and all the memory that is asked for.
pub record HasRoom {P : Type 0} (m : Supplies) (slot : ℕ) (k : Kernel P) : Type 0 where
  pub free_slot : process_get (pos slot) k.processes ≡ some none
  pub process_memory : m.process ≢ 0
  pub stack_memory : m.stack ≢ 0
  pub task_memory : m.task ≢ 0
  pub has_directory : m.directory ≢ 0

pub reaches_start :
    {P : Type 0} (r : NoReturn) (m : Supplies) (filename : List ℕ) (slot : ℕ) (k : Kernel P)
    (process : Program) (files : Files P)
    → HasRoom m slot k
    → process_load_data r m.contents filename process_init k.files ≡ some (pos 0, process, files)
    → process_load_for_slot r m filename slot k ≡ start m slot process (record k { files = files })
unfolding process_load_for_slot load_and_start
reaches_start r m filename slot k process files h e =
    let a : (m.process == 0) ≡ false = ground (arith, h.process_memory) in
    let b : (m.stack == 0) ≡ false = ground (arith, h.stack_memory) in
    rw (h.free_slot, a, e, b, load_and_start, process_load_for_slot) refl

abbrev pub new_task : Supplies → Program → Tasks → ℤ × Tasks
new_task m process tasks =
    task_new m.task m.directory
      (record {
        address = m.process;
        filetype = process.filetype;
        e_entry = entry_of m.stray_entry process;
      })
      tasks

pub task_of_start :
    {P : Type 0} (m : Supplies) (slot n : ℕ) (process : Program) (k : Kernel P) (tables : Words)
    → (new_task m process k.tasks).0 ≡ pos m.task
    → process_map_memory_process m.directory m.stack process k.tables ≡ some (pos n, tables)
    → start m slot process k
      ≡ some (
        pos 0,
        record k {
          tasks = (new_task m process k.tasks).1;
          tables = tables;
          processes = set k.processes slot (some (new_process m));
        },
      )
unfolding start
task_of_start m slot n process k tables g h = rw (g, h, start) refl

-- A program that is loaded and whose pages are mapped becomes a process: `process_load_for_slot`
-- returns 0, the slot of the table has the process, its task is the last of the list of tasks, and
-- the page tables are those with the program mapped.
pub loaded_program :
    {P : Type 0} (r : NoReturn) (m : Supplies) (filename : List ℕ) (slot n : ℕ) (k : Kernel P)
    (process : Program) (files : Files P) (tables : Words) (l : List ℕ)
    → HasRoom m slot k
    → slot < length k.processes
    → process_load_data r m.contents filename process_init k.files ≡ some (pos 0, process, files)
    → process_map_memory_process m.directory m.stack process k.tables ≡ some (pos n, tables)
    → IsTaskList k.tasks l
    → ((i : ℕ) → i < length l → get_or l i 0 ≢ m.task)
    → (k' : Kernel P) × (process_load_for_slot r m filename slot k ≡ some (pos 0, k'))
      × (get_elem? k'.processes slot ≡ some (some (new_process m)))
      × IsTaskList k'.tasks (l ++ (m.task ∷ []))
      × (k'.tables ≡ tables)
loaded_program r m filename slot n k process files tables l h b e g t fresh =
    let loaded : LoadedProcess = record {
      address = m.process;
      filetype = process.filetype;
      e_entry = entry_of m.stray_entry process;
    } in
    let new = new_task m process k.tasks in
    let (is_task, tasks) =
      task_new-IsTaskList m.task m.directory loaded k.tasks l t h.task_memory h.has_directory
        fresh in
    let k1 = record k { files = files } in
    (
      record k1 {
        tasks = new.1;
        tables = tables;
        processes = set k.processes slot (some (new_process m));
      },
      reaches_start r m filename slot k process files h e
          ∙ task_of_start m slot n process k1 tables is_task g,
      get_elem?-set_self k.processes slot (some (new_process m)) b,
      tasks,
      refl,
    )

-- How a call ends that returns: with the process in its slot and its task behind the others; with an
-- error and without any change to processes, tasks and page tables; or, where its pages cannot be
-- mapped, with an error and no process, but with the task left in the list.
pub data Loads {P : Type 0} (m : Supplies) (slot : ℕ) (k : Kernel P) (l : List ℕ)
    : ℤ → Kernel P → Type 0 where
  loaded :
      {k' : Kernel P}
      → process_get (pos slot) k.processes ≡ some none
      → k'.processes ≡ set k.processes slot (some (new_process m))
      → IsTaskList k'.tasks (l ++ (m.task ∷ []))
      → Loads m slot k l (pos 0) k'
  refused :
      {res : ℤ} {k' : Kernel P}
      → is_neg res ≡ true
      → k'.processes ≡ k.processes
      → k'.tasks ≡ k.tasks
      → k'.tables ≡ k.tables
      → Loads m slot k l res k'
  task_left :
      {res : ℤ} {k' : Kernel P}
      → is_neg res ≡ true
      → k'.processes ≡ k.processes
      → IsTaskList k'.tasks (l ++ (m.task ∷ []))
      → Loads m slot k l res k'

abbrev Ends : {P : Type 0} → Supplies → ℕ → Kernel P → List ℕ → Option (ℤ × Kernel P) → Type 0
Ends m slot k l none = Unit
Ends m slot k l (some (res, k')) = Loads m slot k l res k'

-- With memory for the task, the list of tasks `l`, and the new task not yet in it.
pub record HasTask (m : Supplies) (s : Tasks) (l : List ℕ) : Type 0 where
  pub task_memory : m.task ≢ 0
  pub has_directory : m.directory ≢ 0
  pub is_list : IsTaskList s l
  pub fresh : (i : ℕ) → i < length l → get_or l i 0 ≢ m.task
