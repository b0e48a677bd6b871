-- ===== src/Idt/Paging.antt =====
-- The order of an interrupt's steps: which page tables are loaded while the kernel works.
use tmp_os.Base.{ℕ, ◌≡◌, Option, none, some, List, [], ◌∷◌, get_elem?, Option-cases, inl, inr}
use mathlib.Core.Path.{subst}
use tmp_os.Base.Int.{ℤ}
use tmp_os.Idt.{find_command}

-- What `interrupt_handler` and `isr80h_handler` do, one step each.
pub data Action : Type 0 where
  load_kernel_page : Action
  save_state : Action
  call_callback : ℕ → Action
  call_command : ℤ → Action
  load_task_page : Action
  end_of_interrupt : Action

-- By the entry that is read from the table of callbacks; `none`: it lies beyond the table.
actions_for {ℓ} : {F : Type ℓ} → ℕ → Option (Option F) → Option (List Action)
actions_for interrupt none = none
actions_for interrupt (some none) = some (load_kernel_page ∷ load_task_page ∷ end_of_interrupt ∷ [])
actions_for interrupt (some (some f)) = some (
    load_kernel_page
    ∷ save_state
    ∷ call_callback interrupt
    ∷ load_task_page
    ∷ end_of_interrupt
    ∷ [])

unfoldable pub interrupt_handler {ℓ} : {F : Type ℓ} → List (Option F) → ℕ → Option (List Action)
unfolding actions_for
interrupt_handler callbacks interrupt = actions_for interrupt (get_elem? callbacks interrupt)

-- A command that is not registered is not called.
unfoldable pub isr80h_handler {ℓ} : {F : Type ℓ} → List (Option F) → ℤ → List Action
isr80h_handler commands command =
    load_kernel_page ∷ save_state ∷ (elim (find_command command commands) [
      | none ↦ load_task_page ∷ []
      | some f ↦ call_command command ∷ load_task_page ∷ []
    ])

-- The loaded page tables.
pub data Tables : Type 0 where
  kernel task : Tables

-- Callbacks and commands run, and the state is saved, under the kernel's tables only; the steps
-- lead from one pair of tables to another.
pub data Runs : Tables → List Action → Tables → Type 0 where
  stop : {t : Tables} → Runs t [] t
  kernel_page : {t u : Tables} {l : List Action} → Runs kernel l u → Runs t (load_kernel_page ∷ l) u
  task_page : {t u : Tables} {l : List Action} → Runs task l u → Runs t (load_task_page ∷ l) u
  save : {u : Tables} {l : List Action} → Runs kernel l u → Runs kernel (save_state ∷ l) u
  callback :
      {u : Tables} {l : List Action} (i : ℕ) → Runs kernel l u → Runs kernel (call_callback i ∷ l) u
  command :
      {u : Tables} {l : List Action} (c : ℤ) → Runs kernel l u → Runs kernel (call_command c ∷ l) u
  acknowledge : {t u : Tables} {l : List Action} → Runs t l u → Runs t (end_of_interrupt ∷ l) u

ruleset steps = (stop, kernel_page, task_page, save, callback, command, acknowledge)

actions_for-Runs {ℓ} :
    {F : Type ℓ} (i : ℕ) (entry : Option (Option F)) (l : List Action) (t : Tables)
    → actions_for i entry ≡ some l
    → Runs t l task
unfolding actions_for
actions_for-Runs i none l t e = cc
actions_for-Runs i (some none) l t e =
    let q : load_kernel_page ∷ load_task_page ∷ end_of_interrupt ∷ [] ≡ l = cc in
    subst (λ l'. Runs t l' task) q (search steps depth 8)
actions_for-Runs i (some (some f)) l t e =
    let q : load_kernel_page ∷ save_state ∷ call_callback i ∷ load_task_page ∷ end_of_interrupt ∷ []
        ≡ l =
      cc in
    subst (λ l'. Runs t l' task) q (search steps depth 8)

-- Whatever is registered, an interrupt is handled under the kernel's tables, and returns to the
-- task under the task's own.
pub interrupt_handler-Runs {ℓ} :
    {F : Type ℓ} (callbacks : List (Option F)) (interrupt : ℕ) (l : List Action) (t : Tables)
    → interrupt_handler callbacks interrupt ≡ some l
    → Runs t l task
unfolding interrupt_handler
interrupt_handler-Runs callbacks interrupt l t e =
    actions_for-Runs interrupt (get_elem? callbacks interrupt) l t e

-- So is a system call.
pub isr80h_handler-Runs {ℓ} :
    {F : Type ℓ} (commands : List (Option F)) (command : ℤ) (t : Tables)
    → Runs t (isr80h_handler commands command) task
unfolding isr80h_handler
isr80h_handler-Runs commands c t = elim (Option-cases (find_command c commands)) [
  | inl e ↦ rw (e, isr80h_handler) (search steps)
  | inr (f, e) ↦ rw (e, isr80h_handler) (search steps)
]
