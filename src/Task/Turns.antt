-- ===== src/Task/Turns.antt =====
-- src/task/task.c: the order in which `task_get_next` gives the tasks.
use tmp_os.Base.{
  ℕ, zero, suc, ◌+◌, ◌-◌, ◌<◌, ◌≤◌, ◌≡◌, refl, sym, ◌∙◌, ap, ◌==◌, false, List, arith, length,
  get_or, dec_lt,
}
use tmp_os.Task.{Tasks, task_switch, task_get_next}
use tmp_os.Task.Order.{IsTaskList}

-- A switch to the next task, `n` times.
unfoldable pub turns : ℕ → Tasks → Tasks
turns zero s = s
turns (suc n) s = turns n (task_switch (task_get_next s) s).1

abbrev turn : Tasks → Tasks
turn s = (task_switch (task_get_next s) s).1

turn-IsTaskList : (s : Tasks) (l : List ℕ) → IsTaskList s l → IsTaskList (turn s) l
unfolding task_switch
turn-IsTaskList s l t = record {
  head_is = t.head_is;
  tail_is = t.tail_is;
  not_null = t.not_null;
  next_is = t.next_is;
  last_next = t.last_next;
  distinct = t.distinct;
}

turns-IsTaskList : (n : ℕ) (s : Tasks) (l : List ℕ) → IsTaskList s l → IsTaskList (turns n s) l
unfolding turns
turns-IsTaskList zero s l t = t
turns-IsTaskList (suc n) s l t = turns-IsTaskList n (turn s) l (turn-IsTaskList s l t)

turns-add : (m n : ℕ) (s : Tasks) → turns (m + n) s ≡ turns n (turns m s)
unfolding turns
turns-add zero n s = let e : 0 + n ≡ n = omega arith in rw e refl
turns-add (suc m) n s =
    let e : suc m + n ≡ suc (m + n) = omega arith in rw e (turns-add m n (turn s))

module _ (s : Tasks) (l : List ℕ) (t : IsTaskList s l) (k : ℕ)
    (current : s.curr_task ≡ get_or l k 0) where
  turn_next : k + 1 < length l → (turn s).curr_task ≡ get_or l (k + 1) 0
  unfolding task_switch task_get_next
  turn_next h =
      let next : (s.task_at s.curr_task).next ≡ get_or l (k + 1) 0 =
        ap (λ x. (s.task_at x).next) current ∙ t.next_is k h in
      let e : (get_or l (k + 1) 0 == 0) ≡ false = ground (arith, t.not_null (k + 1) h) in
      rw (next, e) refl

  turn_wraps : k + 1 ≡ length l → (turn s).curr_task ≡ get_or l 0 0
  unfolding task_switch task_get_next
  turn_wraps h =
      let last : k ≡ length l - 1 = omega (arith, h) in
      let next : (s.task_at s.curr_task).next ≡ 0 =
        ap (λ x. (s.task_at x).next) (current ∙ ap (λ i. get_or l i 0) last)
        ∙ t.last_next (omega (arith, h)) in
      rw next t.head_is

turns_ahead :
    (n : ℕ) (s : Tasks) (l : List ℕ) (k : ℕ)
    → IsTaskList s l
    → s.curr_task ≡ get_or l k 0
    → k + n < length l
    → (turns n s).curr_task ≡ get_or l (k + n) 0
unfolding turns
turns_ahead zero s l k t c h = let e : k ≡ k + 0 = omega arith in c ∙ ap (λ i. get_or l i 0) e
turns_ahead (suc n) s l k t c h =
    let e : k + 1 + n ≡ k + suc n = omega arith in
    turns_ahead n (turn s) l (k + 1) (turn-IsTaskList s l t) (turn_next s l t k c (omega arith))
      (omega arith)
    ∙ ap (λ i. get_or l i 0) e

turns_round :
    (n : ℕ) (s : Tasks) (l : List ℕ) (k : ℕ)
    → IsTaskList s l
    → s.curr_task ≡ get_or l k 0
    → k + suc n ≡ length l
    → (turns (suc n) s).curr_task ≡ get_or l 0 0
unfolding turns
turns_round zero s l k t c h = turn_wraps s l t k c (omega arith)
turns_round (suc n) s l k t c h =
    turns_round n (turn s) l (k + 1) (turn-IsTaskList s l t) (turn_next s l t k c (omega arith))
      (omega arith)

turns_loaded :
    (n : ℕ) (s : Tasks)
    → (turns (suc n) s).loaded ≡ ((turns (suc n) s).task_at (turns (suc n) s).curr_task).page_dir
unfolding turns task_switch
turns_loaded zero s = refl
turns_loaded (suc n) s = turns_loaded n (turn s)

-- Whatever task of the list is the current one, each task of the list, in place `j`, becomes the
-- current one, its page directory in use, after at least one turn and at most as many as there are
-- tasks, when `task_switch` goes to what `task_get_next` returns in each turn.
pub each_task_gets_a_turn :
    (s : Tasks) (l : List ℕ) (k j : ℕ)
    → IsTaskList s l
    → s.curr_task ≡ get_or l k 0
    → k < length l
    → j < length l
    → (n : ℕ) × (0 < n)
      × (n ≤ length l)
      × ((turns n s).curr_task ≡ get_or l j 0)
      × ((turns n s).loaded ≡ ((turns n s).task_at (get_or l j 0)).page_dir)
each_task_gets_a_turn s l k j t c h g = elim (dec_lt k j) [
  | yes b ↦
      let m = j - k - 1 in
      let e : k + suc m ≡ j = omega arith in
      let there = turns_ahead (suc m) s l k t c (omega (arith, e)) ∙ ap (λ i. get_or l i 0) e in
      (
        suc m,
        omega arith,
        omega arith,
        there,
        turns_loaded m s ∙ ap (λ x. ((turns (suc m) s).task_at x).page_dir) there,
      )
  | no b ↦
      let m = length l - k - 1 in
      let e : k + suc m ≡ length l = omega arith in
      let whole : suc m + j ≡ suc (m + j) = omega arith in
      let place : 0 + j ≡ j = omega arith in
      let first = turns_round m s l k t c e in
      let there : (turns (suc (m + j)) s).curr_task ≡ get_or l j 0 =
        ap (λ i. (turns i s).curr_task) (sym whole)
        ∙ ap (λ x. x.curr_task) (turns-add (suc m) j s)
        ∙ turns_ahead j (turns (suc m) s) l 0 (turns-IsTaskList (suc m) s l t) first (omega arith)
        ∙ ap (λ i. get_or l i 0) place in
      (
        suc (m + j),
        omega arith,
        omega arith,
        there,
        turns_loaded (m + j) s ∙ ap (λ x. ((turns (suc (m + j)) s).task_at x).page_dir) there,
      )
]
