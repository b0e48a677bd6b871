-- ===== src/Task/Removal.antt =====
-- src/task/task.c: what `task_list_remove` does to the list.
use tmp_os.Base.{
  ℕ, suc, ◌+◌, ◌-◌, ◌<◌, ◌≡◌, ◌≢◌, refl, sym, ◌∙◌, ap, ◌==◌, true, false, List, [], ◌∷◌, ◌++◌,
  arith, if◌then◌else◌, length, get_or, Bool-cases, inl, inr,
}
use tmp_os.Task.{
  Task, Tasks, LoadedProcess, put, task_new, task_init, link, task_list_remove, unlink, move_ends,
}
use tmp_os.Task.Order.{IsTaskList, put_here, task_new_runs, task_new-IsTaskList, link-prev}

-- The same list in another state with the same ends.
same_list :
    (s s' : Tasks) (l : List ℕ)
    → s'.task_head ≡ s.task_head
    → s'.task_tail ≡ s.task_tail
    → ((x : ℕ) → (s'.task_at x).next ≡ (s.task_at x).next)
    → IsTaskList s l
    → IsTaskList s' l
same_list s s' l h g n t = record {
  head_is = h ∙ t.head_is;
  tail_is = g ∙ t.tail_is;
  not_null = t.not_null;
  next_is = λ k b. n (get_or l k 0) ∙ t.next_is k b;
  last_next = λ b. n (get_or l (length l - 1) 0) ∙ t.last_next b;
  distinct = t.distinct;
}

same_next :
    (a x : ℕ) (m : ℕ → Task) → (put a (record (m a) { next = (m a).next }) m x).next ≡ (m x).next
same_next a x m = elim (Bool-cases (a == x)) [
  | inl e ↦ let q : a ≡ x = ground arith in rw e (ap (λ y. (m y).next) q)
  | inr e ↦ rw e refl
]

unlink_own :
    (s : Tasks) (a : ℕ)
    → a ≢ 0
    → (s.task_at a).prev ≡ a
    → unlink a s
      ≡ record s { task_at = put a (record (s.task_at a) { next = (s.task_at a).next }) s.task_at }
unfolding unlink
unlink_own s a z p =
    let by_prev = λ (q : ℕ).
      (if q == 0 then s else record s {
        task_at = put q (record (s.task_at q) { next = (s.task_at a).next }) s.task_at;
      }) in
    let e : (a == 0) ≡ false = ground arith in ap by_prev p ∙ rw e refl

-- What is its own predecessor stays in the list.
removal_of_own_predecessor :
    (s : Tasks) (l : List ℕ) (a : ℕ)
    → a ≢ 0
    → a ≢ s.task_head
    → (s.task_at a).prev ≡ a
    → IsTaskList s l
    → IsTaskList (task_list_remove a s) l
unfolding task_list_remove move_ends
removal_of_own_predecessor s l a z h p t =
    let own = unlink_own s a z p in
    let u = unlink a s in
    let head : u.task_head ≡ s.task_head = ap (λ x. x.task_head) own in
    let tail : u.task_tail ≡ s.task_tail = ap (λ x. x.task_tail) own in
    let prev : (u.task_at a).prev ≡ a =
      ap (λ x. (x.task_at a).prev) own
      ∙ ap (λ x. x.prev) (put_here a (record (s.task_at a) { next = (s.task_at a).next }) s.task_at)
      ∙ p in
    let not_head : (a == u.task_head) ≡ false = ground (arith, head, h) in
    let same_tail : (move_ends a u).task_tail ≡ s.task_tail = elim (Bool-cases (a == u.task_tail)) [
      | inl e ↦ rw e (prev ∙ ground (arith, tail))
      | inr e ↦ rw e tail
    ] in
    same_list s (task_list_remove a s) l (rw not_head head) same_tail
      (λ x. ap (λ y. (y.task_at x).next) own ∙ same_next a x s.task_at) t

-- A task that `task_new` put behind others stays in the list when `task_list_remove` takes it out,
-- since it is its own predecessor: the list is the same as before.
pub removed_stays :
    (memory chunk : ℕ) (process : LoadedProcess) (s : Tasks) (l : List ℕ)
    → IsTaskList s l
    → 0 < length l
    → memory ≢ 0
    → chunk ≢ 0
    → ((k : ℕ) → k < length l → get_or l k 0 ≢ memory)
    → IsTaskList (task_list_remove memory (task_new memory chunk process s).1) (l ++ (memory ∷ []))
unfolding link
removed_stays memory chunk process s l t n z w f =
    let (r, t') = task_new-IsTaskList memory chunk process s l t z w f in
    let s1 = record s { task_at = put memory (task_init chunk process).1 s.task_at } in
    let made = task_new_runs memory chunk process s z w in
    let s' = (task_new memory chunk process s).1 in
    let same : s' ≡ link memory s1 = ap (λ x. x.1) made in
    let full : s.task_head ≢ 0 = λ q. t.not_null 0 n (sym t.head_is ∙ q) in
    let not_empty : (s.task_head == 0) ≡ false = ground arith in
    let head : s'.task_head ≡ s.task_head = ap (λ x. x.task_head) same ∙ rw not_empty refl in
    removal_of_own_predecessor s' (l ++ (memory ∷ [])) memory z
      (λ q. f 0 n (sym t.head_is ∙ sym (q ∙ head)))
      (ap (λ x. (x.task_at memory).prev) same ∙ link-prev memory s1 full) t'

-- Without a predecessor only the ends of the list change.
unlink_first : (s : Tasks) (a : ℕ) → (s.task_at a).prev ≡ 0 → unlink a s ≡ s
unfolding unlink
unlink_first s a p = let e : ((s.task_at a).prev == 0) ≡ true = ground arith in rw e refl

-- The list without its first task, in a state with the same `next` and with its ends.
rest_list :
    (s s' : Tasks) (a : ℕ) (l : List ℕ)
    → IsTaskList s (a ∷ l)
    → s'.task_head ≡ get_or l 0 0
    → s'.task_tail ≡ get_or l (length l - 1) 0
    → ((x : ℕ) → (s'.task_at x).next ≡ (s.task_at x).next)
    → IsTaskList s' l
rest_list s s' a l t h g n = record {
  head_is = h;
  tail_is = g;
  not_null = λ k b. t.not_null (suc k) (omega arith);
  next_is = λ k b.
      let e : suc k + 1 ≡ suc (k + 1) = omega arith in
      n (get_or l k 0) ∙ t.next_is (suc k) (omega arith) ∙ ap {A = ℕ} (λ i. get_or (a ∷ l) i 0) e;
  last_next = λ b.
      let e : suc (length l - 1) ≡ suc (length l) - 1 = omega arith in
      n (get_or l (length l - 1) 0)
      ∙ ap {A = ℕ} (λ i. (s.task_at (get_or (a ∷ l) i 0)).next) e
      ∙ t.last_next (omega arith);
  distinct = λ j k b c. t.distinct (suc j) (suc k) (omega arith) (omega arith);
}

first_next :
    (s : Tasks) (a : ℕ) (l : List ℕ) → IsTaskList s (a ∷ l) → (s.task_at a).next ≡ get_or l 0 0
first_next s a [] t = t.last_next (omega arith)
first_next s a (y ∷ l) t = t.next_is 0 (omega arith)

first_tail :
    (s : Tasks) (a : ℕ) (l : List ℕ)
    → IsTaskList s (a ∷ l)
    → (s.task_at a).prev ≡ 0
    → (if a == s.task_tail then (s.task_at a).prev else s.task_tail) ≡ get_or l (length l - 1) 0
first_tail s a [] t p = let e : (a == s.task_tail) ≡ true = ground (arith, t.tail_is) in rw e p
first_tail s a (y ∷ l) t p =
    let i : suc (suc (length l)) - 1 ≡ suc (suc (length l) - 1) = omega arith in
    let tail : s.task_tail ≡ get_or (y ∷ l) (suc (length l) - 1) 0 =
      t.tail_is ∙ ap {A = ℕ} (λ k. get_or (a ∷ y ∷ l) k 0) i in
    let apart = t.distinct 0 (suc (suc (length l) - 1)) (omega arith) (omega arith) in
    let e : (a == s.task_tail) ≡ false = ground (arith, apart, tail) in rw e tail

-- The first task is taken out as it should be: the others are left in their order.
pub removal_of_first :
    (s : Tasks) (a : ℕ) (l : List ℕ)
    → IsTaskList s (a ∷ l)
    → (s.task_at a).prev ≡ 0
    → IsTaskList (task_list_remove a s) l
unfolding task_list_remove move_ends
removal_of_first s a l t p =
    let u = unlink_first s a p in
    let e : (a == s.task_head) ≡ true = ground (arith, t.head_is) in
    let head : (move_ends a s).task_head ≡ get_or l 0 0 = rw e (first_next s a l t) in
    rest_list s (task_list_remove a s) a l t (ap (λ x. (move_ends a x).task_head) u ∙ head)
      (ap (λ x. (move_ends a x).task_tail) u ∙ first_tail s a l t p)
      (λ x. ap (λ y. (y.task_at x).next) u)
