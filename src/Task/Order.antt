-- ===== src/Task/Order.antt =====
-- src/task/task.c: the list that the tasks form by `next`.
use tmp_os.Base.{
  ℕ, zero, suc, ◌+◌, ◌-◌, ◌<◌, ◌≡◌, ◌≢◌, refl, sym, ◌∙◌, ap, ◌==◌, true, false, List, [], ◌∷◌, ◌++◌,
  arith, length, get_or, length-append, inl, inr, ◌⊎◌, dec_lt,
}
use tmp_os.Base.Int.{pos}
use tmp_os.Task.{Task, Tasks, LoadedProcess, put, task_new, task_init, link}

-- The addresses `l` of the tasks in their order, which none has twice.
pub record IsTaskList (s : Tasks) (l : List ℕ) : Type 0 where
  pub head_is : s.task_head ≡ get_or l 0 0
  pub tail_is : s.task_tail ≡ get_or l (length l - 1) 0
  pub not_null : (k : ℕ) → k < length l → get_or l k 0 ≢ 0
  pub next_is : (k : ℕ) → k + 1 < length l → (s.task_at (get_or l k 0)).next ≡ get_or l (k + 1) 0
  pub last_next : 0 < length l → (s.task_at (get_or l (length l - 1) 0)).next ≡ 0
  pub distinct : (j k : ℕ) → j < k → k < length l → get_or l j 0 ≢ get_or l k 0

get_or-append_left : (l r : List ℕ) (k : ℕ) → k < length l → get_or (l ++ r) k 0 ≡ get_or l k 0
get_or-append_left [] r k h = elim h [ ]
get_or-append_left (x ∷ l) r zero h = refl
get_or-append_left (x ∷ l) r (suc k) h = get_or-append_left l r k (omega arith)

pub get_or-append_last : (l : List ℕ) (a : ℕ) → get_or (l ++ (a ∷ [])) (length l) 0 ≡ a
get_or-append_last [] a = refl
get_or-append_last (x ∷ l) a = get_or-append_last l a

pub put_here : (a : ℕ) (t : Task) (m : ℕ → Task) → put a t m a ≡ t
put_here a t m = let e : (a == a) ≡ true = ground arith in rw e refl

put_other : (a x : ℕ) (t : Task) (m : ℕ → Task) → a ≢ x → put a t m x ≡ m x
put_other a x t m ne = let e : (a == x) ≡ false = ground arith in rw e refl

-- The memory that `link` leaves behind a list that is not empty.
abbrev linked : ℕ → ℕ → (ℕ → Task) → ℕ → Task
linked a tail m =
    let behind_tail = put tail (record (m tail) { next = a }) m in
    put a (record (behind_tail a) { prev = a }) behind_tail

module _ (a tail : ℕ) (m : ℕ → Task) (apart : a ≢ tail) where
  behind_tail : ℕ → Task
  behind_tail = put tail (record (m tail) { next = a }) m

  linked_new : (linked a tail m a).next ≡ (m a).next
  unfolding behind_tail
  linked_new =
      ap (λ t. t.next) (put_here a (record (behind_tail a) { prev = a }) behind_tail)
      ∙ ap (λ t. t.next) (put_other tail a (record (m tail) { next = a }) m (λ e. apart (sym e)))

  linked_tail : (linked a tail m tail).next ≡ a
  unfolding behind_tail
  linked_tail =
      ap (λ t. t.next)
        (put_other a tail (record (behind_tail a) { prev = a }) behind_tail apart
          ∙ put_here tail (record (m tail) { next = a }) m)

  linked_other : (x : ℕ) → a ≢ x → tail ≢ x → (linked a tail m x).next ≡ (m x).next
  unfolding behind_tail
  linked_other x p q =
      ap (λ t. t.next)
        (put_other a x (record (behind_tail a) { prev = a }) behind_tail p
          ∙ put_other tail x (record (m tail) { next = a }) m q)

-- An element of the longer list is one of the shorter, or the new one at the end.
longer :
    (l : List ℕ) (a k : ℕ)
    → k < length (l ++ (a ∷ []))
    → ((k < length l) × (get_or (l ++ (a ∷ [])) k 0 ≡ get_or l k 0))
      ⊎ ((k ≡ length l) × (get_or (l ++ (a ∷ [])) k 0 ≡ a))
longer l a k h = elim (dec_lt k (length l)) [
  | yes b ↦ inl (b, get_or-append_left l (a ∷ []) k b)
  | no b ↦
      let e : k ≡ length l = omega (arith, length-append l (a ∷ [])) in
      inr (e, ap (λ i. get_or (l ++ (a ∷ [])) i 0) e ∙ get_or-append_last l a)
]

module _ (s : Tasks) (l : List ℕ) (a : ℕ) (t : IsTaskList s l)
    (fresh : (k : ℕ) → k < length l → get_or l k 0 ≢ a) where
  longer_not_null : (k : ℕ) → a ≢ 0 → k < length (l ++ (a ∷ [])) → get_or (l ++ (a ∷ [])) k 0 ≢ 0
  longer_not_null k z h q = elim (longer l a k h) [
    | inl (b, e) ↦ t.not_null k b (sym e ∙ q)
    | inr (b, e) ↦ z (sym e ∙ q)
  ]

  longer_distinct :
      (j k : ℕ)
      → j < k
      → k < length (l ++ (a ∷ []))
      → get_or (l ++ (a ∷ [])) j 0 ≢ get_or (l ++ (a ∷ [])) k 0
  longer_distinct j k h g q = elim (longer l a k g) [
    | inl (b, e) ↦ t.distinct j k h b (sym (get_or-append_left l (a ∷ []) j (omega arith)) ∙ q ∙ e)
    | inr (b, e) ↦
        fresh j (omega arith) (sym (get_or-append_left l (a ∷ []) j (omega arith)) ∙ q ∙ e)
  ]

  longer_next :
      (n k : ℕ)
      → length l ≡ suc n
      → get_or l n 0 ≡ s.task_tail
      → k + 1 < length (l ++ (a ∷ []))
      → (linked a s.task_tail s.task_at (get_or (l ++ (a ∷ [])) k 0)).next
        ≡ get_or (l ++ (a ∷ [])) (k + 1) 0
  longer_next n k size tail h =
      let l' = l ++ (a ∷ []) in
      let apart : a ≢ s.task_tail = λ q. fresh n (omega (arith, size)) (tail ∙ sym q) in
      let next = λ (x : ℕ). (linked a s.task_tail s.task_at x).next in
      elim (longer l a (k + 1) h) [
        | inl (b, e) ↦
            let here = get_or-append_left l (a ∷ []) k (omega arith) in
            let not_tail : s.task_tail ≢ get_or l k 0 =
              λ q. t.distinct k n (omega (arith, size)) (omega (arith, size)) (sym (tail ∙ q)) in
            ap next here
            ∙ linked_other a s.task_tail s.task_at apart (get_or l k 0)
                (λ q. fresh k (omega arith) (sym q)) not_tail
            ∙ t.next_is k b
            ∙ sym e
        | inr (b, e) ↦
            let last : k ≡ n = omega (arith, size) in
            let here = get_or-append_left l (a ∷ []) k (omega (arith, size)) in
            ap next (here ∙ ap (λ i. get_or l i 0) last ∙ tail)
            ∙ linked_tail a s.task_tail s.task_at apart
            ∙ sym e
      ]

link-IsTaskList :
    (s : Tasks) (l : List ℕ) (a : ℕ)
    → IsTaskList s l
    → a ≢ 0
    → ((k : ℕ) → k < length l → get_or l k 0 ≢ a)
    → (s.task_at a).next ≡ 0
    → IsTaskList (link a s) (l ++ (a ∷ []))
unfolding link
link-IsTaskList s [] a t z f e =
    let empty : (s.task_head == 0) ≡ true = ground (arith, t.head_is) in
    rw empty (record {
      head_is = refl;
      tail_is = refl;
      not_null = not_null;
      next_is = λ k h. absurd (omega arith);
      last_next = λ h. e;
      distinct = λ j k h g. absurd (omega arith);
    })
  where
    not_null : (k : ℕ) → k < 1 → get_or (a ∷ []) k 0 ≢ 0
    not_null zero h = z
    not_null (suc k) h = absurd (omega arith)
link-IsTaskList s (x ∷ xs) a t z f e =
    let l = x ∷ xs in
    let l' = l ++ (a ∷ []) in
    let n = length xs in
    let size : length l' ≡ suc n + 1 = length-append l (a ∷ []) in
    let full : (s.task_head == 0) ≡ false = ground (arith, t.head_is, t.not_null 0 (omega arith)) in
    let last_index : n ≡ length l - 1 = omega arith in
    let tail_at : get_or l n 0 ≡ s.task_tail = ap (λ k. get_or l k 0) last_index ∙ sym t.tail_is in
    let apart : a ≢ s.task_tail = λ q. f n (omega arith) (tail_at ∙ sym q) in
    let new = get_or-append_last l a in
    let end : suc n ≡ length l' - 1 = omega (arith, size) in
    rw full (record {
      head_is = t.head_is;
      tail_is = sym new ∙ ap (λ k. get_or l' k 0) end;
      not_null = λ k h. longer_not_null s l a t f k z h;
      next_is = λ k h. longer_next s l a t f n k refl tail_at h;
      last_next = λ h.
          ap (λ k. (linked a s.task_tail s.task_at (get_or l' k 0)).next) (sym end)
          ∙ ap (λ y. (linked a s.task_tail s.task_at y).next) new
          ∙ linked_new a s.task_tail s.task_at apart
          ∙ e;
      distinct = λ j k h g. longer_distinct s l a t f j k h g;
    })

put-IsTaskList :
    (s : Tasks) (l : List ℕ) (a : ℕ) (new : Task)
    → IsTaskList s l
    → ((k : ℕ) → k < length l → get_or l k 0 ≢ a)
    → IsTaskList (record s { task_at = put a new s.task_at }) l
put-IsTaskList s l a new t f =
    let same = λ (k : ℕ) (h : k < length l).
      ap (λ x. x.next) (put_other a (get_or l k 0) new s.task_at (λ q. f k h (sym q))) in
    record {
      head_is = t.head_is;
      tail_is = t.tail_is;
      not_null = t.not_null;
      next_is = λ k h. same k (omega arith) ∙ t.next_is k h;
      last_next = λ h. same (length l - 1) (omega arith) ∙ t.last_next h;
      distinct = t.distinct;
    }

task_init_succeeds :
    (chunk : ℕ) (process : LoadedProcess) → chunk ≢ 0 → (task_init chunk process).0 ≡ pos 0
unfolding task_init
task_init_succeeds chunk process w = let b : (chunk == 0) ≡ false = ground arith in rw b refl

pub task_new_runs :
    (memory chunk : ℕ) (process : LoadedProcess) (s : Tasks)
    → memory ≢ 0
    → chunk ≢ 0
    → task_new memory chunk process s ≡ (
      pos memory,
      link memory (record s { task_at = put memory (task_init chunk process).1 s.task_at }),
    )
unfolding task_new
task_new_runs memory chunk process s z w =
    let a : (memory == 0) ≡ false = ground arith in
    rw (a, task_init_succeeds chunk process w, task_new) refl

-- `task_new` with memory that no task of the list has and with a page directory returns the new
-- task and puts it at the end of the list.
pub task_new-IsTaskList :
    (memory chunk : ℕ) (process : LoadedProcess) (s : Tasks) (l : List ℕ)
    → IsTaskList s l
    → memory ≢ 0
    → chunk ≢ 0
    → ((k : ℕ) → k < length l → get_or l k 0 ≢ memory)
    → ((task_new memory chunk process s).0 ≡ pos memory)
      × IsTaskList (task_new memory chunk process s).1 (l ++ (memory ∷ []))
unfolding task_init
task_new-IsTaskList memory chunk process s l t z w f =
    let b : (chunk == 0) ≡ false = ground arith in
    let new = (task_init chunk process).1 in
    let no_next : new.next ≡ 0 = rw b refl in
    let s' = record s { task_at = put memory new s.task_at } in
    let linked_list =
      link-IsTaskList s' l memory (put-IsTaskList s l memory new t f) z f
        (ap (λ x. x.next) (put_here memory new s.task_at) ∙ no_next) in
    rw (task_new_runs memory chunk process s z w) (refl, linked_list)

-- The mistake in `link`: a task behind another is its own predecessor.
pub link-prev : (a : ℕ) (s : Tasks) → s.task_head ≢ 0 → ((link a s).task_at a).prev ≡ a
unfolding link
link-prev a s h =
    let e : (s.task_head == 0) ≡ false = ground arith in
    let here : (a == a) ≡ true = ground arith in rw (e, here) refl
