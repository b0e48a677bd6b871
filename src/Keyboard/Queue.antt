-- ===== src/Keyboard/Queue.antt =====
-- The ring buffer as a queue of keys, oldest first.
use tmp_os.Base.{
  ℕ, suc, ◌+◌, ◌-◌, ◌%◌, ◌^◌, ◌≤◌, ◌<◌, ◌≡◌, ◌≢◌, ◌∙◌, refl, ap, List, [], ◌∷◌, ◌++◌, ◌==◌,
  if◌then◌else◌, length, get_or, set, length-set, get_or-set, get_or-snoc, get_or_outside,
  length-append, arith, Bool-cases, inl, inr,
}
use tmp_os.Keyboard.{KeyboardBuffer, keyboard_buffer_size, push, pop, keyboard_backspace}

-- The buffer holds the keys `q`, at most as many as it has cells, in order from `head` on, and
-- zeros elsewhere.
pub record Holds (k : KeyboardBuffer) (q : List ℕ) : Type 0 where
  pub sized : length k.buffer ≡ keyboard_buffer_size
  pub head_word : k.head < 2 ^ 32
  pub fits : length q ≤ keyboard_buffer_size
  pub tail_at : k.tail ≡ (k.head + length q) % 2 ^ 32
  pub cells :
      (i : ℕ)
      → i < keyboard_buffer_size
      → get_or k.buffer ((k.head + i) % keyboard_buffer_size) 0 ≡ get_or q i 0
  pub keys : (i : ℕ) → i < length q → get_or q i 0 ≢ 0

-- A key that finds room is queued behind the others.
pub push-Holds :
    (k : KeyboardBuffer) (q : List ℕ) (c : ℕ)
    → Holds k q
    → length q < keyboard_buffer_size
    → c ≢ 0
    → Holds (push c k) (q ++ (c ∷ []))
unfolding push
push-Holds k q c h room nz = record {
  sized = length-set k.buffer _ c ∙ h.sized;
  head_word = h.head_word;
  fits = omega (arith, length-append q (c ∷ []));
  tail_at = omega (arith, length-append q (c ∷ []), h.tail_at);
  cells = λ i l. ground (
    arith,
    get_or-set k.buffer (k.tail % keyboard_buffer_size) ((k.head + i) % keyboard_buffer_size) c,
    h.cells i,
    get_or-snoc q c i,
    h.tail_at,
    h.sized,
  );
  keys = λ i l. ground (arith, get_or-snoc q c i, h.keys i, length-append q (c ∷ []));
}

-- Taking a key gives the oldest one, or 0 when there is none.
pub pop-Holds :
    (k : KeyboardBuffer) (x : ℕ) (q : List ℕ)
    → Holds k (x ∷ q)
    → ((pop k).0 ≡ x) × Holds (pop k).1 q
unfolding pop
pop-Holds k x q h = elim (Bool-cases (get_or k.buffer (k.head % keyboard_buffer_size) 0 == 0)) [
  | inl e ↦ absurd (ground (arith, head_is, h.keys 0))
  | inr e ↦ rw e (
    head_is,
    record {
      sized = length-set k.buffer _ 0 ∙ h.sized;
      head_word = omega arith;
      fits = omega (arith, h.fits);
      tail_at = omega (arith, h.tail_at);
      cells = λ i l. next_cell i l;
      keys = λ i l. h.keys (suc i) (omega arith);
    },
  )
]
  where
    head_is : get_or k.buffer (k.head % keyboard_buffer_size) 0 ≡ x
    head_is = ground (arith, h.cells 0)

    next_cell :
        (i : ℕ)
        → i < keyboard_buffer_size
        → get_or
            (set k.buffer (k.head % keyboard_buffer_size) 0)
            (((k.head + 1) % 2 ^ 32 + i) % keyboard_buffer_size)
            0
          ≡ get_or q i 0
    next_cell i l =
        let step : ((k.head + 1) % 2 ^ 32 + i) % keyboard_buffer_size
            ≡ (k.head + suc i) % keyboard_buffer_size =
          omega arith in
        rw step (
          ground (
            arith,
            get_or-set k.buffer (k.head % keyboard_buffer_size)
                ((k.head + suc i) % keyboard_buffer_size) 0,
            h.cells (suc i),
            h.sized,
            h.fits,
            get_or_outside q i,
          ))

pub pop-Holds_nil : (k : KeyboardBuffer) → Holds k [] → pop k ≡ (0, k)
unfolding pop
pop-Holds_nil k h = ground (arith, h.cells 0)

-- Erasing drops the newest key.
pub backspace-Holds :
    (k : KeyboardBuffer) (q : List ℕ) (c : ℕ)
    → Holds k (q ++ (c ∷ []))
    → Holds (keyboard_backspace k) q
unfolding keyboard_backspace
backspace-Holds k q c h = record {
  sized = length-set k.buffer _ 0 ∙ h.sized;
  head_word = h.head_word;
  fits = omega (arith, length-append q (c ∷ []), h.fits);
  tail_at = omega (arith, length-append q (c ∷ []), h.tail_at);
  cells = λ i l. ground (
    arith,
    get_or-set k.buffer ((k.tail + (2 ^ 32 - 1)) % 2 ^ 32 % keyboard_buffer_size)
        ((k.head + i) % keyboard_buffer_size) 0,
    h.cells i,
    get_or-snoc q c i,
    get_or_outside q i,
    length-append q (c ∷ []),
    h.tail_at,
    h.sized,
    h.fits,
  );
  keys = λ i l. ground (arith, get_or-snoc q c i, h.keys i, length-append q (c ∷ []));
}

-- Erasing in an empty buffer moves the tail behind the head: the next key is not delivered.
pub backspace_empty_loses :
    (k : KeyboardBuffer) (c : ℕ) → Holds k [] → c ≢ 0 → (pop (push c (keyboard_backspace k))).0 ≡ 0
unfolding pop push keyboard_backspace
backspace_empty_loses k c h nz =
    let t = (k.tail + (2 ^ 32 - 1)) % 2 ^ 32 % keyboard_buffer_size in
    ground (
      arith,
      get_or-set (set k.buffer t 0) t (k.head % keyboard_buffer_size) c,
      get_or-set k.buffer t (k.head % keyboard_buffer_size) 0,
      length-set k.buffer t 0,
      h.cells 0,
      h.tail_at,
      h.sized,
    )

-- A key that comes when the buffer is full overwrites the oldest one and is delivered first.
pub push_full_jumps :
    (k : KeyboardBuffer) (q : List ℕ) (c : ℕ)
    → Holds k q
    → length q ≡ keyboard_buffer_size
    → c ≢ 0
    → (pop (push c k)).0 ≡ c
unfolding pop push
push_full_jumps k q c h full nz = ground (
  arith,
  get_or-set k.buffer (k.tail % keyboard_buffer_size) (k.head % keyboard_buffer_size) c,
  h.tail_at,
  h.sized,
)

pub data Op : Type 0 where
  put : ℕ → Op
  get : Op

-- The keys that a sequence of interrupts and reads delivers.
unfoldable pub run : KeyboardBuffer → List Op → List ℕ
run k [] = []
run k (put c ∷ ops) = run (if c == 0 then k else push c k) ops
run k (get ∷ ops) = let (c, k') = pop k in c ∷ run k' ops

-- The same for a queue that forgets nothing, where 0 stands for no key.
unfoldable pub run_queue : List ℕ → List Op → List ℕ
run_queue q [] = []
run_queue q (put c ∷ ops) = run_queue (if c == 0 then q else q ++ (c ∷ [])) ops
run_queue [] (get ∷ ops) = 0 ∷ run_queue [] ops
run_queue (x ∷ q) (get ∷ ops) = x ∷ run_queue q ops

-- The queue never has to hold more keys than the buffer has cells.
abbrev pub HasRoom : List ℕ → List Op → Type 0
HasRoom q [] = Unit
HasRoom q (put c ∷ ops) =
    (length q < keyboard_buffer_size) × HasRoom (if c == 0 then q else q ++ (c ∷ [])) ops
HasRoom [] (get ∷ ops) = HasRoom [] ops
HasRoom (x ∷ q) (get ∷ ops) = HasRoom q ops

-- Interrupts and reads in any order deliver what the queue delivers, as long as it has room.
pub run_refines :
    (ops : List Op) (k : KeyboardBuffer) (q : List ℕ)
    → Holds k q
    → HasRoom q ops
    → run k ops ≡ run_queue q ops
unfolding run run_queue
run_refines [] k q h r = refl
run_refines (put c ∷ ops) k q h r = elim (Bool-cases (c == 0)) [
  | inl e ↦ rw e (run_refines ops k q h (rw e at r.1))
  | inr e ↦ rw e (
      run_refines ops (push c k) (q ++ (c ∷ [])) (push-Holds k q c h r.0 (ground arith))
        (rw e at r.1))
]
run_refines (get ∷ ops) k [] h r =
    rw (pop-Holds_nil k h) (ap (λ l. 0 ∷ l) (run_refines ops k [] h r))
run_refines (get ∷ ops) k (x ∷ q) h r =
    let (e, h') = pop-Holds k x q h in rw e (ap (λ l. x ∷ l) (run_refines ops (pop k).1 q h' r))
