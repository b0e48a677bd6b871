-- ===== src/Readline/Editing.antt =====
-- progs/stdlib/src/os.c: the buffer holds the line that is typed.
use tmp_os.Base.{
  ℕ, zero, suc, ◌+◌, ◌-◌, ◌<◌, ◌≤◌, ◌≡◌, ◌∙◌, refl, sym, ap, inl, inr, ◌==◌, Bool, true, false,
  ◌&&◌, Option, some, List, [], ◌∷◌, ◌++◌, ltb, leb, if◌then◌else◌, length, set, take, drop, arith,
  Bool-cases, length-set, Option-cases, length-append, length-take,
}
use tmp_os.Readline.{Reading, returned, getkey_block, show, store, readline_loop, terminal_readline}
use tmp_os.Readline.Typed.{
  reads_none, reads_line, Reads, Typed, drop-set, length-getkey, shows, take-set, take-take,
  take-suc-set, type_key, typed, typed-getkey, typed_full,
}

shown_nothing : (echo : Bool) → ◌≡◌ {A = List ℕ} (if echo then [] else []) []
shown_nothing true = refl
shown_nothing false = refl

show-Reads :
    (max key : ℕ) (echo : Bool) (out out' : List ℕ) (t : Option Typed) (r : Reading)
    → Reads max echo out' t r
    → length out' ≡ length out
    → drop max out' ≡ drop max out
    → Reads max echo out (shows key t) (show echo key r)
show-Reads max key true out out' t r (reads_none p q) l d = reads_none (rw p refl) (rw q refl)
show-Reads max key false out out' t r (reads_none p q) l d = reads_none (rw p refl) (rw q refl)
show-Reads max key true out out' t r (reads_line o line shown keys p q a b c e) l d =
    reads_line o line (key ∷ shown) keys (rw p refl) (rw q refl) a b (c ∙ l) (e ∙ d)
show-Reads max key false out out' t r (reads_line o line shown keys p q a b c e) l d =
    reads_line o line (key ∷ shown) keys (rw p refl) (rw q refl) a b (c ∙ l) (e ∙ d)

-- The loop where the buffer starts with the line so far.
record Holds (max i : ℕ) (line out : List ℕ) : Type 0 where
  at : length line ≡ i
  same : take i out ≡ line
  below : i < max
  room : max ≤ length out

store-eq :
    (out : List ℕ) (i c : ℕ) (next : List ℕ → Reading)
    → i < length out
    → store out i c next ≡ next (set out i c)
store-eq out i c next h = let e : ltb i (length out) ≡ true = ground arith in rw e refl

finish :
    (max i : ℕ) (echo : Bool) (line out keys : List ℕ)
    → Holds max i line out
    → Reads max echo out
        (some (record { line = line; shown = []; keys = keys }))
        (store out i 0 (λ out'. returned out' [] keys))
finish max i echo line out keys h =
    let inside : i < length out = omega (arith, h.below, h.room) in
    reads_line (set out i 0) line [] keys refl
      (store-eq out i 0 (λ out'. returned out' [] keys) inside
        ∙ ap (λ l. returned (set out i 0) l keys) (sym (shown_nothing echo)))
      (omega (arith, h.at, h.below))
      (let e : length line + 1 ≡ suc i = omega (arith, h.at) in
        rw e (take-suc-set out i 0 inside ∙ ap (λ l. l ++ (0 ∷ [])) h.same))
      (length-set out i 0) (drop-set out i max 0 h.below)

back-Holds :
    (max i : ℕ) (line out : List ℕ)
    → Holds max i line out
    → 0 < i
    → Holds max (i - 1) (take (length line - 1) line) (set out (i - 1) 0)
back-Holds max i line out h p =
    let shorter : length line - 1 ≡ i - 1 = omega (arith, h.at) in
    record {
      at = omega (arith, length-take (length line - 1) line, h.at);
      same =
          take-set out (i - 1) 0
          ∙ rw (shorter, ← h.same) (sym (take-take out (i - 1) i (omega arith)));
      below = omega (arith, h.below);
      room = omega (arith, h.room, length-set out (i - 1) 0);
    }

next-Holds :
    (max i key : ℕ) (line out : List ℕ)
    → Holds max i line out
    → i + 1 < max
    → Holds max (i + 1) (line ++ (key ∷ [])) (set out i key)
next-Holds max i key line out h p =
    let inside : i < length out = omega (arith, h.below, h.room) in
    record {
      at = omega (arith, length-append {0} line (key ∷ []), h.at);
      same =
          let e : i + 1 ≡ suc i = omega arith in
          rw e (take-suc-set out i key inside ∙ ap (λ l. l ++ (key ∷ [])) h.same);
      below = p;
      room = omega (arith, h.room, length-set out i key);
    }

-- A key is put into the buffer or takes the last character out of it.
key-Reads :
    (f key max i : ℕ) (keys : List ℕ) (echo : Bool) (line out : List ℕ)
    → ((keys line out : List ℕ) (i : ℕ)
        → length keys < f
        → Holds max i line out
        → Reads max echo out (typed max line keys) (readline_loop f keys max echo i out))
    → length keys < f
    → Holds max i line out
    → i + 1 < max
    → let back = store out (i - 1) 0 (readline_loop f keys max echo (i - 1)) in
      let next = store out i key (readline_loop f keys max echo (i + 1)) in
      Reads max echo out
        (shows key (typed max (type_key line key) keys))
        (show echo key (if (key == 8) && leb 1 i then back else next))
key-Reads f key max i keys echo line out ih l h p = elim (Bool-cases ((key == 8) && leb 1 i)) [
  | inl e ↦
      let e' : ((key == 8) && leb 1 (length line)) ≡ true = rw h.at e in
      let g = back-Holds max i line out h (ground arith) in
      rw
        (
          e,
          e',
          store-eq out (i - 1) 0 (readline_loop f keys max echo (i - 1))
              (omega (arith, h.below, h.room)),
        )
        (show-Reads max key echo out (set out (i - 1) 0)
          (typed max (take (length line - 1) line) keys)
          (readline_loop f keys max echo (i - 1) (set out (i - 1) 0))
          (ih keys (take (length line - 1) line) (set out (i - 1) 0) (i - 1) l g)
          (length-set out (i - 1) 0) (drop-set out (i - 1) max 0 (omega (arith, h.below))))
  | inr e ↦
      let e' : ((key == 8) && leb 1 (length line)) ≡ false = rw h.at e in
      let g = next-Holds max i key line out h p in
      rw
        (
          e,
          e',
          store-eq out i key (readline_loop f keys max echo (i + 1))
              (omega (arith, h.below, h.room)),
        )
        (show-Reads max key echo out (set out i key) (typed max (line ++ (key ∷ [])) keys)
          (readline_loop f keys max echo (i + 1) (set out i key))
          (ih keys (line ++ (key ∷ [])) (set out i key) (i + 1) l g) (length-set out i key)
          (drop-set out i max key h.below))
]

loop-Reads :
    (f : ℕ) (max : ℕ) (echo : Bool) (keys line out : List ℕ) (i : ℕ)
    → length keys < f
    → Holds max i line out
    → Reads max echo out (typed max line keys) (readline_loop f keys max echo i out)
unfolding readline_loop
loop-Reads zero max echo keys line out i l h = absurd (omega arith)
loop-Reads (suc f) max echo keys line out i l h = elim (Bool-cases (ltb i (max - 1))) [
  | inr full ↦
      rw (full, typed_full max line keys (rw h.at full)) (finish max i echo line out keys h)
  | inl more ↦
      let room : length line < max - 1 = ground (arith, h.at) in
      elim (Option-cases (getkey_block keys)) [
        | inl e ↦ rw (more, typed-getkey max line keys room, e) (reads_none refl refl)
        | inr ((key, keys'), e) ↦ elim (Bool-cases (key == 13)) [
          | inl k ↦
              rw (more, typed-getkey max line keys room, e, k) (finish max i echo line out keys' h)
          | inr k ↦
              rw (more, typed-getkey max line keys room, e, k)
                (key-Reads f key max i keys' echo line out
                  (λ keys line out i. loop-Reads f max echo keys line out i)
                  (omega (arith, length-getkey keys keys' key e)) h (ground arith))
        ]
      ]
]

-- `terminal_readline` into a buffer of `max` bytes, at least one, waits for a further key exactly
-- if the line that the keys edit is not finished; otherwise it leaves this line at the start of the
-- buffer with a 0 behind it, in less than `max` bytes and with the bytes behind these as they were,
-- shows the characters that were typed if it is asked to, and leaves the keys behind the line.
pub readline-Reads :
    (max : ℕ) (echo : Bool) (keys out : List ℕ)
    → 0 < max
    → max ≤ length out
    → Reads max echo out (typed max [] keys) (terminal_readline keys out max echo)
unfolding terminal_readline
readline-Reads max echo keys out p l =
    loop-Reads (length keys + 1) max echo keys [] out 0 (omega arith)
      (record { at = refl; same = refl; below = p; room = l })
