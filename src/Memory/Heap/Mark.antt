-- ===== src/Memory/Heap/Mark.antt =====
-- What `mark_blocks_taken` writes.
use tmp_os.Base.{
  ℕ, zero, suc, ◌+◌, ◌-◌, ◌^◌, ◌≤◌, ◌<◌, ◌≡◌, ◌∙◌, refl, List, arith, ltb, leb, ◌==◌, if◌then◌else◌,
  ◌&&◌, length, get_or, set, length-set, get_or-set,
}
use tmp_os.Base.Int.{add32, sub32}
use tmp_os.Memory.Heap.{
  mark_loop, mark_blocks_taken, entry_taken, entry_taken_has_next, entry_taken_first,
}

length-mark_loop : (k i : ℕ) (es : List ℕ) → length (mark_loop k i es) ≡ length es
unfolding mark_loop
length-mark_loop zero i es = refl
length-mark_loop (suc k) i es =
    length-mark_loop k (i + 1) (set es i entry_taken_has_next)
    ∙ length-set es i entry_taken_has_next

get_or-mark_loop :
    (k i : ℕ) (es : List ℕ) (m : ℕ)
    → i + k ≤ length es
    → get_or (mark_loop k i es) m 0
      ≡ (if leb i m && ltb m (i + k) then entry_taken_has_next else get_or es m 0)
unfolding mark_loop
get_or-mark_loop zero i es m h = ground arith
get_or-mark_loop (suc k) i es m h = ground (
  arith,
  get_or-mark_loop k (i + 1) (set es i entry_taken_has_next) m,
  length-set es i entry_taken_has_next,
  get_or-set es i m entry_taken_has_next,
)

module _ (start n : ℕ) (es : List ℕ) where
  pub length-mark : length (mark_blocks_taken start n es) ≡ length es
  unfolding mark_blocks_taken
  length-mark =
      length-set (mark_loop (last - start) start (set es start entry_taken_first)) last entry_taken
      ∙ length-mark_loop (last - start) start (set es start entry_taken_first)
      ∙ length-set es start entry_taken_first
    where
      last : ℕ
      last = sub32 (add32 start n) 1

  -- Every block of the run is marked as taken, all but the last with the flag that the next one
  -- belongs to the same run; the mark of the first block is overwritten. Nothing else changes.
  pub get_or-mark :
      (m : ℕ)
      → 0 < n
      → start + n ≤ length es
      → length es < 2 ^ 32
      → get_or (mark_blocks_taken start n es) m 0 ≡ (
          if leb start m && ltb m (start + n)
          then (if m + 1 == start + n then entry_taken else entry_taken_has_next)
          else get_or es m 0)
  unfolding mark_blocks_taken
  get_or-mark m p q r = rw last_is (
      ground (
        arith,
        get_or-set (mark_loop (start + n - 1 - start) start marked) (start + n - 1) m entry_taken,
        length-mark_loop (start + n - 1 - start) start marked,
        length-set es start entry_taken_first,
        get_or-mark_loop (start + n - 1 - start) start marked m,
        get_or-set es start m entry_taken_first,
      ))
    where
      last_is : sub32 (add32 start n) 1 ≡ start + n - 1
      last_is = omega arith

      marked : List ℕ
      marked = set es start entry_taken_first
