-- ===== src/Memory/Heap/Create.antt =====
-- `heap_create`: when it accepts a table, and the heap that it makes.
use tmp_os.Base.{
  ℕ, zero, suc, ◌/◌, ◌%◌, ◌^◌, ◌≤◌, ◌<◌, ◌≡◌, ◌↔◌, refl, List, arith, ◌++◌, length, get_or,
  length-append, length-replicate, length-drop, replicate, drop, dec_lt, get_or_outside,
}
use tmp_os.Base.Int.{pos, sub32}
use tmp_os.Memory.Heap.{Heap, HeapTable, heap_create, clear_entries, block_size, entry_free}
use tmp_os.Memory.Heap.Malloc.{IsValid}
use tmp_os.Memory.Heap.Free.{NextInside}

get_or-replicate : (n m v : ℕ) (rest : List ℕ) → m < n → get_or (replicate n v ++ rest) m 0 ≡ v
get_or-replicate zero m v rest h = elim h [ ]
get_or-replicate (suc n) zero v rest h = refl
get_or-replicate (suc n) (suc m) v rest h = get_or-replicate n m v rest (omega arith)

length-clear :
    (t : HeapTable) → t.total ≤ length t.entries → length (clear_entries t) ≡ length t.entries
unfolding clear_entries
length-clear t h = omega (
  arith,
  length-append (replicate t.total entry_free) (drop t.total t.entries),
  length-replicate t.total entry_free,
  length-drop t.total t.entries,
)

clear-free : (t : HeapTable) (m : ℕ) → m < t.total → get_or (clear_entries t) m 0 ≡ entry_free
unfolding clear_entries
clear-free t m h = get_or-replicate t.total m entry_free (drop t.total t.entries) h

-- `heap_create` succeeds exactly when both ends are aligned and the table has one entry for each
-- block between them.
pub heap_create_iff :
    (h : Heap) (ptr end : ℕ) (t : HeapTable)
    → ((heap_create h ptr end t).0 ≡ pos 0)
      ↔ ((ptr % block_size ≡ 0) × (end % block_size ≡ 0) × (t.total ≡ sub32 end ptr / block_size))
unfolding heap_create
heap_create_iff h ptr end t = (λ e. ground arith, λ e. ground arith)

created :
    (h : Heap) (ptr end : ℕ) (t : HeapTable)
    → (heap_create h ptr end t).0 ≡ pos 0
    → (heap_create h ptr end t).1
      ≡ record { table = record t { entries = clear_entries t }; saddr = ptr }
unfolding heap_create
created h ptr end t e = ground arith

all_free :
    (t : HeapTable) (m : ℕ) → length t.entries ≡ t.total → get_or (clear_entries t) m 0 ≡ entry_free
all_free t m len = elim (dec_lt m t.total) [
  | yes p ↦ clear-free t m p
  | no p ↦ get_or_outside (clear_entries t) m (omega (arith, length-clear t))
]

-- A heap that `heap_create` accepts over a table of the right length is valid, starts at `ptr`,
-- and all its blocks are free.
pub heap_create-IsValid :
    (h : Heap) (ptr end : ℕ) (t : HeapTable)
    → (heap_create h ptr end t).0 ≡ pos 0
    → length t.entries ≡ t.total
    → 0 < ptr
    → ptr ≤ end
    → end < 2 ^ 32
    → let h' = (heap_create h ptr end t).1 in
      IsValid h'
      × NextInside h'.table.entries
      × (h'.saddr ≡ ptr)
      × (h'.table.total ≡ t.total)
      × ((m : ℕ) → get_or h'.table.entries m 0 ≡ entry_free)
heap_create-IsValid h ptr end t e len a b c = rw (created h ptr end t e) (
  record {
    sized = omega (arith, length-clear t);
    nonzero = a;
    fits = omega (arith, (heap_create_iff h ptr end t).0 e);
  },
  λ m q. ground (arith, all_free t m len),
  refl,
  refl,
  λ m. all_free t m len,
)
