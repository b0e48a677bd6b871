-- ===== src/Paging/Map.antt =====
-- src/memory/paging.c: what a lookup finds after a page or a range was mapped.
use Prim.Native.Nat.{bit_or}
use tmp_os.Base.{
  ℕ, zero, suc, ◌+◌, ◌-◌, ◌*◌, ◌/◌, ◌%◌, ◌^◌, ◌<◌, ◌≤◌, ◌≡◌, ◌≢◌, ◌∙◌, refl, sym, ap, ◌==◌, ltb,
  leb, ◌&&◌, true, false, if◌then◌else◌, arith, Bool-cases, inl, inr,
}
use tmp_os.Base.Int.{pos}
use tmp_os.Base.Errno.{neg_einvarg}
use tmp_os.Paging.{
  page_size, table_span, Words, write_word, paging_is_aligned, paging_align_to_lower_page,
  paging_get_indexes, address_only, entry_address, paging_set, paging_map, map_pages,
  paging_map_range, paging_map_to, paging_get, paging_get_physical_address,
}

-- The directory and its 1024 tables are different pages.
pub record IsDirectory (dir : ℕ) (mem : Words) : Type 0 where
  pub aligned : dir % page_size ≡ 0
  pub apart :
      (i j : ℕ)
      → i < 1024
      → j < 1024
      → i ≢ j
      → address_only (mem (dir + 4 * i)) ≢ address_only (mem (dir + 4 * j))
  pub tables : (i : ℕ) → i < 1024 → address_only (mem (dir + 4 * i)) ≢ dir

-- The word that maps an aligned address.
abbrev pub word_for : ℕ → ℕ → Words → ℕ
word_for dir virt mem = entry_address dir (virt / table_span) (virt % table_span / page_size) mem

word_for_ne :
    (dir a b : ℕ) (mem : Words)
    → IsDirectory dir mem
    → a < 2 ^ 32
    → b < 2 ^ 32
    → a % page_size ≡ 0
    → b % page_size ≡ 0
    → a ≢ b
    → word_for dir a mem ≢ word_for dir b mem
word_for_ne dir a b mem d x y p q ne e = elim (Bool-cases (a / table_span == b / table_span)) [
  | inl same ↦
      let k : a / table_span ≡ b / table_span = ground arith in
      let t : address_only (mem (dir + 4 * (a / table_span)))
          ≡ address_only (mem (dir + 4 * (b / table_span))) =
        ap (λ i. address_only (mem (dir + 4 * i))) k in
      ne (omega arith)
  | inr other ↦
      d.apart (a / table_span) (b / table_span) (omega arith) (omega arith) (ground arith)
        (omega arith)
]

directory_kept :
    (dir a i : ℕ) (mem : Words)
    → IsDirectory dir mem
    → a < 2 ^ 32
    → i < 1024
    → word_for dir a mem ≢ dir + 4 * i
directory_kept dir a i mem d x l e =
    d.tables (a / table_span) (omega arith) (omega (arith, d.aligned))

pub get_aligned :
    (dir a : ℕ) (mem : Words) → a % page_size ≡ 0 → paging_get dir a mem ≡ mem (word_for dir a mem)
unfolding paging_get paging_get_indexes
get_aligned dir a mem h = ground arith

pub set_aligned :
    (dir a v : ℕ) (mem : Words)
    → a % page_size ≡ 0
    → paging_set dir a v mem ≡ (pos 0, write_word (word_for dir a mem) v mem)
unfolding paging_set paging_get_indexes
set_aligned dir a v mem h = ground arith

write_directory :
    (dir a v i : ℕ) (mem : Words)
    → IsDirectory dir mem
    → a < 2 ^ 32
    → i < 1024
    → write_word (word_for dir a mem) v mem (dir + 4 * i) ≡ mem (dir + 4 * i)
unfolding write_word
write_directory dir a v i mem d x l = ground (arith, directory_kept dir a i mem d x l)

-- A write of an entry keeps the directory.
set-IsDirectory :
    (dir a v : ℕ) (mem : Words)
    → IsDirectory dir mem
    → a < 2 ^ 32
    → IsDirectory dir (write_word (word_for dir a mem) v mem)
set-IsDirectory dir a v mem d x = record {
  aligned = d.aligned;
  apart = λ i j l m ne.
      rw (write_directory dir a v i mem d x l, write_directory dir a v j mem d x m)
        (d.apart i j l m ne);
  tables = λ i l. rw (write_directory dir a v i mem d x l) (d.tables i l);
}

pub write_same : (a b v : ℕ) (mem : Words) → a ≡ b → write_word a v mem b ≡ v
unfolding write_word
write_same a b v mem e = ground arith

pub write_other : (a b v : ℕ) (mem : Words) → a ≢ b → write_word a v mem b ≡ mem b
unfolding write_word
write_other a b v mem e = ground arith

get-set :
    (dir a b v : ℕ) (mem : Words)
    → IsDirectory dir mem
    → a < 2 ^ 32
    → b < 2 ^ 32
    → a % page_size ≡ 0
    → b % page_size ≡ 0
    → paging_get dir b (write_word (word_for dir a mem) v mem)
      ≡ (if a == b then v else paging_get dir b mem)
get-set dir a b v mem d x y p q =
    let mem' = write_word (word_for dir a mem) v mem in
    let same : word_for dir b mem' ≡ word_for dir b mem =
      ap (λ e. address_only e + 4 * (b % table_span / page_size))
        (write_directory dir a v (b / table_span) mem d x (omega arith)) in
    get_aligned dir b mem' q ∙ ap mem' same ∙ elim (Bool-cases (a == b)) [
      | inl e ↦ rw e (
          write_same (word_for dir a mem) (word_for dir b mem) v mem
            (ap (λ i. word_for dir i mem) (ground arith)))
      | inr e ↦ rw e (
          write_other (word_for dir a mem) (word_for dir b mem) v mem
            (word_for_ne dir a b mem d x y p q (ground arith))
          ∙ sym (get_aligned dir b mem q))
    ]

pub map_aligned :
    (dir virt phys flags : ℕ) (mem : Words)
    → virt % page_size ≡ 0
    → phys % page_size ≡ 0
    → paging_map dir virt phys flags mem
      ≡ (pos 0, write_word (word_for dir virt mem) (bit_or phys flags) mem)
unfolding paging_map
map_aligned dir virt phys flags mem p q =
    rw (p, q, paging_map) (set_aligned dir virt (bit_or phys flags) mem p)

-- What a lookup of `b` finds behind the mapping of a range.
abbrev pub mapped : ℕ → ℕ → ℕ → ℕ → ℕ → ℕ → ℕ
mapped virt phys count flags b before =
    if leb virt b && ltb b (virt + count * page_size)
    then bit_or (phys + (b - virt)) flags
    else before

mapped_step :
    (virt phys count flags b before : ℕ)
    → virt % page_size ≡ 0
    → b % page_size ≡ 0
    → virt + suc count * page_size ≤ 2 ^ 32
    → phys + suc count * page_size ≤ 2 ^ 32
    → mapped
        ((virt + page_size) % 2 ^ 32)
        ((phys + page_size) % 2 ^ 32)
        count
        flags
        b
        (if virt == b then bit_or phys flags else before)
      ≡ mapped virt phys (suc count) flags b before
mapped_step virt phys count flags b before p q l m =
    let virt' = (virt + page_size) % 2 ^ 32 in
    let phys' = (phys + page_size) % 2 ^ 32 in
    elim (Bool-cases (leb virt' b && ltb b (virt' + count * page_size))) [
      | inl e ↦
          let at : phys' + (b - virt') ≡ phys + (b - virt) = ground arith in
          let e' : (leb virt b && ltb b (virt + suc count * page_size)) ≡ true = ground arith in
          rw (e, e', at) refl
      | inr e ↦ elim (Bool-cases (virt == b)) [
        | inl f ↦
            let at : phys + (b - virt) ≡ phys = ground arith in
            let e' : (leb virt b && ltb b (virt + suc count * page_size)) ≡ true = ground arith in
            rw (e, e', f, at) refl
        | inr f ↦
            let e' : (leb virt b && ltb b (virt + suc count * page_size)) ≡ false = ground arith in
            rw (e, e', f) refl
      ]
    ]

map_pages-get :
    (count dir virt phys flags b : ℕ) (mem : Words)
    → IsDirectory dir mem
    → virt % page_size ≡ 0
    → phys % page_size ≡ 0
    → virt + count * page_size ≤ 2 ^ 32
    → phys + count * page_size ≤ 2 ^ 32
    → b < 2 ^ 32
    → b % page_size ≡ 0
    → ((map_pages count (pos 0) dir virt phys flags mem).0 ≡ pos 0)
      × IsDirectory dir (map_pages count (pos 0) dir virt phys flags mem).1
      × (paging_get dir b (map_pages count (pos 0) dir virt phys flags mem).1
          ≡ mapped virt phys count flags b (paging_get dir b mem))
unfolding map_pages
map_pages-get zero dir virt phys flags b mem d p q l m y z = (refl, d, ground arith)
map_pages-get (suc count) dir virt phys flags b mem d p q l m y z =
    let mem' = write_word (word_for dir virt mem) (bit_or phys flags) mem in
    let x : virt < 2 ^ 32 = omega arith in
    let r =
      map_pages-get count dir ((virt + page_size) % 2 ^ 32) ((phys + page_size) % 2 ^ 32) flags b
        mem' (set-IsDirectory dir virt (bit_or phys flags) mem d x) (omega arith) (omega arith)
        (omega arith) (omega arith) y z in
    rw (map_aligned dir virt phys flags mem p q, map_pages)
      (
        r.0,
        r.1,
        r.2
            ∙ ap (mapped ((virt + page_size) % 2 ^ 32) ((phys + page_size) % 2 ^ 32) count flags b)
                (get-set dir virt b (bit_or phys flags) mem d x y p z)
            ∙ mapped_step virt phys count flags b (paging_get dir b mem) p z l m,
      )

-- Mapping a range of pages whose ends are aligned and inside the address space succeeds. A lookup
-- of a page in the range then finds its page of the target with the flags, and any other aligned
-- address is mapped as before.
pub map_to-get :
    (dir virt phys phys_end flags b : ℕ) (mem : Words)
    → IsDirectory dir mem
    → virt % page_size ≡ 0
    → phys % page_size ≡ 0
    → phys_end % page_size ≡ 0
    → phys ≤ phys_end
    → phys_end < 2 ^ 32
    → virt + (phys_end - phys) ≤ 2 ^ 32
    → b < 2 ^ 32
    → b % page_size ≡ 0
    → let r = paging_map_to dir virt phys phys_end flags mem in
      (r.0 ≡ pos 0)
      × IsDirectory dir r.1
      × (paging_get dir b r.1
          ≡ mapped virt phys ((phys_end - phys) / page_size) flags b (paging_get dir b mem))
unfolding paging_map_to paging_map_range
map_to-get dir virt phys phys_end flags b mem d p q s o e l y z =
    let ordered : ltb phys_end phys ≡ false = ground arith in
    rw (p, s, q, ordered, paging_map_to)
      (map_pages-get ((phys_end - phys) / page_size) dir virt phys flags b mem d p q (omega arith)
        (omega arith) y z)

-- A mapping that is refused changes nothing: an address or an end that is not aligned, or an end
-- before the start.
pub map_to_refused :
    (dir virt phys phys_end flags : ℕ) (mem : Words)
    → (paging_is_aligned virt
        && paging_is_aligned phys
        && paging_is_aligned phys_end
        && leb phys phys_end)
      ≡ false
    → paging_map_to dir virt phys phys_end flags mem ≡ (neg_einvarg, mem)
unfolding paging_map_to
map_to_refused dir virt phys phys_end flags mem h = ground arith

-- The physical address of an address that is not aligned is that of the page at address 0, without
-- an offset: the address is not brought down to its page.
pub physical_address_unaligned :
    (dir virt : ℕ) (mem : Words)
    → ¬ (virt % page_size ≡ 0)
    → mem (entry_address dir 0 0 mem) < 2 ^ 32
    → paging_get_physical_address dir virt mem ≡ paging_get_physical_address dir 0 mem
unfolding paging_get_physical_address paging_align_to_lower_page paging_get paging_get_indexes
physical_address_unaligned dir virt mem h w = ground arith
