-- ===== src/Idt/Table.antt =====
-- Which handler each entry of the interrupt descriptor table names.
use tmp_os.Base.{
  ℕ, ◌+◌, ◌-◌, ◌*◌, ◌^◌, ◌≤◌, ◌<◌, ◌≡◌, ◌∙◌, refl, ◌&&◌, some, List, [], ◌∷◌, ltb, leb, ◌==◌,
  if◌then◌else◌, length, get_elem?, get_or, get_or-cons, replicate, arith, length-set,
  get_elem?-set, length-replicate,
}
use tmp_os.Idt.{IdtDesc, desc_for, idt_set, set_all, idt_init, total_idescs, empty_desc}

-- The address that the processor jumps to.
unfoldable pub handler : IdtDesc → ℕ
handler d = d.offset_1 + d.offset_2 * 2 ^ 16

handler-desc_for : (address : ℕ) → handler (desc_for address) ≡ address
unfolding handler desc_for
handler-desc_for address = omega arith

selector_of : (a : ℕ) → (desc_for a).selector ≡ 0x08
unfolding desc_for
selector_of a = refl

type_attr_of : (a : ℕ) → (desc_for a).type_attr ≡ 0xEE
unfolding desc_for
type_attr_of a = refl

length-idt_set : (i a : ℕ) (d : List IdtDesc) → length (idt_set i a d) ≡ length d
unfolding idt_set
length-idt_set i a d = length-set d i (desc_for a)

get-idt_set :
    (i a : ℕ) (d : List IdtDesc) (j : ℕ)
    → i < length d
    → get_elem? (idt_set i a d) j ≡ (if i == j then some (desc_for a) else get_elem? d j)
unfolding idt_set
get-idt_set i a d j h = get_elem?-set d i j (desc_for a) h

length-set_all : (i : ℕ) (ps : List ℕ) (d : List IdtDesc) → length (set_all i ps d) ≡ length d
unfolding set_all
length-set_all i [] d = refl
length-set_all i (p ∷ ps) d = length-set_all (i + 1) ps (idt_set i p d) ∙ length-idt_set i p d

get-set_all :
    (i : ℕ) (ps : List ℕ) (d : List IdtDesc) (j : ℕ)
    → i + length ps ≤ length d
    → get_elem? (set_all i ps d) j ≡ (
        if leb i j && ltb j (i + length ps)
        then some (desc_for (get_or ps (j - i) 0))
        else get_elem? d j)
unfolding set_all
get-set_all i [] d j h = ground arith
get-set_all i (p ∷ ps) d j h = ground (
  arith,
  get-set_all (i + 1) ps (idt_set i p d) j,
  length-idt_set i p d,
  get-idt_set i p d j,
  get_or-cons p ps (j - i),
)

get_elem?-init :
    (ps : List ℕ) (z w : ℕ) (d : List IdtDesc) (i : ℕ)
    → length ps ≡ total_idescs
    → length d ≡ total_idescs
    → i < total_idescs
    → get_elem? (idt_set 0x80 w (idt_set 0 z (set_all 0 ps d))) i
      ≡ some (desc_for (if i == 0x80 then w else if i == 0 then z else get_or ps i 0))
get_elem?-init ps z w d i l m h = ground (
  arith,
  get-idt_set 0x80 w (idt_set 0 z (set_all 0 ps d)) i,
  get-idt_set 0 z (set_all 0 ps d) i,
  get-set_all 0 ps d i,
  length-idt_set 0 z (set_all 0 ps d),
  length-set_all 0 ps d,
)

-- After `idt_init` every entry is an interrupt gate of the kernel's code segment, and names the
-- pointer table's handler, but for entry 0 and entry 0x80, which name their own.
pub idt_init-handler :
    (pointers : List ℕ) (idt_zero wrapper i : ℕ)
    → length pointers ≡ total_idescs
    → i < total_idescs
    → (d : IdtDesc) × (get_elem? (idt_init pointers idt_zero wrapper) i ≡ some d)
      × (handler d
          ≡ (if i == 0x80 then wrapper else if i == 0 then idt_zero else get_or pointers i 0))
      × (d.selector ≡ 0x08)
      × (d.type_attr ≡ 0xEE)
unfolding idt_init
idt_init-handler ps z w i l h =
    let a = if i == 0x80 then w else if i == 0 then z else get_or ps i 0 in
    (
      desc_for a,
      get_elem?-init ps z w (replicate total_idescs empty_desc) i l
          (length-replicate total_idescs empty_desc) h,
      handler-desc_for a,
      selector_of a,
      type_attr_of a,
    )
