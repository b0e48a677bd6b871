-- ===== src/Keyboard/Drivers.antt =====
-- src/keyboard/keyboard.c and PS2.c: the list of keyboards, and the start of the one there is.
use tmp_os.Base.{
  ℕ, ◌≡◌, ◌≢◌, ◌∙◌, ◌⊎◌, refl, sym, Option, none, some, List, [], ◌∷◌, ◌++◌, ◌==◌, if◌then◌else◌,
  arith, false, Bool-cases, inl, inr,
}
use tmp_os.Base.Int.{ℤ, pos}
use tmp_os.Base.Errno.{neg_einvarg}
use tmp_os.Idt.{idt_register_interrupt_callback}

-- A keyboard is an address, 0 for NULL; `next` reads its field.
pub record Drivers : Type 0 where
  pub next : ℕ → ℕ
  pub keyboard_list_head : ℕ
  pub keyboard_list_last : ℕ

abbrev pub set_next : ℕ → ℕ → (ℕ → ℕ) → ℕ → ℕ
set_next a v next x = if a == x then v else next x

unfoldable pub link_keyboard : ℕ → Drivers → Drivers
link_keyboard keyboard d =
    if d.keyboard_list_last == 0
    then record d { keyboard_list_head = keyboard; keyboard_list_last = keyboard }
    else record d {
      next = set_next d.keyboard_list_last keyboard d.next;
      keyboard_list_last = keyboard;
    }

module _ {S : Type 0} where
  -- `init` is the keyboard's field of this name, `none` for NULL; it changes the system's state `S`.
  unfoldable pub keyboard_insert : (ℕ → Option (S → ℤ × S)) → ℕ → Drivers → S → ℤ × Drivers × S
  unfolding link_keyboard
  keyboard_insert init keyboard d s =
      if keyboard == 0 then (neg_einvarg, d, s) else elim (init keyboard) [
        | none ↦ (neg_einvarg, d, s)
        | some start ↦ let (res, s') = start s in (res, link_keyboard keyboard d, s')
      ]

  -- With the address that `PS2_init` returns.
  unfoldable pub keyboard_init : (ℕ → Option (S → ℤ × S)) → ℕ → Drivers → S → Drivers × S
  unfolding keyboard_insert
  keyboard_init init ps2 d s = let (_, d', s') = keyboard_insert init ps2 d s in (d', s')

abbrev pub isr_keyboard_interrupt : ℕ
isr_keyboard_interrupt = 0x21

-- The table of callbacks, and the commands that were written to a port, as port and value.
pub record Ps2State (F : Type 0) : Type 0 where
  pub callbacks : List (Option F)
  pub written : List (ℕ × ℕ)

-- It registers the interrupt's handler and enables the first port.
unfoldable pub ps2_keyboard_init : {F : Type 0} → F → Ps2State F → ℤ × Ps2State F
ps2_keyboard_init handle_interrupt s = (
  pos 0,
  record {
    callbacks =
        (idt_register_interrupt_callback (pos isr_keyboard_interrupt) (some handle_interrupt)
          s.callbacks).1;
    written = (0x64, 0xAE) ∷ s.written;
  },
)

-- From a keyboard on to the last one, which has no next.
pub data Linked (next : ℕ → ℕ) (last : ℕ) : ℕ → List ℕ → Type 0 where
  end : {a : ℕ} → a ≡ last → a ≢ 0 → next a ≡ 0 → Linked next last a (a ∷ [])
  onto :
      {a b : ℕ} {l : List ℕ}
      → a ≢ 0
      → a ≢ last
      → next a ≡ b
      → Linked next last b l
      → Linked next last a (a ∷ l)

-- The keyboards in the list.
pub data IsDriverList (d : Drivers) : List ℕ → Type 0 where
  no_drivers : d.keyboard_list_head ≡ 0 → d.keyboard_list_last ≡ 0 → IsDriverList d []
  drivers :
      {l : List ℕ} → Linked d.next d.keyboard_list_last d.keyboard_list_head l → IsDriverList d l

abbrev pub NotIn : ℕ → List ℕ → Type 0
NotIn k [] = Unit
NotIn k (x ∷ l) = (x ≢ k) × NotIn k l

set_next_here : (a v x : ℕ) (next : ℕ → ℕ) → a ≡ x → set_next a v next x ≡ v
set_next_here a v x next e = ground arith

set_next_other : (a v x : ℕ) (next : ℕ → ℕ) → a ≢ x → set_next a v next x ≡ next x
set_next_other a v x next h = ground (arith, h)

Linked-append :
    (next : ℕ → ℕ) (k last : ℕ) {a : ℕ} {l : List ℕ}
    → k ≢ 0
    → next k ≡ 0
    → Linked next last a l
    → NotIn k l
    → Linked (set_next last k next) k a (l ++ (k ∷ []))
Linked-append next k last nz z (end {a} e n z') (ne, _) =
    onto n ne (set_next_here last k a next (sym e))
      (end refl nz (set_next_other last k k next (λ q. ne (e ∙ q)) ∙ z))
Linked-append next k last nz z (onto {a} n other e r) (ne, out) =
    onto n ne (set_next_other last k a next (λ q. other (sym q)) ∙ e)
      (Linked-append next k last nz z r out)

last_nonzero : (next : ℕ → ℕ) (last : ℕ) {a : ℕ} {l : List ℕ} → Linked next last a l → last ≢ 0
last_nonzero next last (end e n z) q = n (e ∙ q)
last_nonzero next last (onto n other e r) q = last_nonzero next last r q

link-IsDriverList :
    (d : Drivers) (k : ℕ) {l : List ℕ}
    → IsDriverList d l
    → k ≢ 0
    → d.next k ≡ 0
    → NotIn k l
    → IsDriverList (link_keyboard k d) (l ++ (k ∷ []))
unfolding link_keyboard
link-IsDriverList d k (no_drivers h e) nz z out = rw (e, link_keyboard) (drivers (end refl nz z))
link-IsDriverList d k (drivers r) nz z out =
    let e : (d.keyboard_list_last == 0) ≡ false =
      ground (arith, last_nonzero d.next d.keyboard_list_last r) in
    rw e (drivers (Linked-append d.next k d.keyboard_list_last nz z r out))

-- `keyboard_insert` puts a keyboard that can be started, and is not in the list, at its end, and
-- gives the result and the state of its start.
pub keyboard_insert-IsDriverList :
    {S : Type 0} (init : ℕ → Option (S → ℤ × S)) (start : S → ℤ × S) (d : Drivers) (s : S) (k : ℕ)
    (l : List ℕ)
    → IsDriverList d l
    → k ≢ 0
    → d.next k ≡ 0
    → NotIn k l
    → init k ≡ some start
    → let (res, d', s') = keyboard_insert init k d s in
      IsDriverList d' (l ++ (k ∷ [])) × ((res, s') ≡ start s)
unfolding keyboard_insert
keyboard_insert-IsDriverList init start d s k l list nz z out e =
    let nonzero : (k == 0) ≡ false = ground (arith, nz) in
    rw (nonzero, e, keyboard_insert) (link-IsDriverList d k list nz z out, refl)

-- A keyboard that is NULL or has no start is refused, and changes nothing.
pub keyboard_insert_refused :
    {S : Type 0} (init : ℕ → Option (S → ℤ × S)) (d : Drivers) (s : S) (k : ℕ)
    → (k ≡ 0) ⊎ (init k ≡ none)
    → keyboard_insert init k d s ≡ (neg_einvarg, d, s)
unfolding keyboard_insert
keyboard_insert_refused init d s k (inl e) = rw e refl
keyboard_insert_refused init d s k (inr e) = elim (Bool-cases (k == 0)) [
  | inl z ↦ rw z refl
  | inr z ↦ rw (z, e) refl
]
