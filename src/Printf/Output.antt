-- ===== src/Printf/Output.antt =====
-- progs/stdlib/src/print.c against src/print/print.c.
use tmp_os.Base.{
  ℕ, ◌+◌, ◌≡◌, refl, ◌∙◌, ap, ◌==◌, true, ltb, ◌^◌, Option-cases, sym, ◌||◌, ◌%◌, if◌then◌else◌,
  Option, none, some, List, [], ◌∷◌, ◌++◌, length, Bool-cases, inl, inr, ◌⊎◌, arith,
}
use tmp_os.Base.Int.{ℤ, signed32}
use tmp_os.Terminal.{Terminal, terminal_writechar, print, red, black}
use tmp_os.Terminal.Bounds.{kwrite-print}
use tmp_os.Print.{
  Arg, word, text, Got, fault, got, count_digits, magnitude, address_of, printk, printk_loop,
}
use tmp_os.Print.{
  getarg as kernel_getarg, itoa as kernel_itoa, itoau as kernel_itoau,
  itoa_least as kernel_itoa_least, makeaddr as kernel_makeaddr,
}
use tmp_os.Printf.{
  printarg, printf, printf_loop, itoau, itoa, itoa_least, strdup_3, made, makeaddr, arg_word,
  arg_text, address_text, getarg,
}

same_itoau : (base num : ℕ) → itoau true base num ≡ some (kernel_itoau true base num)
unfolding itoau kernel_itoau strdup_3
same_itoau base num = elim (Bool-cases (ltb 32 base)) [
  | inl e ↦ rw e refl
  | inr e ↦ elim (Bool-cases (num == 0)) [
    | inl z ↦ rw (e, z) refl
    | inr z ↦ elim (Option-cases (count_digits (num + 1) base num 0)) [
      | inl c ↦ rw (e, z, c) refl
      | inr (n, c) ↦ rw (e, z, c) refl
    ]
  ]
]

same_least : (base num : ℕ) → itoa_least true base num ≡ some (kernel_itoa_least true base num)
unfolding itoa_least kernel_itoa_least
same_least base num = elim (Bool-cases (ltb 32 base)) [
  | inl e ↦ rw e refl
  | inr e ↦ elim (Option-cases (count_digits (num + 1) base num 0)) [
    | inl c ↦ rw (e, c) refl
    | inr (n, c) ↦ rw (e, c) refl
  ]
]

same_itoa : (base : ℕ) (num : ℤ) → itoa true base num ≡ some (kernel_itoa true base num)
unfolding itoa kernel_itoa
same_itoa base num = elim (Bool-cases (ltb (magnitude num) (2 ^ 31))) [
  | inl e ↦ rw e (same_itoau base (magnitude num))
  | inr e ↦ rw e (same_least base (magnitude num))
]

same_makeaddr : (s : List ℕ) → kernel_makeaddr s ≡ makeaddr s
unfolding kernel_makeaddr makeaddr
same_makeaddr s = refl

same_address : (w : ℕ) (args : List Arg) → address_of true w args ≡ made (address_text true w) args
unfolding address_of address_text made
same_address w args = elim (Option-cases (kernel_itoau true 16 w)) [
  | inl e ↦
      let u : itoau true 16 w ≡ some none = same_itoau 16 w ∙ ap some e in
      rw (e, u, address_of, address_text) refl
  | inr (s, e) ↦
      let u : itoau true 16 w ≡ some (some s) = same_itoau 16 w ∙ ap some e in
      elim (Option-cases (makeaddr s)) [
        | inl m ↦ rw (e, u, address_of, address_text) (rw (same_makeaddr s ∙ m, m) refl)
        | inr (a, m) ↦ rw (e, u, address_of, address_text) (rw (same_makeaddr s ∙ m, m) refl)
      ]
]

same_char :
    (s : List ℕ) (args : List Arg)
    → (made (strdup_3 true s) args ≡ fault) ⊎ (got (some s) args ≡ made (strdup_3 true s) args)
unfolding made strdup_3
same_char [] args = inl refl
same_char (c ∷ s) args = inr refl

-- The kernel's `getarg` gives the same, unless the user's writes through NULL.
same_getarg :
    (c : ℕ) (args : List Arg)
    → (getarg true c args ≡ fault) ⊎ (kernel_getarg true c args ≡ getarg true c args)
unfolding kernel_getarg getarg tmp_os.Print.with_word tmp_os.Print.with_text
    tmp_os.Print.with_address arg_word arg_text strdup_3 made
same_getarg c [] = inr refl
same_getarg c (text [] ∷ args) = elim (Bool-cases ((c == b'i') || (c == b'd'))) [
  | inl e ↦ inl (rw e refl)
  | inr e₁ ↦ elim (Bool-cases (c == b'%')) [
    | inl e ↦ inr (rw (e₁, e) refl)
    | inr e₂ ↦ elim (Bool-cases (c == b'X')) [
      | inl e ↦ inl (rw (e₁, e₂, e) refl)
      | inr e₃ ↦ elim (Bool-cases (c == b's')) [
        | inl e ↦ inl (rw (e₁, e₂, e₃, e) refl)
        | inr e ↦ inr (rw (e₁, e₂, e₃, e) refl)
      ]
    ]
  ]
]
same_getarg c (text (x ∷ s) ∷ args) = inr refl
same_getarg c (word w ∷ args) = elim (Bool-cases ((c == b'i') || (c == b'd'))) [
  | inl e ↦ inr (rw e (sym (ap (λ x. made x args) (same_itoa 10 (signed32 w)))))
  | inr e₁ ↦ elim (Bool-cases (c == b'%')) [
    | inl e ↦ inr (rw (e₁, e) refl)
    | inr e₂ ↦ elim (Bool-cases (c == b'X')) [
      | inl e ↦ inr (rw (e₁, e₂, e) (sym (ap (λ x. made x args) (same_itoa 16 (signed32 w)))))
      | inr e₃ ↦ elim (Bool-cases (c == b's')) [
        | inl e ↦ inl (rw (e₁, e₂, e₃, e) refl)
        | inr e₄ ↦ elim (Bool-cases (c == b'c')) [
          | inl e ↦
              rw (e₁, e₂, e₃, e₄, e) (same_char (if w % 256 == 0 then [] else (w % 256) ∷ []) args)
          | inr e₅ ↦ elim (Bool-cases (c == b'p')) [
            | inl e ↦ inr (rw (e₁, e₂, e₃, e₄, e₅, e) (same_address w args))
            | inr e ↦ inr (rw (e₁, e₂, e₃, e₄, e₅, e) refl)
          ]
        ]
      ]
    ]
  ]
]

-- The terminal after the text of a run of `printf`.
abbrev pub shown : Terminal → Option (ℕ × List ℕ) → Option (ℕ × Terminal)
shown t none = none
shown t (some (n, s)) = some (n, print s t)

abbrev prefixed : List ℕ → Option (ℕ × List ℕ) → Option (ℕ × List ℕ)
prefixed s none = none
prefixed s (some (n, s')) = some (n, s ++ s')

print-append : (s s' : List ℕ) (t : Terminal) → print s' (print s t) ≡ print (s ++ s') t
unfolding print
print-append [] s' t = refl
print-append (c ∷ s) s' t = print-append s s' (terminal_writechar c red black t)

shown-prefixed :
    (s : List ℕ) (t : Terminal) (o : Option (ℕ × List ℕ))
    → shown (print s t) o ≡ shown t (prefixed s o)
shown-prefixed s t none = refl
shown-prefixed s t (some (n, s')) = ap (λ x. some (n, x)) (print-append s s' t)

got_cases :
    (g : Got)
    → (g ≡ fault)
      ⊎ ((args : List Arg) × (g ≡ got none args))
      ⊎ ((s : List ℕ) × (args : List Arg) × (g ≡ got (some s) args))
got_cases fault = inl refl
got_cases (got none args) = inr (inl (args, refl))
got_cases (got (some s) args) = inr (inr (s, args, refl))

-- `printf` fails, or `printk` does what it does.
abbrev Follows : Terminal → Option (ℕ × Terminal) → Option (ℕ × List ℕ) → Type 0
Follows t k o = (o ≡ none) ⊎ (k ≡ shown t o)

prefixed-Follows :
    (s : List ℕ) (t : Terminal) (k : Option (ℕ × Terminal)) (o : Option (ℕ × List ℕ))
    → Follows (print s t) k o
    → Follows t k (prefixed s o)
prefixed-Follows s t k o (inl e) = inl (ap (prefixed s) e)
prefixed-Follows s t k o (inr e) = inr (e ∙ shown-prefixed s t o)

printk_loop-Follows :
    (form : List ℕ) (args : List Arg) (i : ℕ) (t : Terminal)
    → Follows t (printk_loop true form args i t) (printf_loop true form args i)
unfolding printk_loop printf_loop tmp_os.Print.printarg printarg print
printk_loop-Follows [] args i t = inl refl
printk_loop-Follows (c ∷ []) args i t = elim (Bool-cases (c == 0)) [
  | inl z ↦ inr (rw z refl)
  | inr z ↦ inl (rw z refl)
]
printk_loop-Follows (c ∷ d ∷ form) args i t = elim (Bool-cases (c == 0)) [
  | inl z ↦ inr (rw z refl)
  | inr z ↦ elim (Bool-cases (c == b'%')) [
    | inr p ↦
        rw (z, p)
          (prefixed-Follows (c ∷ []) t _ (printf_loop true (d ∷ form) args (i + 1))
            (printk_loop-Follows (d ∷ form) args (i + 1) (terminal_writechar c red black t)))
    | inl p ↦ elim (same_getarg d args) [
      | inl f ↦ inl (rw (z, p, f) refl)
      | inr same ↦ elim (got_cases (getarg true d args)) [
        | inl g ↦ rw (z, p, same ∙ g, g) (inl refl)
        | inr (inl (args', g)) ↦
            rw (z, p, same ∙ g, g)
              (prefixed-Follows [] t _ (printf_loop true form args' (i + 0))
                (printk_loop-Follows form args' (i + 0) t))
        | inr (inr (s, args', g)) ↦
            let e : 0 + length s ≡ length s = omega arith in
            rw (z, p, same ∙ g, g, kwrite-print s 0 t, e)
              (prefixed-Follows s t _ (printf_loop true form args' (i + length s))
                (printk_loop-Follows form args' (i + length s) (print s t)))
      ]
    ]
  ]
]

-- Where `printf` of a user program returns, given memory for its texts, `printk` of the kernel with
-- the same format and arguments, given memory too, returns the same count, and leaves the terminal
-- as the characters that `printf` writes would.
pub printk-shown :
    (form : List ℕ) (args : List Arg) (n : ℕ) (s : List ℕ) (t : Terminal)
    → printf true form args ≡ some (n, s)
    → printk true form args t ≡ some (n, print s t)
unfolding printk printf
printk-shown form args n s t h = elim (printk_loop-Follows form args 0 t) [
  | inl e ↦ let bad : ◌≡◌ {A = Option (ℕ × List ℕ)} none (some (n, s)) = sym e ∙ h in cc
  | inr e ↦ e ∙ ap (shown t) h
]
