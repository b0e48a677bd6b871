-- ===== src/Print/Digits.antt =====
-- Reading back the text of a number.
use native.Mathlib.Nat.{pow-zero, pow-suc, div-lt_iff_lt-mul, div-lt_self, div-add-mod'}
use tmp_os.Base.{
  ℕ, zero, suc, ◌+◌, ◌-◌, ◌*◌, ◌/◌, ◌%◌, ◌^◌, ◌≤◌, ◌<◌, ◌≡◌, ◌⊎◌, dec_lt, ◌∙◌, refl, ap, true,
  false, some, List, [], ◌∷◌, ◌++◌, ltb, ◌==◌, if◌then◌else◌, length, replicate, arith, Bool-cases,
  inl, inr, length-append, length-replicate,
}
use tmp_os.Base.Int.{ℤ}
use tmp_os.Print.{
  digit, count_digits, fill, itoau, itoa, itoa_least, fill_negative, makeaddr, magnitude,
}

-- The value of a digit character, and of a text in a base, with `v` read so far.
unfoldable pub digit_value : ℕ → ℕ
digit_value c = if ltb c 58 then c - b'0' else c - b'A' + 10

unfoldable pub value_from : ℕ → ℕ → List ℕ → ℕ
value_from base v [] = v
value_from base v (c ∷ s) = value_from base (v * base + digit_value c) s

digit_value-digit : (d : ℕ) → digit_value (digit d) ≡ d
unfolding digit digit_value
digit_value-digit d = ground arith

-- Writing the `k` last digits of a number of at most `k` digits in front of a text prefixes it by
-- that number.
value_from-fill :
    (k base copy : ℕ) (s : List ℕ)
    → 0 < base
    → copy < base ^ k
    → value_from base 0 (fill k base copy s) ≡ value_from base copy s
unfolding fill value_from
value_from-fill zero base copy s p l = ap (λ v. value_from base v s) (omega (arith, pow-zero base))
value_from-fill (suc k) base copy s p l =
    value_from-fill k base (copy / base) (digit (copy % base) ∷ s) p
      ((div-lt_iff_lt-mul p).1 (rw (← pow-suc base k) l))
    ∙ ap (λ v. value_from base v s)
        (ap (λ d. copy / base * base + d) (digit_value-digit (copy % base))
          ∙ div-add-mod' copy base)

length-fill : (k base copy : ℕ) (s : List ℕ) → length (fill k base copy s) ≡ k + length s
unfolding fill
length-fill zero base copy s = omega arith
length-fill (suc k) base copy s =
    length-fill k base (copy / base) (digit (copy % base) ∷ s) ∙ omega arith

more_digits :
    (k base copy : ℕ)
    → 0 < copy
    → 0 < base
    → ((j : ℕ) → copy / base < base ^ j → k ≤ j)
    → (j : ℕ) → copy < base ^ j
    → suc k ≤ j
more_digits k base copy p b low zero h = omega (arith, pow-zero base)
more_digits k base copy p b low (suc j) h =
    omega (arith, low j ((div-lt_iff_lt-mul b).1 (rw (← pow-suc base j) h)))

-- The count of digits is enough, and no larger than any other number of digits that is enough.
pub count_digits_lem :
    (f base copy size : ℕ)
    → 1 < base
    → copy < f
    → (k : ℕ) × (count_digits f base copy size ≡ some (size + k))
      × (copy < base ^ k)
      × ((j : ℕ) → copy < base ^ j → k ≤ j)
unfolding count_digits
count_digits_lem zero base copy size b l = absurd (omega arith)
count_digits_lem (suc f) base copy size b l = elim (Bool-cases (copy == 0)) [
  | inl e ↦
      let nil : copy ≡ 0 = ground arith in
      (0, rw e (ap some (omega arith)), omega (arith, pow-zero base), λ j h. omega arith)
  | inr e ↦
      let positive : 0 < copy = ground arith in
      let (k, r, up, low) =
        count_digits_lem f base (copy / base) (size + 1) b
          (omega (arith, div-lt_self {n = copy} {k = base} positive b)) in
      (
        suc k,
        rw (e, r) (ap some (omega arith)),
        rw (pow-suc base k) ((div-lt_iff_lt-mul (omega arith)).0 up),
        more_digits k base copy positive (omega arith) low,
      )
]

digits_pos : (k base num : ℕ) → 0 < num → num < base ^ k → 0 < k
digits_pos zero base num p h = omega (arith, pow-zero base)
digits_pos (suc k) base num p h = omega arith

itoau_minimal :
    (base num : ℕ)
    → 1 < base
    → base ≤ 32
    → (s : List ℕ) × (itoau true base num ≡ some s)
      × (value_from base 0 s ≡ num)
      × (0 < length s)
      × ((j : ℕ) → 0 < j → num < base ^ j → length s ≤ j)
unfolding itoau value_from digit_value
itoau_minimal base num b l = elim (Bool-cases (ltb 32 base)) [
  | inl e ↦ absurd (ground arith)
  | inr small ↦ elim (Bool-cases (num == 0)) [
    | inl e ↦ (b'0' ∷ [], rw (small, e), ground arith, omega arith, λ j p h. omega arith)
    | inr e ↦
        let (k, r, up, low) = count_digits_lem (num + 1) base num 0 b (omega arith) in
        (
          fill k base num [],
          rw (small, e, r) (ap (λ m. some (fill m base num [])) (omega arith)),
          value_from-fill k base num [] (omega arith) up,
          omega (arith, length-fill k base num [], digits_pos k base num (ground arith) up),
          λ j p h. omega (arith, length-fill k base num [], low j h),
        )
  ]
]

-- The text of a number in a base from 2 to 32 reads back as the number, and has no digit too many:
-- it is a single digit, or the number does not fit into one digit less.
pub itoau_value :
    (base num : ℕ)
    → 1 < base
    → base ≤ 32
    → (s : List ℕ) × (itoau true base num ≡ some s)
      × (value_from base 0 s ≡ num)
      × ((length s ≡ 1) ⊎ (base ^ (length s - 1) ≤ num))
itoau_value base num b l =
    let (s, e, v, p, low) = itoau_minimal base num b l in
    (
      s,
      e,
      v,
      elim (dec_lt 1 (length s)) [
        | no h ↦ inl (omega arith)
        | yes h ↦ elim (dec_lt num (base ^ (length s - 1))) [
          | yes q ↦ absurd (omega (arith, low (length s - 1) (omega arith) q))
          | no q ↦ inr (omega arith)
        ]
      ],
    )

-- The text of a signed number that is not the least `int` reads back as its magnitude: the sign is
-- not printed.
pub itoa_value :
    (base : ℕ) (num : ℤ)
    → 1 < base
    → base ≤ 32
    → magnitude num < 2 ^ 31
    → (s : List ℕ) × (itoa true base num ≡ some s) × (value_from base 0 s ≡ magnitude num)
unfolding itoa
itoa_value base num b l h =
    let small : ltb (magnitude num) (2 ^ 31) ≡ true = ground arith in
    let (s, e, v, _, _) = itoau_minimal base (magnitude num) b l in (s, rw (small, itoa) e, v)

-- Every number has a text, where there is memory for it.
pub itoa_total :
    (base : ℕ) (num : ℤ) → 1 < base → base ≤ 32 → (s : List ℕ) × (itoa true base num ≡ some s)
unfolding itoa itoa_least
itoa_total base num b l = elim (Bool-cases (ltb (magnitude num) (2 ^ 31))) [
  | inl e ↦ let (s, f, _, _, _) = itoau_minimal base (magnitude num) b l in (s, rw (e, itoa) f)
  | inr e ↦
      let (k, r, _, _) =
        count_digits_lem (magnitude num + 1) base (magnitude num) 0 b (omega arith) in
      let allowed : ltb 32 base ≡ false = ground arith in
      (fill_negative (0 + k) base (magnitude num) [], rw (e, allowed, r, itoa, itoa_least) refl)
]

value_from-zeros :
    (k base : ℕ) (s : List ℕ) → value_from base 0 (replicate k b'0' ++ s) ≡ value_from base 0 s
unfolding value_from digit_value
value_from-zeros zero base s = refl
value_from-zeros (suc k) base s =
    ap (λ v. value_from base v (replicate k b'0' ++ s)) (omega arith) ∙ value_from-zeros k base s

-- The address text of a 32-bit number: `0x` and exactly eight digits that read back as the number.
pub makeaddr-itoau :
    (num : ℕ)
    → num < 2 ^ 32
    → (s a : List ℕ) × (itoau true 16 num ≡ some s)
      × (makeaddr s ≡ some (b'0' ∷ b'x' ∷ a))
      × (length a ≡ 8)
      × (value_from 16 0 a ≡ num)
unfolding makeaddr
makeaddr-itoau num h =
    let (s, e, v, p, low) = itoau_minimal 16 num (omega arith) (omega arith) in
    let short : length s ≤ 8 = low 8 (omega arith) h in
    (
      s,
      replicate (8 - length s) b'0' ++ s,
      e,
      ground arith,
      omega (
        arith,
        length-append (replicate (8 - length s) b'0') s,
        length-replicate {A = ℕ} (8 - length s) b'0',
      ),
      value_from-zeros (8 - length s) 16 s ∙ v,
    )
