-- ===== src/Base/Bits.antt =====
-- `|` on a number that has its upper and its lower bits apart.
use Prim.Native.Nat.{bit_or, bit_or-bitwise, digits, max}
use Prim.Native.Nat.{ℕ, zero, suc, ◌+◌, ◌-◌, ◌*◌, ◌/◌, ◌%◌, ◌^◌, ◌≤◌, ◌<◌}
use mathlib.Core.Path.{◌≡◌, refl, ap, ◌∙◌}
use native.Mathlib.Nat.{pow-suc}
use native.Mathlib.Omega.{arith}

-- The digits do not depend on the fuel that they are given.
or_digits_fuel :
    (f g a b : ℕ) → a ≤ f → a ≤ g → digits (λ y. y) max f a b ≡ digits (λ y. y) max g a b
or_digits_fuel zero zero a b p q = refl
or_digits_fuel zero (suc g) zero b p q = refl
or_digits_fuel zero (suc g) (suc a) b p q = absurd (omega arith)
or_digits_fuel (suc f) zero zero b p q = refl
or_digits_fuel (suc f) zero (suc a) b p q = absurd (omega arith)
or_digits_fuel (suc f) (suc g) zero b p q = refl
or_digits_fuel (suc f) (suc g) (suc a) b p q =
    rw (or_digits_fuel f g (suc a / 2) (b / 2) (omega arith) (omega arith))

pub zero-bit_or : (b : ℕ) → bit_or 0 b ≡ b
zero-bit_or b = bit_or-bitwise 0 b

lowest_digit : (a b : ℕ) → bit_or a b ≡ bit_or (a / 2) (b / 2) * 2 + max (a % 2) (b % 2)
lowest_digit zero b = omega (arith, zero-bit_or b, zero-bit_or (b / 2))
lowest_digit (suc a) b = omega (
  arith,
  bit_or-bitwise (suc a) b,
  bit_or-bitwise (suc a / 2) (b / 2),
  or_digits_fuel a (suc a / 2) (suc a / 2) (b / 2) (omega arith) (omega arith),
)

or_zero_below : (f a : ℕ) → a ≤ f → bit_or a 0 ≡ a
or_zero_below f zero h = zero-bit_or 0
or_zero_below zero (suc a) h = absurd (omega arith)
or_zero_below (suc f) (suc a) h =
    omega (arith, lowest_digit (suc a) 0, or_zero_below f (suc a / 2) (omega arith))

or_zero : (a : ℕ) → bit_or a 0 ≡ a
or_zero a = or_zero_below a a (omega arith)

-- Bits from `2 ^ k` on are not met by numbers below it.
pub bit_or_apart :
    (k q a b : ℕ)
    → a < 2 ^ k
    → b < 2 ^ k
    → (bit_or (q * 2 ^ k + a) b ≡ q * 2 ^ k + bit_or a b) × (bit_or a b < 2 ^ k)
bit_or_apart zero q zero zero h l = (ground (arith, or_zero q), ground (arith, or_zero 0))
bit_or_apart zero q (suc a) b h l = absurd (omega arith)
bit_or_apart zero q zero (suc b) h l = absurd (omega arith)
bit_or_apart (suc k) q a b h l =
    let t : q * 2 ^ suc k ≡ 2 * (q * 2 ^ k) = omega (arith, ap (λ (t : ℕ). q * t) (pow-suc 2 k)) in
    let r =
      bit_or_apart k q (a / 2) (b / 2) (omega (arith, pow-suc 2 k)) (omega (arith, pow-suc 2 k)) in
    let half : (q * 2 ^ suc k + a) / 2 ≡ q * 2 ^ k + a / 2 = omega arith in
    let digit : (q * 2 ^ suc k + a) % 2 ≡ a % 2 = omega arith in
    (
      lowest_digit (q * 2 ^ suc k + a) b ∙ rw (half, digit, r.0) (omega (arith, lowest_digit a b)),
      omega (arith, lowest_digit a b, r.1, pow-suc 2 k),
    )

-- The address of a page and flags that fit below it.
pub bit_or_page :
    (address flags : ℕ) → address % 4096 ≡ 0 → flags < 4096 → bit_or address flags ≡ address + flags
bit_or_page address flags h l =
    let e : address ≡ address / 4096 * 2 ^ 12 + 0 = omega arith in
    ap (λ n. bit_or n flags) e
    ∙ (bit_or_apart 12 (address / 4096) 0 flags (omega arith) l).0
    ∙ omega (arith, zero-bit_or flags)

-- A further flag is still below the address.
pub bit_or_flags :
    (address flags flag : ℕ)
    → address % 4096 ≡ 0
    → flags < 4096
    → flag < 4096
    → let entry = bit_or (bit_or address flags) flag in entry - entry % 4096 ≡ address
bit_or_flags address flags flag h l m =
    let e : bit_or address flags ≡ address / 4096 * 2 ^ 12 + flags =
      omega (arith, bit_or_page address flags h l) in
    let r = bit_or_apart 12 (address / 4096) flags flag l m in rw (e, r.0) (omega (arith, r.1))
