-- ===== src/Base/Table.antt =====
-- A test of each number below a bound, for facts about bytes that evaluation settles.
use Prim.Native.Nat.{ℕ, zero, suc, ◌<◌}
use mathlib.Core.Path.{◌≡◌}
use mathlib.Core.Bool.{Bool, true, ◌&&◌}
use native.Mathlib.Omega.{arith}

module _ (test : ℕ → Bool) where
  unfoldable pub each_passes : ℕ → Bool
  each_passes zero = true
  each_passes (suc bound) = each_passes bound && test bound

  pub test-each_passes :
      (bound value : ℕ) → value < bound → each_passes bound ≡ true → test value ≡ true
  unfolding each_passes
  test-each_passes zero value below passes = absurd (omega arith)
  test-each_passes (suc bound) value below passes = ground (arith, test-each_passes bound value)
