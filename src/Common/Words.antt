-- ===== src/Common/Words.antt =====
-- Go's fixed-width integers as numbers below their modulus. An int64 is its bit pattern, and `signed`
-- the integer that it stands for.
use Prim.Native.Nat.{ℕ, ◌+◌, ◌-◌, ◌*◌, ◌%◌, ◌^◌, ◌≤◌, ◌<◌}
use mathlib.Core.Path.{◌≡◌}
use native.Mathlib.Nat.{mod-eq_of_lt}
use native.Mathlib.Omega.{arith}
use elnssm.Common.Tests.{ltb, if◌then◌else◌}
use elnssm.Common.Int.{ℤ, pos, negsuc}

-- x << k on w bits.
unfoldable pub shl : ℕ → ℕ → ℕ → ℕ
shl w x k = x * 2 ^ k % 2 ^ w

unfoldable pub add64 : ℕ → ℕ → ℕ
add64 a b = (a + b) % 2 ^ 64

unfoldable pub sub64 : ℕ → ℕ → ℕ
sub64 a b = (a + 2 ^ 64 - b) % 2 ^ 64

abbrev pub signed : ℕ → ℤ
signed w = if ltb w (2 ^ 63) then pos w else negsuc (2 ^ 64 - w - 1)

pub add64_exact : (a b : ℕ) → a + b < 2 ^ 64 → add64 a b ≡ a + b
unfolding add64
add64_exact a b h = omega arith

pub sub64_exact : (a b : ℕ) → b ≤ a → a < 2 ^ 64 → sub64 a b ≡ a - b
unfolding sub64
sub64_exact a b h k = omega arith

pub shl_exact : (w x k : ℕ) → x * 2 ^ k < 2 ^ w → shl w x k ≡ x * 2 ^ k
unfolding shl
shl_exact w x k h = mod-eq_of_lt h
