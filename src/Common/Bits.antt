-- ===== src/Common/Bits.antt =====
-- The `|` of Go on numbers whose ones do not overlap is their sum.
use Prim.Native.Nat.{
  ℕ, zero, suc, ◌+◌, ◌*◌, ◌/◌, ◌%◌, ◌^◌, ◌≤◌, ◌<◌, max, bit_or, digits, bit_or-bitwise,
}
use mathlib.Core.Path.{◌≡◌, refl, sym}
use native.Mathlib.Omega.{arith}

abbrev or_from : ℕ → ℕ → ℕ → ℕ
or_from fuel x y = digits (λ rest. rest) max fuel x y

-- Any count of digits that x does not exceed gives the same.
or_from_enough : (n m x y : ℕ) → x ≤ n → x ≤ m → or_from n x y ≡ or_from m x y
or_from_enough zero zero x y p q = refl
or_from_enough zero (suc m) zero y p q = refl
or_from_enough (suc n) zero zero y p q = refl
or_from_enough (suc n) (suc m) zero y p q = refl
or_from_enough zero m (suc x) y p q = absurd (omega arith)
or_from_enough (suc n) zero (suc x) y p q = absurd (omega arith)
or_from_enough (suc n) (suc m) (suc x) y p q =
    omega (arith, or_from_enough n m (suc x / 2) (y / 2) (omega arith) (omega arith))

zero-bit_or : (y : ℕ) → bit_or 0 y ≡ y
zero-bit_or y = bit_or-bitwise 0 y

bit_or_halves : (x y : ℕ) → bit_or x y ≡ bit_or (x / 2) (y / 2) * 2 + max (x % 2) (y % 2)
bit_or_halves zero y = omega (arith, zero-bit_or y, zero-bit_or (y / 2))
bit_or_halves (suc x) y = omega (
  arith,
  bit_or-bitwise (suc x) y,
  bit_or-bitwise (suc x / 2) (y / 2),
  or_from_enough x (suc x / 2) (suc x / 2) (y / 2) (omega arith) (omega arith),
)

twice : (y p : ℕ) {q : ℕ} → q ≡ p * 2 → y * q ≡ y * p * 2
twice y p h = rw h (grind arith)

pub bit_or_disjoint : (k x y : ℕ) → x < 2 ^ k → bit_or x (y * 2 ^ k) ≡ x + y * 2 ^ k
bit_or_disjoint zero zero y h = omega (arith, zero-bit_or (y * 2 ^ 0))
bit_or_disjoint zero (suc x) y h = absurd (omega arith)
bit_or_disjoint (suc k) x y h =
    let shifted : y * 2 ^ suc k ≡ y * 2 ^ k * 2 = twice y (2 ^ k) (omega arith) in
    let half : y * 2 ^ suc k / 2 ≡ y * 2 ^ k = omega (arith, shifted) in
    let halves : bit_or x (y * 2 ^ suc k) ≡ bit_or (x / 2) (y * 2 ^ k) * 2 + x % 2 =
      rw (sym half) (omega (arith, shifted, bit_or_halves x (y * 2 ^ suc k))) in
    omega (arith, shifted, halves, bit_or_disjoint k (x / 2) y (omega arith))

bit_or_swap : (n x y : ℕ) → x ≤ n → y ≤ n → bit_or x y ≡ bit_or y x
bit_or_swap zero zero zero p q = refl
bit_or_swap zero (suc x) y p q = absurd (omega arith)
bit_or_swap zero zero (suc y) p q = absurd (omega arith)
bit_or_swap (suc n) x y p q = omega (
  arith,
  bit_or_halves x y,
  bit_or_halves y x,
  bit_or_swap n (x / 2) (y / 2) (omega arith) (omega arith),
)

pub bit_or_comm : (x y : ℕ) → bit_or x y ≡ bit_or y x
bit_or_comm x y = bit_or_swap (x + y) x y (omega arith) (omega arith)
