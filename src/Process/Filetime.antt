-- ===== src/Process/Filetime.antt =====
-- filetimeToInt64FromBytes of internal/process/host_monitor.go and filetimeToInt64 of
-- resource_monitor.go: the 64 bits of a FILETIME, as the int64 that they become.
use elnssm.Common.{ℕ, ◌+◌, ◌*◌, ◌^◌, ◌<◌, ◌≡◌, ◌∙◌, ap, arith}
use elnssm.Common.Bits.{bit_or_disjoint, bit_or_comm}
use elnssm.Common.Words.{shl, shl_exact}
use Prim.Native.Nat.{bit_or}

-- [8]byte
pub record Bytes8 : Type 0 where
  pub b0 : ℕ
  pub b1 : ℕ
  pub b2 : ℕ
  pub b3 : ℕ
  pub b4 : ℕ
  pub b5 : ℕ
  pub b6 : ℕ
  pub b7 : ℕ

-- The uint32 of four bytes.
unfoldable pub uint32 : ℕ → ℕ → ℕ → ℕ → ℕ
unfolding shl
uint32 a b c d = bit_or (bit_or (bit_or a (shl 32 b 8)) (shl 32 c 16)) (shl 32 d 24)

-- int64(hi)<<32 | int64(lo)
unfoldable pub filetime_to_int64 : ℕ → ℕ → ℕ
unfolding shl
filetime_to_int64 hi lo = bit_or (shl 64 hi 32) lo

unfoldable pub filetime_to_int64_from_bytes : Bytes8 → ℕ
unfolding uint32 filetime_to_int64
filetime_to_int64_from_bytes ft =
    let lo = uint32 ft.b0 ft.b1 ft.b2 ft.b3 in
    let hi = uint32 ft.b4 ft.b5 ft.b6 ft.b7 in filetime_to_int64 hi lo

-- A value's place in a number of base 2^8.
abbrev pub little_endian : ℕ → ℕ → ℕ → ℕ → ℕ
little_endian a b c d = a + b * 2 ^ 8 + c * 2 ^ 16 + d * 2 ^ 24

shifted_or : (w k x y : ℕ) → x < 2 ^ k → y * 2 ^ k < 2 ^ w → bit_or x (shl w y k) ≡ x + y * 2 ^ k
shifted_or w k x y p q = ap (λ z. bit_or x z) (shl_exact w y k q) ∙ bit_or_disjoint k x y p

uint32_lem :
    (a b c d : ℕ) → a < 256 → b < 256 → c < 256 → d < 256 → uint32 a b c d ≡ little_endian a b c d
unfolding uint32
uint32_lem a b c d p q r s =
    let two = shifted_or 32 8 a b p (omega arith) in
    let three = shifted_or 32 16 (a + b * 2 ^ 8) c (omega arith) (omega arith) in
    rw (two, three) (shifted_or 32 24 (a + b * 2 ^ 8 + c * 2 ^ 16) d (omega arith) (omega arith))

pub filetime_to_int64_lem :
    (hi lo : ℕ) → hi < 2 ^ 32 → lo < 2 ^ 32 → filetime_to_int64 hi lo ≡ lo + hi * 2 ^ 32
unfolding filetime_to_int64
filetime_to_int64_lem hi lo p q =
    bit_or_comm (shl 64 hi 32) lo ∙ shifted_or 64 32 lo hi q (omega arith)

abbrev pub AreBytes : Bytes8 → Type 0
AreBytes ft =
    ((ft.b0 < 256) × (ft.b1 < 256) × (ft.b2 < 256) × (ft.b3 < 256))
    × ((ft.b4 < 256) × (ft.b5 < 256) × (ft.b6 < 256) × (ft.b7 < 256))

-- The number whose digits of base 256 the bytes are, the lowest first.
abbrev pub value : Bytes8 → ℕ
value ft = little_endian ft.b0 ft.b1 ft.b2 ft.b3 + little_endian ft.b4 ft.b5 ft.b6 ft.b7 * 2 ^ 32

-- The shifts and the `|` put the bytes together without loss.
pub filetime_to_int64_from_bytes-value :
    (ft : Bytes8) → AreBytes ft → filetime_to_int64_from_bytes ft ≡ value ft
unfolding filetime_to_int64_from_bytes
filetime_to_int64_from_bytes-value ft ((p, q, r, s), (t, u, v, w)) =
    rw (uint32_lem ft.b0 ft.b1 ft.b2 ft.b3 p q r s, uint32_lem ft.b4 ft.b5 ft.b6 ft.b7 t u v w)
      (filetime_to_int64_lem (little_endian ft.b4 ft.b5 ft.b6 ft.b7)
        (little_endian ft.b0 ft.b1 ft.b2 ft.b3) (omega arith) (omega arith))
