-- ===== src/Bits/Fields.antt =====
-- Shifts by whole fields, the or of disjoint fields, and equality through exclusive or.
use Prim.Native.Nat.{bit_or-bitwise}
use native.Mathlib.Nat.{pow-suc, pow-succ', div-one, div-div-eq-div-mul}
use blake.Base.{ℕ, zero, suc, ◌+◌, ◌*◌, ◌/◌, ◌^◌, ◌<◌, bit_or, bit_xor}
use blake.Base.{◌≡◌, ap, arith}
use blake.Bits.Digit.{bit_or_digit, bit_xor_digit}
use blake.Bits.Bounds.{half-lt, eq-zero_of_width}

pub zero-bit_or : (b : ℕ) → bit_or 0 b ≡ b
zero-bit_or b = bit_or-bitwise 0 b

field_suc : (k q : ℕ) → q * 2 ^ suc k ≡ 2 * (q * 2 ^ k)
field_suc k q = omega (arith, ap (λ (t : ℕ). q * t) (pow-suc 2 k))

-- `low | (high << k)` is a sum when `low` has at most `k` digits.
pub bit_or_low_high :
    (k low high : ℕ) → low < 2 ^ k → bit_or low (high * 2 ^ k) ≡ low + high * 2 ^ k
bit_or_low_high zero low high h =
    rw (eq-zero_of_width low h) (omega (arith, zero-bit_or (high * 2 ^ 0)))
bit_or_low_high (suc k) low high h = omega (
  arith,
  bit_or_digit low (high * 2 ^ suc k),
  field_suc k high,
  ap (λ (t : ℕ). bit_or (low / 2) t)
      (half_field (high * 2 ^ suc k) (high * 2 ^ k) (field_suc k high)),
  bit_or_low_high k (low / 2) high (half-lt k low h),
)
  where
    half_field : (x y : ℕ) → x ≡ 2 * y → x / 2 ≡ y
    half_field x y e = omega arith

-- Or-ing the same bits in a second time changes nothing.
pub bit_or_twice : (k a b : ℕ) → a < 2 ^ k → b < 2 ^ k → bit_or (bit_or a b) b ≡ bit_or a b
bit_or_twice zero a b p q = rw (eq-zero_of_width a p, eq-zero_of_width b q)
bit_or_twice (suc k) a b p q = omega (
  arith,
  bit_or_digit (bit_or a b) b,
  bit_or_digit a b,
  ap (λ (t : ℕ). bit_or t (b / 2)) (half_digit (bit_or a b) _ _ (bit_or_digit a b) (omega arith)),
  bit_or_twice k (a / 2) (b / 2) (half-lt k a p) (half-lt k b q),
)
  where
    half_digit : (x y d : ℕ) → x ≡ y * 2 + d → d < 2 → x / 2 ≡ y
    half_digit x y d e h = omega arith

pub div-two_pow-suc : (k x : ℕ) → x / 2 ^ suc k ≡ x / 2 / 2 ^ k
div-two_pow-suc k x = rw (div-div-eq-div-mul x 2 (2 ^ k), pow-succ' 2 k)

bit_xor-half : (a b : ℕ) → bit_xor a b / 2 ≡ bit_xor (a / 2) (b / 2)
bit_xor-half a b = omega (arith, bit_xor_digit a b)

bit_or-half : (a b : ℕ) → bit_or a b / 2 ≡ bit_or (a / 2) (b / 2)
bit_or-half a b = omega (arith, bit_or_digit a b)

-- The upper part of an exclusive or is that of the upper parts.
pub bit_xor-div : (k a b : ℕ) → bit_xor a b / 2 ^ k ≡ bit_xor (a / 2 ^ k) (b / 2 ^ k)
bit_xor-div zero a b = rw (div-one (bit_xor a b), div-one a, div-one b)
bit_xor-div (suc k) a b =
    rw (div-two_pow-suc k (bit_xor a b), div-two_pow-suc k a, div-two_pow-suc k b, bit_xor-half a b)
      (bit_xor-div k (a / 2) (b / 2))

pub bit_or-div : (k a b : ℕ) → bit_or a b / 2 ^ k ≡ bit_or (a / 2 ^ k) (b / 2 ^ k)
bit_or-div zero a b = rw (div-one (bit_or a b), div-one a, div-one b)
bit_or-div (suc k) a b =
    rw (div-two_pow-suc k (bit_or a b), div-two_pow-suc k a, div-two_pow-suc k b, bit_or-half a b)
      (bit_or-div k (a / 2) (b / 2))
