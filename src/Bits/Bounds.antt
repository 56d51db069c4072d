-- ===== src/Bits/Bounds.antt =====
-- The operations stay within the width of their arguments.
use native.Mathlib.Nat.{pow-suc}
use blake.Base.{ℕ, zero, suc, ◌/◌, ◌^◌, ◌<◌, bit_or, bit_xor}
use blake.Base.{◌≡◌, arith}
use blake.Bits.Digit.{bit_or_digit, bit_xor_digit}

pub half-lt : (k a : ℕ) → a < 2 ^ suc k → a / 2 < 2 ^ k
half-lt k a h = omega (arith, pow-suc 2 k)

pub eq-zero_of_width : (a : ℕ) → a < 2 ^ 0 → a ≡ 0
eq-zero_of_width a h = omega arith

pub bit_or-lt : (k a b : ℕ) → a < 2 ^ k → b < 2 ^ k → bit_or a b < 2 ^ k
bit_or-lt zero a b p q = rw (eq-zero_of_width a p, eq-zero_of_width b q) (omega arith)
bit_or-lt (suc k) a b p q = omega (
  arith,
  bit_or_digit a b,
  pow-suc 2 k,
  bit_or-lt k (a / 2) (b / 2) (half-lt k a p) (half-lt k b q),
)

pub bit_xor-lt : (k a b : ℕ) → a < 2 ^ k → b < 2 ^ k → bit_xor a b < 2 ^ k
bit_xor-lt zero a b p q = rw (eq-zero_of_width a p, eq-zero_of_width b q) (omega arith)
bit_xor-lt (suc k) a b p q = omega (
  arith,
  bit_xor_digit a b,
  pow-suc 2 k,
  bit_xor-lt k (a / 2) (b / 2) (half-lt k a p) (half-lt k b q),
)
