-- ===== src/Bits/Low.antt =====
-- The lowest digit by a mask.
use native.Mathlib.Nat.{pow-suc, one-le-pow}
use blake.Bits.Digit.{bit_and_digit, bit_or_digit}
use blake.Bits.Bounds.{half-lt, eq-zero_of_width}
use blake.Base.{
  ℕ, zero, suc, ◌+◌, ◌*◌, ◌/◌, ◌%◌, ◌≤◌, ◌<◌, ◌-◌, ◌^◌, ◌≡◌, ◌∙◌, bit_or, ap, arith, bit_and, min,
}

bit_and_zero_below : (n x : ℕ) → x ≤ n → bit_and x 0 ≡ 0
bit_and_zero_below zero x h = ap (λ y. bit_and y 0) {y = 0} (omega arith)
bit_and_zero_below (suc n) x h =
    let e : bit_and x 0 ≡ bit_and (x / 2) 0 * 2 + min (x % 2) 0 = bit_and_digit x 0 in
    omega (arith, e, bit_and_zero_below n (x / 2) (omega arith))

pub bit_and_zero : (x : ℕ) → bit_and x 0 ≡ 0
bit_and_zero x = bit_and_zero_below x x (omega arith)

pub bit_and_one : (x : ℕ) → bit_and x 1 ≡ x % 2
bit_and_one x =
    let e : bit_and x 1 ≡ bit_and (x / 2) 0 * 2 + min (x % 2) 1 = bit_and_digit x 1 in
    omega (arith, e, bit_and_zero (x / 2))

-- A mask of all ones keeps a number of that width.
pub bit_and_ones : (k x : ℕ) → x < 2 ^ k → bit_and x (2 ^ k - 1) ≡ x
bit_and_ones zero x h = bit_and_zero x ∙ omega arith
bit_and_ones (suc k) x h =
    let half : (2 ^ suc k - 1) / 2 ≡ 2 ^ k - 1 = omega (arith, pow-suc 2 k) in
    let odd : (2 ^ suc k - 1) % 2 ≡ 1 = omega (arith, pow-suc 2 k, one-le-pow k 2 (omega arith)) in
    omega (
      arith,
      bit_and_digit x (2 ^ suc k - 1),
      ap (bit_and (x / 2)) half,
      odd,
      bit_and_ones k (x / 2) (half-lt k x h),
    )

pub bit_or_zero : (k x : ℕ) → x < 2 ^ k → bit_or x 0 ≡ x
bit_or_zero zero x h = rw (eq-zero_of_width x h)
bit_or_zero (suc k) x h = omega (arith, bit_or_digit x 0, bit_or_zero k (x / 2) (half-lt k x h))
