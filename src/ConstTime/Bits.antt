-- ===== src/ConstTime/Bits.antt =====
-- Single bits, and what folding a word in halves leaves of them.
use native.Mathlib.Nat.{div-one}
use native.Mathlib.Decide.{dec_lt}
use blake.Base.{ℕ, zero, suc, ◌+◌, ◌-◌, ◌/◌, ◌%◌, ◌^◌, ◌<◌, ◌≡◌, sym, ap, ◌∙◌, arith}
use blake.Base.{bit_or, bit_xor}
use blake.Bits.Digit.{bit_or_digit, bit_xor_digit}
use blake.Bits.Fields.{bit_or-div, div-two_pow-suc}
use blake.Bits.Bounds.{half-lt, eq-zero_of_width}
use blake.Word.{shr}
use blake.ConstTime.{fold_down}

abbrev pub bit_at : ℕ → ℕ → ℕ
bit_at x i = x / 2 ^ i % 2

bit_at-bit_or : (a b i : ℕ) → bit_at (bit_or a b) i ≡ 0 → (bit_at a i ≡ 0) × (bit_at b i ≡ 0)
bit_at-bit_or a b i e =
    let split = bit_or-div i a b in
    let digit = bit_or_digit (a / 2 ^ i) (b / 2 ^ i) in
    let whole : bit_at (bit_or a b) i ≡ bit_or (a / 2 ^ i) (b / 2 ^ i) % 2 =
      ap (λ x. x % 2) split in
    (omega (arith, e, whole, digit), omega (arith, e, whole, digit))

shr-shr : (w i x : ℕ) → x / 2 ^ w / 2 ^ i ≡ x / 2 ^ (w + i)
shr-shr zero i x =
    let e : 0 + i ≡ i = omega arith in ap (λ y. y / 2 ^ i) (div-one x) ∙ ap (λ k. x / 2 ^ k) (sym e)
shr-shr (suc w) i x =
    let e : suc w + i ≡ suc (w + i) = omega arith in
    ap (λ y. y / 2 ^ i) (div-two_pow-suc w x)
    ∙ shr-shr w i (x / 2)
    ∙ sym (div-two_pow-suc (w + i) x)
    ∙ ap (λ k. x / 2 ^ k) (sym e)

bit_at-shr : (x w i : ℕ) → bit_at (shr x w) i ≡ bit_at x (w + i)
bit_at-shr x w i = ap (λ y. y % 2) (shr-shr w i x)

-- The lowest `n` bits are 0.
abbrev pub LowZero : ℕ → ℕ → Type 0
LowZero n x = (i : ℕ) → i < n → bit_at x i ≡ 0

pub fold_down-LowZero : (w x : ℕ) → LowZero w (fold_down w x) → LowZero (w + w) x
fold_down-LowZero w x h i lt = elim (dec_lt i w) [
  | yes below ↦ (bit_at-bit_or x (shr x w) i (h i below)).0
  | no above ↦
      let e : w + (i - w) ≡ i = omega arith in
      let upper = (bit_at-bit_or x (shr x w) (i - w) (h (i - w) (omega arith))).1 in
      ap (bit_at x) (sym e) ∙ sym (bit_at-shr x w (i - w)) ∙ upper
]

bit_at-half : (x i : ℕ) → bit_at (x / 2) i ≡ bit_at x (suc i)
bit_at-half x i = ap (λ y. y % 2) (sym (div-two_pow-suc i x))

pub LowZero-zero : (n x : ℕ) → x < 2 ^ n → LowZero n x → x ≡ 0
LowZero-zero zero x lt h = omega arith
LowZero-zero (suc n) x lt h =
    let first = h 0 (omega arith) in
    let rest =
      LowZero-zero n (x / 2) (half-lt n x lt) (λ i l. bit_at-half x i ∙ h (suc i) (omega arith)) in
    omega (arith, first, rest)

pub bit_xor-zero : (n a b : ℕ) → a < 2 ^ n → b < 2 ^ n → bit_xor a b ≡ 0 → a ≡ b
bit_xor-zero zero a b p q e = omega arith
bit_xor-zero (suc n) a b p q e =
    let digit = bit_xor_digit a b in
    let rest =
      bit_xor-zero n (a / 2) (b / 2) (half-lt n a p) (half-lt n b q) (omega (arith, e, digit)) in
    omega (arith, e, digit, rest)

pub bit_xor_same : (n a : ℕ) → a < 2 ^ n → bit_xor a a ≡ 0
bit_xor_same zero a p = rw (eq-zero_of_width a p)
bit_xor_same (suc n) a p = omega (arith, bit_xor_digit a a, bit_xor_same n (a / 2) (half-lt n a p))
