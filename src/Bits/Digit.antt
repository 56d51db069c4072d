-- ===== src/Bits/Digit.antt =====
-- One equation for the lowest binary digit of each operation.
use Prim.Native.Nat.{max, differ, digits, bit_and-bitwise, bit_or-bitwise, bit_xor-bitwise}
use blake.Base.{ℕ, zero, suc, ◌+◌, ◌*◌, ◌/◌, ◌%◌, ◌≤◌, min, bit_and, bit_or, bit_xor}
use blake.Base.{◌≡◌, refl, ap, arith, ◌-◌, ◌<◌}

module _ (rest : ℕ → ℕ) (op : ℕ → ℕ → ℕ) where
  -- Any two amounts of fuel that cover the first number give the same result.
  digits_irrelevant : (k m a b : ℕ) → a ≤ k → a ≤ m → digits rest op k a b ≡ digits rest op m a b
  digits_irrelevant zero zero a b p q = refl
  digits_irrelevant zero (suc m) zero b p q = refl
  digits_irrelevant zero (suc m) (suc a) b p q = absurd (omega arith)
  digits_irrelevant (suc k) zero zero b p q = refl
  digits_irrelevant (suc k) zero (suc a) b p q = absurd (omega arith)
  digits_irrelevant (suc k) (suc m) zero b p q = refl
  digits_irrelevant (suc k) (suc m) (suc a) b p q =
      ap (λ (t : ℕ). t * 2 + op (suc a % 2) (b % 2))
        (digits_irrelevant k m (suc a / 2) (b / 2) (omega arith) (omega arith))

  lowest_digit :
      (a b : ℕ)
      → digits rest op (suc a) (suc a) b
        ≡ digits rest op (suc a / 2) (suc a / 2) (b / 2) * 2 + op (suc a % 2) (b % 2)
  lowest_digit a b =
      ap (λ (t : ℕ). t * 2 + op (suc a % 2) (b % 2))
        (digits_irrelevant a (suc a / 2) (suc a / 2) (b / 2) (omega arith) (omega arith))

pub bit_or_digit : (a b : ℕ) → bit_or a b ≡ bit_or (a / 2) (b / 2) * 2 + max (a % 2) (b % 2)
bit_or_digit zero b = simp bit_or-bitwise (omega arith)
bit_or_digit (suc a) b = simp bit_or-bitwise (lowest_digit (λ y. y) max a b)

pub bit_and_digit : (a b : ℕ) → bit_and a b ≡ bit_and (a / 2) (b / 2) * 2 + min (a % 2) (b % 2)
bit_and_digit zero b = simp bit_and-bitwise (omega arith)
bit_and_digit (suc a) b = simp bit_and-bitwise (lowest_digit (λ y. 0) min a b)

-- The exclusive or of two binary digits, in a form that the arithmetic tactics read.
abbrev pub digit_xor : ℕ → ℕ → ℕ
digit_xor a b = max a b - min a b

digit_xor_lem : (a b : ℕ) → a < 2 → b < 2 → differ a b ≡ digit_xor a b
digit_xor_lem zero zero p q = refl
digit_xor_lem zero (suc zero) p q = refl
digit_xor_lem (suc zero) zero p q = refl
digit_xor_lem (suc zero) (suc zero) p q = refl
digit_xor_lem (suc (suc a)) b p q = absurd (omega arith)
digit_xor_lem zero (suc (suc b)) p q = absurd (omega arith)
digit_xor_lem (suc zero) (suc (suc b)) p q = absurd (omega arith)

pub bit_xor_digit :
    (a b : ℕ) → bit_xor a b ≡ bit_xor (a / 2) (b / 2) * 2 + digit_xor (a % 2) (b % 2)
bit_xor_digit zero b =
    simp bit_xor-bitwise (omega (arith, digit_xor_lem 0 (b % 2) (omega arith) (omega arith)))
bit_xor_digit (suc a) b = simp bit_xor-bitwise (
    omega (
      arith,
      lowest_digit (λ y. y) differ a b,
      digit_xor_lem (suc a % 2) (b % 2) (omega arith) (omega arith),
    ))
