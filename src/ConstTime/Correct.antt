-- ===== src/ConstTime/Correct.antt =====
-- The functions of src/blake4_ct.c give what a branch would give.
use blake.Base.{ℕ, zero, suc, ◌-◌, ◌/◌, ◌%◌, ◌^◌, ◌<◌, ◌≡◌, ◌≢◌, refl, sym, ap, ap₂, ◌∙◌, arith}
use blake.Base.{bit_and, bit_or, bit_xor, sub_size, Bool, true, false, ltb, ◌==◌, if◌then◌else◌}
use blake.Base.{Bool-cases, inl, inr, ==→eq, not_==→ne}
use blake.Base.{List, [], ◌∷◌, All, length}
use blake.Bits.Fields.{zero-bit_or, bit_or-div, bit_xor-div}
use blake.Bits.Bounds.{bit_xor-lt}
use blake.Word.{IsWord, IsByte}
use blake.Bits.Low.{bit_and_one, bit_and_zero, bit_and_ones, bit_or_zero}
use blake.ConstTime.{
  mask_of, masked, ct_select64, ct_memcpy_if, fold_down, folded, ct_eq64, ct_lt64,
}
use blake.ConstTime.Bits.{
  bit_at, LowZero, fold_down-LowZero, LowZero-zero, bit_xor-zero, bit_xor_same,
}

ct_lt64-bits :
    (a b : ℕ)
    → ct_lt64 a b
      ≡ bit_xor (a / 2 ^ 63) (
          bit_or (bit_xor (a / 2 ^ 63) (b / 2 ^ 63)) (bit_xor (sub_size a b / 2 ^ 63) (b / 2 ^ 63)))
        % 2
unfolding ct_lt64
ct_lt64-bits a b =
    let diff = bit_xor a b in
    let other = bit_xor (sub_size a b) b in
    bit_and_one (bit_xor a (bit_or diff other) / 2 ^ 63)
    ∙ ap (λ x. x % 2)
        (bit_xor-div 63 a (bit_or diff other)
          ∙ ap (bit_xor (a / 2 ^ 63)) (
              bit_or-div 63 diff other
              ∙ ap₂ bit_or (bit_xor-div 63 a b) (bit_xor-div 63 (sub_size a b) b)))

-- For single bits: a is less when its top bit is, or when they agree and the difference wrapped.
top_bits :
    (x y z : ℕ)
    → x < 2
    → y < 2
    → z < 2
    → bit_xor x (bit_or (bit_xor x y) (bit_xor z y)) % 2
      ≡ (if ltb x y then 1 else if ltb y x then 0 else z)
top_bits zero zero zero p q r = refl
top_bits zero zero (suc zero) p q r = refl
top_bits zero (suc zero) zero p q r = refl
top_bits zero (suc zero) (suc zero) p q r = refl
top_bits (suc zero) zero zero p q r = refl
top_bits (suc zero) zero (suc zero) p q r = refl
top_bits (suc zero) (suc zero) zero p q r = refl
top_bits (suc zero) (suc zero) (suc zero) p q r = refl
top_bits (suc (suc x)) y z p q r = absurd (omega arith)
top_bits zero (suc (suc y)) z p q r = absurd (omega arith)
top_bits (suc zero) (suc (suc y)) z p q r = absurd (omega arith)
top_bits zero zero (suc (suc z)) p q r = absurd (omega arith)
top_bits zero (suc zero) (suc (suc z)) p q r = absurd (omega arith)
top_bits (suc zero) zero (suc (suc z)) p q r = absurd (omega arith)
top_bits (suc zero) (suc zero) (suc (suc z)) p q r = absurd (omega arith)

-- For two 64-bit words: the comparison computed from bits and a wrapped difference is 1 exactly
-- when the first word is less than the second, and 0 otherwise.
pub ct_lt64-ltb : (a b : ℕ) → IsWord a → IsWord b → ct_lt64 a b ≡ (if ltb a b then 1 else 0)
ct_lt64-ltb a b ha hb =
    ct_lt64-bits a b
    ∙ top_bits (a / 2 ^ 63) (b / 2 ^ 63) (sub_size a b / 2 ^ 63) (omega arith) (omega arith)
        (omega arith)
    ∙ compared
  where
    compared :
        (if ltb (a / 2 ^ 63) (b / 2 ^ 63)
          then 1
          else if ltb (b / 2 ^ 63) (a / 2 ^ 63)
          then 0
          else sub_size a b / 2 ^ 63)
        ≡ (if ltb a b then 1 else 0)
    compared = ground arith

low_bit : (y : ℕ) → y % 2 ≡ 0 → LowZero 1 y
low_bit y e i lt = let first : i ≡ 0 = omega arith in ap (bit_at y) first ∙ omega (arith, e)

-- Folding a word down to its lowest bit keeps whether any bit is set.
folded-zero : (x : ℕ) → IsWord x → folded x % 2 ≡ 0 → x ≡ 0
folded-zero x h e =
    let d1 = fold_down 32 x in
    let d2 = fold_down 16 d1 in
    let d3 = fold_down 8 d2 in
    let d4 = fold_down 4 d3 in
    let d5 = fold_down 2 d4 in
    LowZero-zero 64 x h (
      fold_down-LowZero 32 x (
        fold_down-LowZero 16 d1 (
          fold_down-LowZero 8 d2 (
            fold_down-LowZero 4 d3
              (fold_down-LowZero 2 d4 (fold_down-LowZero 1 d5 (low_bit (folded x) e)))))))

-- For two 64-bit words: folding their difference to one bit gives 1 when the words are equal, and
-- 0 otherwise.
pub ct_eq64-== : (a b : ℕ) → IsWord a → IsWord b → ct_eq64 a b ≡ (if a == b then 1 else 0)
unfolding ct_eq64
ct_eq64-== a b ha hb = elim (Bool-cases (a == b)) [
  | inl t ↦
      let same : bit_xor a b ≡ 0 = ap (bit_xor a) (sym (==→eq a b t)) ∙ bit_xor_same 64 a ha in
      rw (t) (ap (λ x. 1 - bit_and (folded x) 1) same)
  | inr f ↦
      let low = folded (bit_xor a b) in
      let set : low % 2 ≢ 0 = λ e.
        not_==→ne a b f
          (bit_xor-zero 64 a b ha hb (folded-zero (bit_xor a b) (bit_xor-lt 64 a b ha hb) e)) in
      rw (f) (odd_low low set)
]
  where
    odd_low : (y : ℕ) → y % 2 ≢ 0 → 1 - bit_and y 1 ≡ 0
    odd_low y n = omega (arith, bit_and_one y, n)

-- The mask selects one of two numbers of its width.
masked-if :
    (w condition a b : ℕ)
    → a < 2 ^ w
    → b < 2 ^ w
    → masked w (mask_of w condition) a b ≡ (if condition == 0 then a else b)
unfolding masked
masked-if w condition a b ha hb = elim (Bool-cases (condition == 0)) [
  | inl t ↦
      let all_left : 2 ^ w - 1 - 0 ≡ 2 ^ w - 1 = omega arith in
      rw (t) (
        ap₂ bit_or (ap (bit_and a) all_left ∙ bit_and_ones w a ha) (bit_and_zero b)
        ∙ bit_or_zero w a ha)
  | inr f ↦
      let none_left : 2 ^ w - 1 - (2 ^ w - 1) ≡ 0 = omega arith in
      rw (f) (
        ap₂ bit_or (ap (bit_and a) none_left ∙ bit_and_zero a) (bit_and_ones w b hb)
        ∙ zero-bit_or b)
]

-- For two arrays of bytes of one length: the masked copy leaves the destination as it was when the
-- condition is 0, and makes it equal to the source otherwise.
pub ct_memcpy_if-if :
    (dst src : List ℕ) (condition : ℕ)
    → All IsByte dst
    → All IsByte src
    → length dst ≡ length src
    → ct_memcpy_if dst src condition ≡ (if condition == 0 then dst else src)
unfolding ct_memcpy_if
ct_memcpy_if-if [] [] condition hd hs e = elim (Bool-cases (condition == 0)) [
  | inl t ↦ rw (t)
  | inr f ↦ rw (f)
]
ct_memcpy_if-if [] (s ∷ src) condition hd hs e = absurd (omega (arith, e))
ct_memcpy_if-if (d ∷ dst) [] condition hd hs e = absurd (omega (arith, e))
ct_memcpy_if-if (d ∷ dst) (s ∷ src) condition hd hs e =
    let head = masked-if 8 condition d s hd.0 hs.0 in
    let tail = ct_memcpy_if-if dst src condition hd.1 hs.1 (omega (arith, e)) in
    ap₂ ◌∷◌ head tail ∙ pull (condition == 0)
  where
    pull :
        (t : Bool)
        → (if t then d else s) ∷ (if t then dst else src) ≡ (if t then d ∷ dst else s ∷ src)
    pull true = refl
    pull false = refl

pub ct_select64-if :
    (condition a b : ℕ)
    → IsWord a
    → IsWord b
    → ct_select64 condition a b ≡ (if condition == 0 then a else b)
unfolding ct_select64
ct_select64-if condition a b ha hb = masked-if 64 condition a b ha hb
