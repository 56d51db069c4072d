-- ===== src/ConstTime/Compare.antt =====
-- blake4_ct_memcmp of src/blake4_ct.c against the equality of arrays.
use blake.Base.{
  ℕ, zero, suc, ◌/◌, ◌^◌, ◌<◌, ◌≡◌, ◌≢◌, ◌⊎◌, inl, inr, refl, sym, ap, ap₂, ◌∙◌, arith,
}
use blake.Base.{
  bit_and, bit_or, bit_xor, Bool, true, ◌&&◌, ◌==◌, if◌then◌else◌, Bool-cases, and_true, ==→eq,
}
use blake.Base.{List, [], ◌∷◌, All, length, not_==→ne}
use blake.Bits.{bit_or_digit}
use blake.Bits.Bounds.{bit_xor-lt, bit_or-lt, half-lt}
use blake.Word.{IsByte, shr}
use blake.ConstTime.{diff_loop, ct_memcmp}
use blake.ConstTime.Bits.{bit_xor-zero, bit_xor_same}

bit_or-both : (n a b : ℕ) → a < 2 ^ n → b < 2 ^ n → bit_or a b ≡ 0 → (a ≡ 0) × (b ≡ 0)
bit_or-both zero a b p q e = (omega arith, omega arith)
bit_or-both (suc n) a b p q e =
    let digit = bit_or_digit a b in
    let (l, r) =
      bit_or-both n (a / 2) (b / 2) (half-lt n a p) (half-lt n b q) (omega (arith, e, digit)) in
    (omega (arith, e, digit, l, r), omega (arith, e, digit, l, r))

diff_loop-lt :
    (diff : ℕ) (a b : List ℕ)
    → IsByte diff
    → All IsByte a
    → All IsByte b
    → IsByte (diff_loop diff a b)
unfolding diff_loop
diff_loop-lt diff [] b h ha hb = h
diff_loop-lt diff (x ∷ a) [] h ha hb = h
diff_loop-lt diff (x ∷ a) (y ∷ b) h ha hb =
    diff_loop-lt (bit_or diff (bit_xor x y)) a b
      (bit_or-lt 8 diff (bit_xor x y) h (bit_xor-lt 8 x y ha.0 hb.0)) ha.1 hb.1

-- What the loop gathers is 0 only if it starts at 0 and the arrays agree.
diff_loop-zero :
    (diff : ℕ) (a b : List ℕ)
    → IsByte diff
    → All IsByte a
    → All IsByte b
    → length a ≡ length b
    → diff_loop diff a b ≡ 0
    → (diff ≡ 0) × (a ≡ b)
unfolding diff_loop
diff_loop-zero diff [] [] h ha hb e z = (z, refl)
diff_loop-zero diff [] (y ∷ b) h ha hb e z = absurd (omega (arith, e))
diff_loop-zero diff (x ∷ a) [] h ha hb e z = absurd (omega (arith, e))
diff_loop-zero diff (x ∷ a) (y ∷ b) h ha hb e z =
    let differ = bit_xor-lt 8 x y ha.0 hb.0 in
    let (none_here, rest) =
      diff_loop-zero (bit_or diff (bit_xor x y)) a b (bit_or-lt 8 diff (bit_xor x y) h differ) ha.1
        hb.1 (omega (arith, e)) z in
    let (before, here) = bit_or-both 8 diff (bit_xor x y) h differ none_here in
    (before, ap₂ ◌∷◌ (bit_xor-zero 8 x y ha.0 hb.0 here) rest)

diff_loop_same : (a : List ℕ) → All IsByte a → diff_loop 0 a a ≡ 0
unfolding diff_loop
diff_loop_same [] h = refl
diff_loop_same (x ∷ a) h =
    ap (λ d. diff_loop (bit_or 0 d) a a) (bit_xor_same 8 x h.0) ∙ diff_loop_same a h.1

-- The last line of the function: 1 for each byte but 0.
any_bit : ℕ → ℕ
any_bit diff =
    let d1 = bit_or diff (shr diff 1) in
    let d2 = bit_or d1 (shr diff 2) in
    let d3 = bit_or d2 (shr diff 3) in
    let d4 = bit_or d3 (shr diff 4) in
    let d5 = bit_or d4 (shr diff 5) in
    let d6 = bit_or d5 (shr diff 6) in bit_and (bit_or d6 (shr diff 7)) 1

all_below : ℕ → (ℕ → Bool) → Bool
all_below zero p = true
all_below (suc n) p = p n && all_below n p

below-all_below : (n : ℕ) (p : ℕ → Bool) → all_below n p ≡ true → (i : ℕ) → i < n → p i ≡ true
unfolding all_below
below-all_below zero p e i lt = absurd (omega arith)
below-all_below (suc n) p e i lt =
    let (last, rest) = and_true (p n) (all_below n p) e in
    elim (Bool-cases (i == n)) [
      | inl t ↦ ap p (==→eq i n t) ∙ last
      | inr f ↦ below-all_below n p rest i (let no = not_==→ne i n f in omega (arith, no))
    ]

every_byte : all_below 256 (λ d. any_bit d == (if d == 0 then 0 else 1)) ≡ true
unfolding all_below any_bit
every_byte = refl

any_bit_lem : (d : ℕ) → IsByte d → any_bit d ≡ (if d == 0 then 0 else 1)
any_bit_lem d h =
    ==→eq _ _ (below-all_below 256 (λ d. any_bit d == (if d == 0 then 0 else 1)) every_byte d h)

-- For two arrays of bytes of one length: blake4_ct_memcmp is 0 and the arrays are equal, or it is
-- 1 and they are not.
pub ct_memcmp_lem :
    (a b : List ℕ)
    → All IsByte a
    → All IsByte b
    → length a ≡ length b
    → ((ct_memcmp a b ≡ 0) × (a ≡ b)) ⊎ ((ct_memcmp a b ≡ 1) × (a ≢ b))
unfolding ct_memcmp any_bit
ct_memcmp_lem a b ha hb e =
    let d = diff_loop 0 a b in
    let value = any_bit_lem d (diff_loop-lt 0 a b (omega arith) ha hb) in
    elim (Bool-cases (d == 0)) [
      | inl t ↦
          let agree = (diff_loop-zero 0 a b (omega arith) ha hb e (==→eq d 0 t)).1 in
          inl (value ∙ ap (λ c. if c then 0 else 1) t, agree)
      | inr f ↦
          let differ : a ≢ b =
            λ same. not_==→ne d 0 f (ap (diff_loop 0 a) (sym same) ∙ diff_loop_same a ha) in
          inr (value ∙ ap (λ c. if c then 0 else 1) f, differ)
    ]
