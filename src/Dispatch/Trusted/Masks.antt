-- ===== src/Dispatch/Trusted/Masks.antt =====
-- The tests on feature bits of src/blake4_dispatch.c.
use blake.Bits.Low.{bit_and_one}
use blake.Bits.Digit.{bit_and_digit}
use blake.Base.{and_true}
use blake.Base.{ℕ, ◌+◌, ◌*◌, ◌%◌, min, ◌/◌, ◌<◌, bit_and, eq→==, ◌≡◌, arith, true, ◌&&◌}
use blake.Dispatch.{any_set}
use blake.Dispatch.Features.{cpu_avx512f, cpu_avx512vl, all_set}

any_set-nonzero : (x m : ℕ) → any_set x m ≡ true → 0 < bit_and x m
any_set-nonzero x m e = ground arith

two_bits : (x : ℕ) → 0 < bit_and x 8 → 0 < bit_and x 16 → bit_and x 24 ≡ 24
two_bits x p q =
    let x1 = x / 2 in
    let x2 = x1 / 2 in
    let x3 = x2 / 2 in
    let x4 = x3 / 2 in
    let e0 : bit_and x 24 ≡ bit_and x1 12 * 2 + min (x % 2) 0 = bit_and_digit x 24 in
    let e1 : bit_and x1 12 ≡ bit_and x2 6 * 2 + min (x1 % 2) 0 = bit_and_digit x1 12 in
    let e2 : bit_and x2 6 ≡ bit_and x3 3 * 2 + min (x2 % 2) 0 = bit_and_digit x2 6 in
    let e3 : bit_and x3 3 ≡ bit_and x4 1 * 2 + min (x3 % 2) 1 = bit_and_digit x3 3 in
    let f0 : bit_and x 8 ≡ bit_and x1 4 * 2 + min (x % 2) 0 = bit_and_digit x 8 in
    let f1 : bit_and x1 4 ≡ bit_and x2 2 * 2 + min (x1 % 2) 0 = bit_and_digit x1 4 in
    let f2 : bit_and x2 2 ≡ bit_and x3 1 * 2 + min (x2 % 2) 0 = bit_and_digit x2 2 in
    let g0 : bit_and x 16 ≡ bit_and x1 8 * 2 + min (x % 2) 0 = bit_and_digit x 16 in
    let g1 : bit_and x1 8 ≡ bit_and x2 4 * 2 + min (x1 % 2) 0 = bit_and_digit x1 8 in
    let g2 : bit_and x2 4 ≡ bit_and x3 2 * 2 + min (x2 % 2) 0 = bit_and_digit x2 4 in
    let g3 : bit_and x3 2 ≡ bit_and x4 1 * 2 + min (x3 % 2) 0 = bit_and_digit x3 2 in
    omega (arith, e0, e1, e2, e3, f0, f1, f2, g0, g1, g2, g3, bit_and_one x3, bit_and_one x4)

-- The two bits of AVX-512 are tested together or one by one.
pub both_bits :
    (detected : ℕ)
    → (any_set detected cpu_avx512f && any_set detected cpu_avx512vl) ≡ true
    → all_set detected 24 ≡ true
both_bits detected e =
    let (f, vl) = and_true (any_set detected 8) (any_set detected 16) e in
    eq→== (bit_and detected 24) 24
      (two_bits detected (any_set-nonzero detected 8 f) (any_set-nonzero detected 16 vl))
