-- ===== src/ConstTime.antt =====
-- src/blake4_ct.c: comparison, selection and ordering without branches. The casts through signed
-- types are written as the mask that they give.
pub mod Bits
pub mod Correct
pub mod Compare
use blake.Base.{
  ℕ, zero, suc, ◌+◌, ◌-◌, ◌^◌, bit_and, bit_or, bit_xor, List, [], ◌∷◌, replicate, sub_size,
}
use blake.Base.{Bool, ltb, ◌==◌, if◌then◌else◌}
use blake.Word.{shr}

-- The loop of `blake4_ct_memcmp` over two arrays of one length.
unfoldable pub diff_loop : ℕ → List ℕ → List ℕ → ℕ
diff_loop diff (x ∷ a) (y ∷ b) = diff_loop (bit_or diff (bit_xor x y)) a b
diff_loop diff a b = diff

unfoldable pub ct_memcmp : List ℕ → List ℕ → ℕ
ct_memcmp a b =
    let diff = diff_loop 0 a b in
    let d1 = bit_or diff (shr diff 1) in
    let d2 = bit_or d1 (shr diff 2) in
    let d3 = bit_or d2 (shr diff 3) in
    let d4 = bit_or d3 (shr diff 4) in
    let d5 = bit_or d4 (shr diff 5) in
    let d6 = bit_or d5 (shr diff 6) in bit_and (bit_or d6 (shr diff 7)) 1

-- The bytes left in memory.
unfoldable pub ct_memzero : ℕ → List ℕ
ct_memzero n = replicate n 0

-- All ones, or 0, of a number of `w` bits.
abbrev pub mask_of : ℕ → ℕ → ℕ
mask_of w condition = if condition == 0 then 0 else 2 ^ w - 1

-- `(a & ~mask) | (b & mask)`
unfoldable pub masked : ℕ → ℕ → ℕ → ℕ → ℕ
masked w mask a b = bit_or (bit_and a (2 ^ w - 1 - mask)) (bit_and b mask)

unfoldable pub ct_select64 : ℕ → ℕ → ℕ → ℕ
ct_select64 condition a b = masked 64 (mask_of 64 condition) a b

unfoldable pub ct_select8 : ℕ → ℕ → ℕ → ℕ
ct_select8 condition a b = masked 8 (mask_of 8 condition) a b

-- The bytes of `dst` afterwards, for arrays of one length.
unfoldable pub ct_memcpy_if : List ℕ → List ℕ → ℕ → List ℕ
ct_memcpy_if (d ∷ dst) (s ∷ src) condition =
    masked 8 (mask_of 8 condition) d s ∷ ct_memcpy_if dst src condition
ct_memcpy_if dst src condition = dst

-- `diff |= diff >> n`
abbrev pub fold_down : ℕ → ℕ → ℕ
fold_down n diff = bit_or diff (shr diff n)

-- The six folds of a word, in their order.
abbrev pub folded : ℕ → ℕ
folded diff =
    let d1 = fold_down 32 diff in
    let d2 = fold_down 16 d1 in
    let d3 = fold_down 8 d2 in let d4 = fold_down 4 d3 in let d5 = fold_down 2 d4 in fold_down 1 d5

unfoldable pub ct_eq64 : ℕ → ℕ → ℕ
ct_eq64 a b = 1 - bit_and (folded (bit_xor a b)) 1

unfoldable pub ct_lt64 : ℕ → ℕ → ℕ
ct_lt64 a b =
    let diff = bit_xor a b in
    let sub = sub_size a b in
    let borrow = bit_xor a (bit_or diff (bit_xor sub b)) in bit_and (shr borrow 63) 1
