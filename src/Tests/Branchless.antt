-- ===== src/Tests/Branchless.antt =====
-- Concrete inputs at which the theorems on src/blake4_ct.c apply.
use blake.Base.{ℕ, ◌≡◌, ◌≢◌, ◌⊎◌, refl, arith, List, [], ◌∷◌, ltb, ◌==◌, if◌then◌else◌}
use blake.ConstTime.{ct_eq64, ct_lt64, ct_memcmp}
use blake.ConstTime.Correct.{ct_lt64-ltb, ct_eq64-==}
use blake.ConstTime.Compare.{ct_memcmp_lem}

ct_lt64-ltb_example : ct_lt64 5 18446744073709551615 ≡ (if ltb 5 18446744073709551615 then 1 else 0)
ct_lt64-ltb_example = ct_lt64-ltb 5 18446744073709551615 (omega arith) (omega arith)

-- They differ in the top bit of the last byte.
abbrev left_tag : List ℕ
left_tag = 1 ∷ 2 ∷ []

abbrev right_tag : List ℕ
right_tag = 1 ∷ 130 ∷ []

ct_memcmp_lem_example :
    ((ct_memcmp left_tag right_tag ≡ 0) × (left_tag ≡ right_tag))
    ⊎ ((ct_memcmp left_tag right_tag ≡ 1) × (left_tag ≢ right_tag))
ct_memcmp_lem_example =
    ct_memcmp_lem left_tag right_tag (omega arith, (omega arith, tt))
      (omega arith, (omega arith, tt)) refl

ct_eq64-==_example : ct_eq64 9223372036854775808 0 ≡ (if 9223372036854775808 == 0 then 1 else 0)
ct_eq64-==_example = ct_eq64-== 9223372036854775808 0 (omega arith) (omega arith)
