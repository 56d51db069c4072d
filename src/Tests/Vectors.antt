-- ===== src/Tests/Vectors.antt =====
-- The vector units as lists of lanes, and concrete inputs at which the theorems on the back ends
-- apply.
use blake.Base.{ℕ, ◌≡◌, refl, bit_or, bit_xor, List, [], ◌∷◌, replicate, take, some}
use blake.Word.{shr, shl64, rotr64}
use blake.Compress.{iv, word_at, compress_portable}
use blake.Dispatch.{x86_64, select_avx2}
use blake.Dispatch.Trusted.Requests.{get_compress_request, set_impl_request}
use blake.Simd.Vectors.{
  Four, four, Two, two, each, each2, both, both2, add64, shuffled, shuffled_halves, low_half,
  high_half, joined_two, pick_two, Avx, Neon, Avx512,
}
use blake.Simd.Words.{words4, bytes4}
use blake.Simd.Avx2.{compress_avx2_impl}
use blake.Simd.Avx2.Portable.{compress_avx2_impl-portable}
use blake.Simd.Avx512.{compress_avx512_impl}
use blake.Simd.Avx512.Portable.{compress_avx512_impl-portable}
use blake.Simd.Neon.{compress_neon_impl}
use blake.Simd.Neon.Portable.{compress_neon_impl-portable}
use blake.Simd.Scalar.{built_avx512, simd_available, get_compress_impl}
use blake.Simd.Scalar.Portable.{Serves, get_compress_impl-Serves}
use blake.Simd.Registered.{CompressFn, Machine, IsSound, built_for, dispatch_compress}
use blake.Base.{◌⊎◌}
use blake.Simd.Registered.Chosen.{Assembly, first_choice, state_after, dispatch_compress_lem}

abbrev plain_avx : Avx
plain_avx = record {
  M256 = Four ℕ;
  lanes = λ x. x;
  loadu = words4;
  loadu_bytes = bytes4;
  set_epi64x = λ d c b a. four a b c d;
  add_epi64 = each2 add64;
  xor_si256 = each2 bit_xor;
  or_si256 = each2 bit_or;
  srli_epi64 = λ x n. each (λ w. shr w n) x;
  slli_epi64 = λ x n. each (λ w. shl64 w n) x;
  shuffle_epi32 = shuffled_halves;
  permute4x64_epi64 = shuffled;
  lanes-loadu = λ p. refl;
  lanes-loadu_bytes = λ p. refl;
  lanes-set_epi64x = λ a b c d. refl;
  lanes-add_epi64 = λ x y. refl;
  lanes-xor_si256 = λ x y. refl;
  lanes-or_si256 = λ x y. refl;
  lanes-srli_epi64 = λ x n. refl;
  lanes-slli_epi64 = λ x n. refl;
  lanes-shuffle_epi32 = λ x imm. refl;
  lanes-permute4x64_epi64 = λ x imm. refl;
}

abbrev plain_neon : Neon
plain_neon = record {
  U64x2 = Two ℕ;
  U32x4 = Four ℕ;
  U64x1 = ℕ;
  lanes = λ x. x;
  halves = λ y. y;
  of_lanes = two;
  vld1q = λ p. two (word_at p 0) (word_at p 1);
  vaddq = both2 add64;
  veorq = both2 bit_xor;
  vorrq = both2 bit_or;
  vshrq_n = λ x n. both (λ w. shr w n) x;
  vshlq_n = λ x n. both (λ w. shl64 w n) x;
  vreinterpretq_u32_u64 =
      λ x. four (low_half x.low) (high_half x.low) (low_half x.high) (high_half x.high);
  vreinterpretq_u64_u32 = joined_two;
  vrev64q_u32 = λ y. four y.w1 y.w0 y.w3 y.w2;
  vgetq_lane = pick_two;
  vcreate = λ a. a;
  vcombine = two;
  lanes-of_lanes = λ a b. refl;
  lanes-vld1q = λ p. refl;
  lanes-vaddq = λ x y. refl;
  lanes-veorq = λ x y. refl;
  lanes-vorrq = λ x y. refl;
  lanes-vshrq_n = λ x n. refl;
  lanes-vshlq_n = λ x n. refl;
  halves-vreinterpretq = λ x. refl;
  lanes-vreinterpretq = λ y. refl;
  halves-vrev64q = λ y. refl;
  vgetq_lane-lanes = λ x i. refl;
  lanes-vcombine = λ a b. refl;
}

abbrev plain_avx512 : Avx512
plain_avx512 = record {
  M512 = List ℕ;
  loadu_si512 = take 8;
  storeu_si512 = λ x. x;
  storeu-loadu = λ p h. refl;
}

-- `_mm256_ror_epi64` lane by lane.
abbrev rotated : Four ℕ → ℕ → Four ℕ
rotated x n = each (λ w. rotr64 w n) x

-- The assembly functions are not the compression function.
abbrev machine : Machine
machine = record {
  avx = plain_avx;
  ror_epi64 = rotated;
  neon = plain_neon;
  compress_avx2_asm = λ cv block n k f. 2 ∷ cv;
  compress_avx512_asm = λ cv block n k f. 5 ∷ cv;
  compress_neon_asm = λ cv block n k f. 7 ∷ cv;
}

machine-IsSound : IsSound machine
machine-IsSound = record { lanes-ror_epi64 = λ x n. refl }

abbrev full_block : List ℕ
full_block = replicate 128 255

compress_avx2_impl-portable_example :
    compress_avx2_impl plain_avx iv full_block 128 7 3 ≡ compress_portable iv full_block 128 7 3
compress_avx2_impl-portable_example =
    compress_avx2_impl-portable plain_avx iv full_block 128 7 3 refl

compress_avx512_impl-portable_example :
    compress_avx512_impl plain_avx rotated iv full_block 128 7 3
    ≡ compress_portable iv full_block 128 7 3
compress_avx512_impl-portable_example =
    compress_avx512_impl-portable plain_avx rotated (λ x n. refl) iv full_block 128 7 3 refl

compress_neon_impl-portable_example :
    compress_neon_impl plain_neon iv full_block 128 7 3 ≡ compress_portable iv full_block 128 7 3
compress_neon_impl-portable_example =
    compress_neon_impl-portable plain_neon iv full_block 128 7 3 refl

get_compress_impl-Serves_example :
    Serves (simd_available built_avx512) (get_compress_impl plain_avx plain_avx512 built_avx512)
get_compress_impl-Serves_example = get_compress_impl-Serves plain_avx plain_avx512 built_avx512

-- AVX2 is there and AVX-512 is not: the AVX2 assembly is called first, and the AVX2 intrinsics
-- after a request for them.
dispatch_compress_lem_example :
    ((dispatch_compress x86_64 4
        (built_for machine x86_64)
        (state_after machine x86_64 4 [])
        iv
        full_block
        128
        7
        3).0
      ≡ some (first_choice machine x86_64 4 iv full_block 128 7 3))
    × (((dispatch_compress x86_64 4
            (built_for machine x86_64)
            (state_after machine x86_64 4
              (get_compress_request ∷ set_impl_request select_avx2 ∷ []))
            iv
            full_block
            128
            7
            3).0
          ≡ some (compress_portable iv full_block 128 7 3))
        ⊎ ((g : CompressFn) × Assembly machine 4 g
            × ((dispatch_compress x86_64 4
                  (built_for machine x86_64)
                  (state_after machine x86_64 4
                    (get_compress_request ∷ set_impl_request select_avx2 ∷ []))
                  iv
                  full_block
                  128
                  7
                  3).0
                ≡ some (g iv full_block 128 7 3))))
dispatch_compress_lem_example =
    dispatch_compress_lem machine machine-IsSound x86_64 4
      (get_compress_request ∷ set_impl_request select_avx2 ∷ []) iv full_block 128 7 3 refl
