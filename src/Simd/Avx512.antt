-- ===== src/Simd/Avx512.antt =====
-- src/blake4_avx512.c: the compression function with four words in a vector and a rotation of its
-- own, `_mm256_ror_epi64`.
pub mod Portable
use blake.Base.{ℕ, ◌≡◌, bit_xor, List, [], ◌∷◌, ◌++◌, drop}
use blake.Word.{load64_le}
use blake.Compress.{iv, sigma, word_at}
use blake.Simd.Vectors.{Four, four, listed, mm_shuffle, Avx}

module _ (v : Avx) (ror_epi64 : v.M256 → ℕ → v.M256) where
  open v use {M256, lanes, loadu, loadu_bytes, set_epi64x, add_epi64, xor_si256, permute4x64_epi64}

  unfoldable pub g_avx512 : M256 → M256 → M256 → M256 → M256 → M256 → Four M256
  g_avx512 a b c d mx my =
      let a1 = add_epi64 (add_epi64 a b) mx in
      let d1 = ror_epi64 (xor_si256 d a1) 32 in
      let c1 = add_epi64 c d1 in
      let b1 = ror_epi64 (xor_si256 b c1) 24 in
      let a2 = add_epi64 (add_epi64 a1 b1) my in
      let d2 = ror_epi64 (xor_si256 d1 a2) 16 in
      let c2 = add_epi64 c1 d2 in let b2 = ror_epi64 (xor_si256 b1 c2) 63 in four a2 b2 c2 d2

  -- One pass of the loop, with row `s` of the schedule, on `row0` to `row3`.
  unfoldable pub round_avx512 : List ℕ → List ℕ → Four M256 → Four M256
  round_avx512 m s rows =
      let w = λ (i : ℕ). word_at m (word_at s i) in
      let column =
        g_avx512 rows.w0 rows.w1 rows.w2 rows.w3 (set_epi64x (w 6) (w 4) (w 2) (w 0))
          (set_epi64x (w 7) (w 5) (w 3) (w 1)) in
      let diagonal =
        g_avx512 column.w0 (permute4x64_epi64 column.w1 (mm_shuffle 0 3 2 1))
          (permute4x64_epi64 column.w2 (mm_shuffle 1 0 3 2))
          (permute4x64_epi64 column.w3 (mm_shuffle 2 1 0 3)) (set_epi64x (w 14) (w 12) (w 10) (w 8))
          (set_epi64x (w 15) (w 13) (w 11) (w 9)) in
      four diagonal.w0 (permute4x64_epi64 diagonal.w1 (mm_shuffle 2 1 0 3))
        (permute4x64_epi64 diagonal.w2 (mm_shuffle 1 0 3 2))
        (permute4x64_epi64 diagonal.w3 (mm_shuffle 0 3 2 1))

  unfoldable pub rounds_avx512 : List ℕ → List (List ℕ) → Four M256 → Four M256
  rounds_avx512 m [] rows = rows
  rounds_avx512 m (s ∷ schedule) rows = rounds_avx512 m schedule (round_avx512 m s rows)

  -- The sixteen words left in `out`.
  unfoldable pub compress_avx512_impl : List ℕ → List ℕ → ℕ → ℕ → ℕ → List ℕ
  compress_avx512_impl cv block block_len counter flags =
      let row3 =
        set_epi64x (bit_xor (word_at iv 7) flags) (bit_xor (word_at iv 6) block_len) (word_at iv 5)
          (bit_xor (word_at iv 4) counter) in
      let m0 = loadu_bytes block in
      let m1 = loadu_bytes (drop 32 block) in
      let m2 = loadu_bytes (drop 64 block) in
      let m3 = loadu_bytes (drop 96 block) in
      let m =
        listed (lanes m0) ++ (listed (lanes m1) ++ (listed (lanes m2) ++ listed (lanes m3))) in
      let rows = rounds_avx512 m sigma (four (loadu cv) (loadu (drop 4 cv)) (loadu iv) row3) in
      let out0 = xor_si256 rows.w0 rows.w2 in
      let out1 = xor_si256 rows.w1 rows.w3 in
      let out2 = xor_si256 rows.w2 (loadu cv) in
      let out3 = xor_si256 rows.w3 (loadu (drop 4 cv)) in
      listed (lanes out0) ++ (listed (lanes out1) ++ (listed (lanes out2) ++ listed (lanes out3)))
