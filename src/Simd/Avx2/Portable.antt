-- ===== src/Simd/Avx2/Portable.antt =====
-- src/blake4_avx2.c computes what the portable compression function does.
use blake.Base.{ℕ, ◌≡◌, refl, ap, ap₂, ◌∙◌, List, [], ◌∷◌, length}
use blake.Word.{rotr64}
use blake.Compress.{sigma, compress_portable}
use blake.Simd.Vectors.{Four, four, each, Avx}
use blake.Simd.Mixing.{mix_rows, mix_rows_lanes, rounds_rows}
use blake.Simd.Words.{ReadsEight, ReadsEight-IsPortable, swap_halves}
use blake.Simd.Lanes.{round-lanes, block-lanes, start-lanes, output-portable}
use blake.Simd.Avx2.{
  ror64_32, ror64_24, ror64_16, ror64_63, g_avx2, round_avx2, rounds_avx2, compress_avx2_impl,
}

module _ (v : Avx) where
  open v use {
    M256, lanes, lanes-add_epi64, lanes-xor_si256, lanes-or_si256, lanes-srli_epi64,
    lanes-slli_epi64, lanes-shuffle_epi32,
  }

  ror64_24-lanes : (x : M256) → lanes (ror64_24 v x) ≡ each (λ w. rotr64 w 24) (lanes x)
  unfolding ror64_24 rotr64
  ror64_24-lanes x = simp (lanes-or_si256, lanes-srli_epi64, lanes-slli_epi64)

  ror64_16-lanes : (x : M256) → lanes (ror64_16 v x) ≡ each (λ w. rotr64 w 16) (lanes x)
  unfolding ror64_16 rotr64
  ror64_16-lanes x = simp (lanes-or_si256, lanes-srli_epi64, lanes-slli_epi64)

  ror64_63-lanes : (x : M256) → lanes (ror64_63 v x) ≡ each (λ w. rotr64 w 63) (lanes x)
  unfolding ror64_63 rotr64
  ror64_63-lanes x = simp (lanes-or_si256, lanes-srli_epi64, lanes-slli_epi64)

  ror64_32-lanes : (x : M256) → lanes (ror64_32 v x) ≡ each (λ w. rotr64 w 32) (lanes x)
  unfolding ror64_32
  ror64_32-lanes x = lanes-shuffle_epi32 x 177 ∙ λ i. each (λ w. swap_halves w i) (lanes x)

  g_avx2-lanes :
      (a b c d mx my : M256)
      → each lanes (g_avx2 v a b c d mx my)
        ≡ mix_rows (four (lanes a) (lanes b) (lanes c) (lanes d)) (lanes mx) (lanes my)
  unfolding g_avx2
  g_avx2-lanes a b c d mx my =
      simp
        (
          lanes-add_epi64, lanes-xor_si256, ror64_32-lanes, ror64_24-lanes, ror64_16-lanes,
          ror64_63-lanes,
        )
        (mix_rows_lanes (lanes a) (lanes b) (lanes c) (lanes d) (lanes mx) (lanes my))

  rounds_avx2-lanes :
      (m : List ℕ) (schedule : List (List ℕ)) (q : Four M256)
      → each lanes (rounds_avx2 v m schedule q) ≡ rounds_rows m schedule (each lanes q)
  unfolding rounds_avx2 rounds_rows round_avx2
  rounds_avx2-lanes m [] q = refl
  rounds_avx2-lanes m (s ∷ schedule) q =
      rounds_avx2-lanes m schedule (round_avx2 v m s q)
      ∙ ap (rounds_rows m schedule) (round-lanes v (g_avx2 v) g_avx2-lanes m s q)

  compress_avx2_impl-reads : ReadsEight (compress_avx2_impl v)
  unfolding compress_avx2_impl
  compress_avx2_impl-reads cv block n k f = output-portable v _ cv block n k f (
      rounds_avx2-lanes _ sigma _
      ∙ ap₂ (λ m q. rounds_rows m sigma q) (block-lanes v block) (start-lanes v cv n k f))

  -- For a chaining value of eight words, and any block, length, counter and flags: the function
  -- for AVX2, over any vector unit whose intrinsics act on their lanes as documented, returns the
  -- sixteen words that the portable function returns.
  pub compress_avx2_impl-portable :
      (cv block : List ℕ) (block_len counter flags : ℕ)
      → length cv ≡ 8
      → compress_avx2_impl v cv block block_len counter flags
        ≡ compress_portable cv block block_len counter flags
  compress_avx2_impl-portable =
      ReadsEight-IsPortable (compress_avx2_impl v) compress_avx2_impl-reads
