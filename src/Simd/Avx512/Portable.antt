-- ===== src/Simd/Avx512/Portable.antt =====
-- src/blake4_avx512.c computes what the portable compression function does.
use blake.Base.{ℕ, ◌≡◌, refl, ap, ap₂, ◌∙◌, List, [], ◌∷◌, length}
use blake.Word.{rotr64}
use blake.Compress.{sigma, compress_portable}
use blake.Simd.Vectors.{Four, four, each, Avx}
use blake.Simd.Mixing.{mix_rows, mix_rows_lanes, rounds_rows}
use blake.Simd.Words.{ReadsEight, ReadsEight-IsPortable}
use blake.Simd.Lanes.{round-lanes, block-lanes, start-lanes, output-portable}
use blake.Simd.Avx512.{g_avx512, round_avx512, rounds_avx512, compress_avx512_impl}

module _ (v : Avx) (ror_epi64 : v.M256 → ℕ → v.M256)
    (lanes-ror_epi64 : (x : v.M256) (n : ℕ)
      → v.lanes (ror_epi64 x n) ≡ each (λ w. rotr64 w n) (v.lanes x)) where
  open v use {M256, lanes, lanes-add_epi64, lanes-xor_si256}

  g_avx512-lanes :
      (a b c d mx my : M256)
      → each lanes (g_avx512 v ror_epi64 a b c d mx my)
        ≡ mix_rows (four (lanes a) (lanes b) (lanes c) (lanes d)) (lanes mx) (lanes my)
  unfolding g_avx512
  g_avx512-lanes a b c d mx my =
      simp (lanes-add_epi64, lanes-xor_si256, lanes-ror_epi64)
        (mix_rows_lanes (lanes a) (lanes b) (lanes c) (lanes d) (lanes mx) (lanes my))

  rounds_avx512-lanes :
      (m : List ℕ) (schedule : List (List ℕ)) (q : Four M256)
      → each lanes (rounds_avx512 v ror_epi64 m schedule q) ≡ rounds_rows m schedule (each lanes q)
  unfolding rounds_avx512 rounds_rows round_avx512
  rounds_avx512-lanes m [] q = refl
  rounds_avx512-lanes m (s ∷ schedule) q =
      rounds_avx512-lanes m schedule (round_avx512 v ror_epi64 m s q)
      ∙ ap (rounds_rows m schedule) (round-lanes v (g_avx512 v ror_epi64) g_avx512-lanes m s q)

  compress_avx512_impl-reads : ReadsEight (compress_avx512_impl v ror_epi64)
  unfolding compress_avx512_impl
  compress_avx512_impl-reads cv block n k f = output-portable v _ cv block n k f (
      rounds_avx512-lanes _ sigma _
      ∙ ap₂ (λ m q. rounds_rows m sigma q) (block-lanes v block) (start-lanes v cv n k f))

  -- For a chaining value of eight words, and any block, length, counter and flags: the function
  -- for AVX-512, over any vector unit whose intrinsics and whose rotation act on their lanes as
  -- documented, returns the sixteen words that the portable function returns.
  pub compress_avx512_impl-portable :
      (cv block : List ℕ) (block_len counter flags : ℕ)
      → length cv ≡ 8
      → compress_avx512_impl v ror_epi64 cv block block_len counter flags
        ≡ compress_portable cv block block_len counter flags
  compress_avx512_impl-portable =
      ReadsEight-IsPortable (compress_avx512_impl v ror_epi64) compress_avx512_impl-reads
