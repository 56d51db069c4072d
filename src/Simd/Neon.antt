-- ===== src/Simd/Neon.antt =====
-- src/blake4_neon.c: the compression function with two words in a vector, a row of the state in a
-- low and a high vector.
pub mod Portable
use blake.Base.{ℕ, bit_xor, List, [], ◌∷◌, ◌++◌, drop}
use blake.Word.{load_words}
use blake.Compress.{iv, sigma, word_at}
use blake.Simd.Vectors.{Four, four, Two, two, listed_two, Neon}

module _ (v : Neon) where
  open v use {
    U64x2, lanes, of_lanes, vld1q, vaddq, veorq, vorrq, vshrq_n, vshlq_n, vreinterpretq_u32_u64,
    vreinterpretq_u64_u32, vrev64q_u32, vgetq_lane, vcreate, vcombine,
  }

  unfoldable pub vrorq_n_u64_32 : U64x2 → U64x2
  vrorq_n_u64_32 x = vreinterpretq_u64_u32 (vrev64q_u32 (vreinterpretq_u32_u64 x))

  unfoldable pub vrorq_n_u64_24 : U64x2 → U64x2
  vrorq_n_u64_24 x = vorrq (vshrq_n x 24) (vshlq_n x 40)

  unfoldable pub vrorq_n_u64_16 : U64x2 → U64x2
  vrorq_n_u64_16 x = vorrq (vshrq_n x 16) (vshlq_n x 48)

  unfoldable pub vrorq_n_u64_63 : U64x2 → U64x2
  vrorq_n_u64_63 x = vorrq (vshrq_n x 63) (vshlq_n x 1)

  unfoldable pub g_neon : U64x2 → U64x2 → U64x2 → U64x2 → U64x2 → U64x2 → Four U64x2
  g_neon a b c d mx my =
      let a1 = vaddq (vaddq a b) mx in
      let d1 = vrorq_n_u64_32 (veorq d a1) in
      let c1 = vaddq c d1 in
      let b1 = vrorq_n_u64_24 (veorq b c1) in
      let a2 = vaddq (vaddq a1 b1) my in
      let d2 = vrorq_n_u64_16 (veorq d1 a2) in
      let c2 = vaddq c1 d2 in let b2 = vrorq_n_u64_63 (veorq b1 c2) in four a2 b2 c2 d2

  -- `vcombine_u64(vcreate_u64(vgetq_lane_u64(x, i)), vcreate_u64(vgetq_lane_u64(y, j)))`
  abbrev pub combined : U64x2 → ℕ → U64x2 → ℕ → U64x2
  combined x i y j = vcombine (vcreate (vgetq_lane x i)) (vcreate (vgetq_lane y j))

  -- `lo` and `hi` are the two halves of the rows after the column step; the result are the rows
  -- for the diagonal step, and the other way back.
  unfoldable pub to_diagonals : Four U64x2 → Four U64x2 → Four (Two U64x2)
  to_diagonals lo hi =
      four (two lo.w0 hi.w0) (two (combined lo.w1 1 hi.w1 0) (combined hi.w1 1 lo.w1 0))
        (two hi.w2 lo.w2) (two (combined hi.w3 1 lo.w3 0) (combined lo.w3 1 hi.w3 0))

  unfoldable pub to_columns : Four U64x2 → Four U64x2 → Four (Two U64x2)
  to_columns lo hi =
      four (two lo.w0 hi.w0) (two (combined hi.w1 1 lo.w1 0) (combined lo.w1 1 hi.w1 0))
        (two hi.w2 lo.w2) (two (combined lo.w3 1 hi.w3 0) (combined hi.w3 1 lo.w3 0))

  -- One pass of the loop, with row `s` of the schedule.
  unfoldable pub round_neon : List ℕ → List ℕ → Four (Two U64x2) → Four (Two U64x2)
  round_neon m s rows =
      let w = λ (i : ℕ). word_at m (word_at s i) in
      let lo =
        g_neon rows.w0.low rows.w1.low rows.w2.low rows.w3.low (of_lanes (w 0) (w 2))
          (of_lanes (w 1) (w 3)) in
      let hi =
        g_neon rows.w0.high rows.w1.high rows.w2.high rows.w3.high (of_lanes (w 4) (w 6))
          (of_lanes (w 5) (w 7)) in
      let diag = to_diagonals lo hi in
      let diag_lo =
        g_neon diag.w0.low diag.w1.low diag.w2.low diag.w3.low (of_lanes (w 8) (w 10))
          (of_lanes (w 9) (w 11)) in
      let diag_hi =
        g_neon diag.w0.high diag.w1.high diag.w2.high diag.w3.high (of_lanes (w 12) (w 14))
          (of_lanes (w 13) (w 15)) in
      to_columns diag_lo diag_hi

  unfoldable pub rounds_neon : List ℕ → List (List ℕ) → Four (Two U64x2) → Four (Two U64x2)
  rounds_neon m [] rows = rows
  rounds_neon m (s ∷ schedule) rows = rounds_neon m schedule (round_neon m s rows)

  abbrev pub load_row : List ℕ → Two U64x2
  load_row p = two (vld1q p) (vld1q (drop 2 p))

  -- `veorq_u64` of the two halves of a row, stored.
  abbrev pub xor_stored : Two U64x2 → Two U64x2 → List ℕ
  xor_stored x y =
      listed_two (lanes (veorq x.low y.low)) ++ listed_two (lanes (veorq x.high y.high))

  -- The sixteen words left in `out`.
  unfoldable pub compress_neon_impl : List ℕ → List ℕ → ℕ → ℕ → ℕ → List ℕ
  compress_neon_impl cv block block_len counter flags =
      let row3_vals : List ℕ =
        bit_xor (word_at iv 4) counter
        ∷ word_at iv 5
        ∷ bit_xor (word_at iv 6) block_len
        ∷ bit_xor (word_at iv 7) flags
        ∷ [] in
      let m = load_words 16 block in
      let rows =
        rounds_neon m sigma
          (four (load_row cv) (load_row (drop 4 cv)) (load_row iv) (load_row row3_vals)) in
      xor_stored rows.w0 rows.w2
      ++ (xor_stored rows.w1 rows.w3
          ++ (xor_stored rows.w2 (load_row cv) ++ xor_stored rows.w3 (load_row (drop 4 cv))))
