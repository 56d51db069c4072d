-- ===== src/Simd/Neon/Portable.antt =====
-- src/blake4_neon.c computes what the portable compression function does.
use blake.Base.{◌++◌, ℕ, ◌≡◌, refl, sym, ap, ap₂, ◌∙◌, bit_xor, List, [], ◌∷◌, length, drop}
use blake.Word.{rotr64, load_words}
use blake.Compress.{iv, sigma, word_at, compress_portable}
use blake.Simd.Vectors.{Four, four, Two, two, each, each2, listed, both, both2, add64, Neon}
use blake.Simd.Mixing.{mix, mix_rows, skew, unskew, Rows, flat, round_rows, rounds_rows}
use blake.Simd.Words.{
  ReadsEight, ReadsEight-IsPortable, swap_halves, words4, start_rows, output_rows,
  compress_portable-rows,
}
use blake.Simd.Neon.{
  vrorq_n_u64_32, vrorq_n_u64_24, vrorq_n_u64_16, vrorq_n_u64_63, g_neon, to_diagonals, to_columns,
  round_neon, rounds_neon, load_row, xor_stored, compress_neon_impl,
}

-- Four lanes of two vectors, and the state of two such halves.
abbrev pair_row : Two (Two ℕ) → Four ℕ
pair_row p = four p.low.low p.low.high p.high.low p.high.high

-- Mixing in two columns.
mix_two : Four (Two ℕ) → Two ℕ → Two ℕ → Four (Two ℕ)
mix_two q mx my =
    let t0 = mix q.w0.low q.w1.low q.w2.low q.w3.low mx.low my.low in
    let t1 = mix q.w0.high q.w1.high q.w2.high q.w3.high mx.high my.high in
    four (two t0.w0 t1.w0) (two t0.w1 t1.w1) (two t0.w2 t1.w2) (two t0.w3 t1.w3)

mix_two_lanes :
    (a b c d mx my : Two ℕ)
    → (let a1 = both2 add64 (both2 add64 a b) mx in
        let d1 = both (λ x. rotr64 x 32) (both2 bit_xor d a1) in
        let c1 = both2 add64 c d1 in
        let b1 = both (λ x. rotr64 x 24) (both2 bit_xor b c1) in
        let a2 = both2 add64 (both2 add64 a1 b1) my in
        let d2 = both (λ x. rotr64 x 16) (both2 bit_xor d1 a2) in
        let c2 = both2 add64 c1 d2 in
        let b2 = both (λ x. rotr64 x 63) (both2 bit_xor b1 c2) in four a2 b2 c2 d2)
      ≡ mix_two (four a b c d) mx my
unfolding mix_two mix
mix_two_lanes a b c d mx my = refl

-- The four words at `p` as two loads of two words read them.
abbrev row_words : List ℕ → Four ℕ
row_words p =
    pair_row
      (two (two (word_at p 0) (word_at p 1)) (two (word_at (drop 2 p) 0) (word_at (drop 2 p) 1)))

row_words-words4 : (p : List ℕ) → row_words p ≡ words4 p
row_words-words4 [] = refl
row_words-words4 (x ∷ []) = refl
row_words-words4 (x ∷ y ∷ p) = refl

-- Both halves of the state.
abbrev rows_of : Four (Two ℕ) → Four (Two ℕ) → Rows
rows_of lo hi =
    four (pair_row (two lo.w0 hi.w0)) (pair_row (two lo.w1 hi.w1)) (pair_row (two lo.w2 hi.w2))
      (pair_row (two lo.w3 hi.w3))

mix_two-rows :
    (lo hi : Four (Two ℕ)) (x0 x1 x2 x3 y0 y1 y2 y3 : ℕ)
    → rows_of (mix_two lo (two x0 x1) (two y0 y1)) (mix_two hi (two x2 x3) (two y2 y3))
      ≡ mix_rows (rows_of lo hi) (four x0 x1 x2 x3) (four y0 y1 y2 y3)
unfolding mix_two mix_rows
mix_two-rows lo hi x0 x1 x2 x3 y0 y1 y2 y3 = refl

module _ (v : Neon) where
  open v use {
    U64x2, lanes, of_lanes, lanes-of_lanes, lanes-vld1q, lanes-vaddq, lanes-veorq, lanes-vorrq,
    lanes-vshrq_n, lanes-vshlq_n, halves-vreinterpretq, lanes-vreinterpretq, halves-vrev64q,
    vgetq_lane-lanes, lanes-vcombine,
  }

  vrorq_n_u64_24-lanes :
      (x : U64x2) → lanes (vrorq_n_u64_24 v x) ≡ both (λ w. rotr64 w 24) (lanes x)
  unfolding vrorq_n_u64_24 rotr64
  vrorq_n_u64_24-lanes x = simp (lanes-vorrq, lanes-vshrq_n, lanes-vshlq_n)

  vrorq_n_u64_16-lanes :
      (x : U64x2) → lanes (vrorq_n_u64_16 v x) ≡ both (λ w. rotr64 w 16) (lanes x)
  unfolding vrorq_n_u64_16 rotr64
  vrorq_n_u64_16-lanes x = simp (lanes-vorrq, lanes-vshrq_n, lanes-vshlq_n)

  vrorq_n_u64_63-lanes :
      (x : U64x2) → lanes (vrorq_n_u64_63 v x) ≡ both (λ w. rotr64 w 63) (lanes x)
  unfolding vrorq_n_u64_63 rotr64
  vrorq_n_u64_63-lanes x = simp (lanes-vorrq, lanes-vshrq_n, lanes-vshlq_n)

  vrorq_n_u64_32-lanes :
      (x : U64x2) → lanes (vrorq_n_u64_32 v x) ≡ both (λ w. rotr64 w 32) (lanes x)
  unfolding vrorq_n_u64_32
  vrorq_n_u64_32-lanes x =
      simp (lanes-vreinterpretq, halves-vrev64q, halves-vreinterpretq)
        (λ i. both (λ w. swap_halves w i) (lanes x))

  g_neon-lanes :
      (a b c d mx my : U64x2)
      → each lanes (g_neon v a b c d mx my)
        ≡ mix_two (four (lanes a) (lanes b) (lanes c) (lanes d)) (lanes mx) (lanes my)
  unfolding g_neon
  g_neon-lanes a b c d mx my =
      simp
        (
          lanes-vaddq, lanes-veorq, vrorq_n_u64_32-lanes, vrorq_n_u64_24-lanes,
          vrorq_n_u64_16-lanes, vrorq_n_u64_63-lanes,
        )
        (mix_two_lanes (lanes a) (lanes b) (lanes c) (lanes d) (lanes mx) (lanes my))

  -- The rows that the vectors hold.
  abbrev rows_in : Four (Two U64x2) → Rows
  rows_in q = each (λ (r : Two U64x2). pair_row (both lanes r)) q

  to_diagonals-rows :
      (lo hi : Four U64x2)
      → rows_in (to_diagonals v lo hi) ≡ skew (rows_of (each lanes lo) (each lanes hi))
  unfolding to_diagonals
  to_diagonals-rows lo hi = simp (lanes-vcombine, vgetq_lane-lanes)

  to_columns-rows :
      (lo hi : Four U64x2)
      → rows_in (to_columns v lo hi) ≡ unskew (rows_of (each lanes lo) (each lanes hi))
  unfolding to_columns
  to_columns-rows lo hi = simp (lanes-vcombine, vgetq_lane-lanes)

  -- A mixing of both halves with message words in their lanes.
  mixed-rows :
      (q : Four (Two U64x2)) (x0 x1 x2 x3 y0 y1 y2 y3 : ℕ)
      → rows_of
          (each lanes
            (g_neon v q.w0.low q.w1.low q.w2.low q.w3.low (of_lanes x0 x1) (of_lanes y0 y1)))
          (each lanes
            (g_neon v q.w0.high q.w1.high q.w2.high q.w3.high (of_lanes x2 x3) (of_lanes y2 y3)))
        ≡ mix_rows (rows_in q) (four x0 x1 x2 x3) (four y0 y1 y2 y3)
  mixed-rows q x0 x1 x2 x3 y0 y1 y2 y3 =
      ap₂ rows_of
        (g_neon-lanes _ _ _ _ _ _ ∙ ap₂ (mix_two _) (lanes-of_lanes x0 x1) (lanes-of_lanes y0 y1))
        (g_neon-lanes _ _ _ _ _ _ ∙ ap₂ (mix_two _) (lanes-of_lanes x2 x3) (lanes-of_lanes y2 y3))
      ∙ mix_two-rows _ _ x0 x1 x2 x3 y0 y1 y2 y3

  round_neon-rows :
      (m s : List ℕ) (q : Four (Two U64x2))
      → rows_in (round_neon v m s q) ≡ round_rows m s (rows_in q)
  unfolding round_neon round_rows
  round_neon-rows m s q =
      let w = λ (i : ℕ). word_at m (word_at s i) in
      to_columns-rows _ _
      ∙ ap unskew (
          mixed-rows _ (w 8) (w 10) (w 12) (w 14) (w 9) (w 11) (w 13) (w 15)
          ∙ ap (λ r. mix_rows r (four (w 8) (w 10) (w 12) (w 14)) (four (w 9) (w 11) (w 13) (w 15)))
              (to_diagonals-rows _ _
                ∙ ap skew (mixed-rows q (w 0) (w 2) (w 4) (w 6) (w 1) (w 3) (w 5) (w 7))))

  rounds_neon-rows :
      (m : List ℕ) (schedule : List (List ℕ)) (q : Four (Two U64x2))
      → rows_in (rounds_neon v m schedule q) ≡ rounds_rows m schedule (rows_in q)
  unfolding rounds_neon rounds_rows
  rounds_neon-rows m [] q = refl
  rounds_neon-rows m (s ∷ schedule) q =
      rounds_neon-rows m schedule (round_neon v m s q)
      ∙ ap (rounds_rows m schedule) (round_neon-rows m s q)

  -- The rows before the first round.
  abbrev start_neon : List ℕ → ℕ → ℕ → ℕ → Four (Two U64x2)
  start_neon cv n k f = four (load_row v cv) (load_row v (drop 4 cv)) (load_row v iv) (
      load_row v (
        bit_xor (word_at iv 4) k
        ∷ word_at iv 5
        ∷ bit_xor (word_at iv 6) n
        ∷ bit_xor (word_at iv 7) f
        ∷ []))

  load_row-words4 : (p : List ℕ) → pair_row (both lanes (load_row v p)) ≡ words4 p
  load_row-words4 p = simp lanes-vld1q (row_words-words4 p)

  start_neon-rows : (cv : List ℕ) (n k f : ℕ) → rows_in (start_neon cv n k f) ≡ start_rows cv n k f
  start_neon-rows cv n k f = λ i.
      four (load_row-words4 cv i) (load_row-words4 (drop 4 cv) i) (load_row-words4 iv i) (
        load_row-words4
          (bit_xor (word_at iv 4) k
            ∷ word_at iv 5
            ∷ bit_xor (word_at iv 6) n
            ∷ bit_xor (word_at iv 7) f
            ∷ [])
          i)

  xor_stored-listed :
      (x y : Two U64x2)
      → xor_stored v x y
        ≡ listed (each2 bit_xor (pair_row (both lanes x)) (pair_row (both lanes y)))
  xor_stored-listed x y = simp lanes-veorq

  output_neon-rows :
      (q : Four (Two U64x2)) (cv : List ℕ)
      → xor_stored v q.w0 q.w2
          ++ (xor_stored v q.w1 q.w3
              ++ (xor_stored v q.w2 (load_row v cv) ++ xor_stored v q.w3 (load_row v (drop 4 cv))))
        ≡ flat (output_rows (rows_in q) cv)
  output_neon-rows q cv =
      let with_cv = λ (x : Two U64x2) (p : List ℕ).
        xor_stored-listed x (load_row v p)
        ∙ ap (λ w. listed (each2 bit_xor (pair_row (both lanes x)) w)) (load_row-words4 p) in
      λ i.
        xor_stored-listed q.w0 q.w2 i
        ++ (xor_stored-listed q.w1 q.w3 i ++ (with_cv q.w2 cv i ++ with_cv q.w3 (drop 4 cv) i))

  compress_neon_impl-reads : ReadsEight (compress_neon_impl v)
  unfolding compress_neon_impl
  compress_neon_impl-reads cv block n k f =
      output_neon-rows (rounds_neon v (load_words 16 block) sigma (start_neon cv n k f)) cv
      ∙ ap (λ r. flat (output_rows r cv))
          (rounds_neon-rows (load_words 16 block) sigma (start_neon cv n k f)
            ∙ ap (rounds_rows (load_words 16 block) sigma) (start_neon-rows cv n k f))
      ∙ sym (compress_portable-rows cv block n k f)

  -- For a chaining value of eight words, and any block, length, counter and flags: the function
  -- for NEON, over any vector unit whose intrinsics act on their lanes as documented, returns the
  -- sixteen words that the portable function returns.
  pub compress_neon_impl-portable :
      (cv block : List ℕ) (block_len counter flags : ℕ)
      → length cv ≡ 8
      → compress_neon_impl v cv block block_len counter flags
        ≡ compress_portable cv block block_len counter flags
  compress_neon_impl-portable =
      ReadsEight-IsPortable (compress_neon_impl v) compress_neon_impl-reads
