-- ===== src/Simd/Lanes.antt =====
-- What the loops over 256-bit vectors compute, for any mixing of vectors that mixes their lanes.
use blake.Base.{ℕ, ◌≡◌, sym, ap, ap₂, ◌∙◌, bit_xor, List, ◌++◌, drop}
use blake.Word.{load_words}
use blake.Compress.{iv, sigma, word_at, compress_portable}
use blake.Simd.Vectors.{Four, four, listed, each, mm_shuffle, Avx}
use blake.Simd.Mixing.{flat, mix_rows, skew, unskew, round_rows, rounds_rows}
use blake.Simd.Words.{eight, load_words-bytes4, start_rows, output_rows, compress_portable-rows}

module _ (v : Avx) where
  open v use {
    M256, lanes, loadu, loadu_bytes, set_epi64x, xor_si256, permute4x64_epi64, lanes-loadu,
    lanes-loadu_bytes, lanes-set_epi64x, lanes-xor_si256, lanes-permute4x64_epi64,
  }

  -- The permutations before and after the diagonal step.
  abbrev pub skew_vectors : Four M256 → Four M256
  skew_vectors q =
      four q.w0 (permute4x64_epi64 q.w1 (mm_shuffle 0 3 2 1))
        (permute4x64_epi64 q.w2 (mm_shuffle 1 0 3 2)) (permute4x64_epi64 q.w3 (mm_shuffle 2 1 0 3))

  abbrev pub unskew_vectors : Four M256 → Four M256
  unskew_vectors q =
      four q.w0 (permute4x64_epi64 q.w1 (mm_shuffle 2 1 0 3))
        (permute4x64_epi64 q.w2 (mm_shuffle 1 0 3 2)) (permute4x64_epi64 q.w3 (mm_shuffle 0 3 2 1))

  pub skew-lanes : (q : Four M256) → each lanes (skew_vectors q) ≡ skew (each lanes q)
  skew-lanes q = simp lanes-permute4x64_epi64

  pub unskew-lanes : (q : Four M256) → each lanes (unskew_vectors q) ≡ unskew (each lanes q)
  unskew-lanes q = simp lanes-permute4x64_epi64

  -- The vectors combined into the output.
  abbrev pub output_vectors : Four M256 → List ℕ → Four M256
  output_vectors q cv =
      four (xor_si256 q.w0 q.w2) (xor_si256 q.w1 q.w3) (xor_si256 q.w2 (loadu cv))
        (xor_si256 q.w3 (loadu (drop 4 cv)))

  pub output-lanes :
      (q : Four M256) (cv : List ℕ)
      → each lanes (output_vectors q cv) ≡ output_rows (each lanes q) cv
  output-lanes q cv = simp (lanes-xor_si256, lanes-loadu)

  abbrev pub start_vectors : List ℕ → ℕ → ℕ → ℕ → Four M256
  start_vectors cv block_len counter flags = four (loadu cv) (loadu (drop 4 cv)) (loadu iv) (
      set_epi64x (bit_xor (word_at iv 7) flags) (bit_xor (word_at iv 6) block_len) (word_at iv 5)
        (bit_xor (word_at iv 4) counter))

  pub start-lanes :
      (cv : List ℕ) (block_len counter flags : ℕ)
      → each lanes (start_vectors cv block_len counter flags)
        ≡ start_rows cv block_len counter flags
  start-lanes cv n k f = simp (lanes-loadu, lanes-set_epi64x)

  pub block-lanes :
      (block : List ℕ)
      → listed (lanes (loadu_bytes block))
          ++ (listed (lanes (loadu_bytes (drop 32 block)))
              ++ (listed (lanes (loadu_bytes (drop 64 block)))
                  ++ listed (lanes (loadu_bytes (drop 96 block)))))
        ≡ load_words 16 block
  block-lanes block = (simp lanes-loadu_bytes) ∙ sym (load_words-bytes4 block)

  -- The output from rows that the rounds left.
  pub output-portable :
      (q : Four M256) (cv block : List ℕ) (block_len counter flags : ℕ)
      → each lanes q
        ≡ rounds_rows (load_words 16 block) sigma (start_rows cv block_len counter flags)
      → flat (each lanes (output_vectors q cv))
        ≡ compress_portable (eight cv) block block_len counter flags
  output-portable q cv block n k f e =
      ap flat (output-lanes q cv ∙ ap (λ r. output_rows r cv) e)
      ∙ sym (compress_portable-rows cv block n k f)

  module _ (g : M256 → M256 → M256 → M256 → M256 → M256 → Four M256)
      (g-lanes : (a b c d mx my : M256)
        → each lanes (g a b c d mx my)
          ≡ mix_rows (four (lanes a) (lanes b) (lanes c) (lanes d)) (lanes mx) (lanes my)) where
    -- One pass of the loop, over the mixing `g`.
    abbrev pub round_vectors : List ℕ → List ℕ → Four M256 → Four M256
    round_vectors m s q =
        let w = λ (i : ℕ). word_at m (word_at s i) in
        let t = skew_vectors (
          g q.w0 q.w1 q.w2 q.w3 (set_epi64x (w 6) (w 4) (w 2) (w 0))
            (set_epi64x (w 7) (w 5) (w 3) (w 1))) in
        unskew_vectors (
          g t.w0 t.w1 t.w2 t.w3 (set_epi64x (w 14) (w 12) (w 10) (w 8))
            (set_epi64x (w 15) (w 13) (w 11) (w 9)))

    -- A mixing with message words in their lanes.
    mixed-lanes :
        (q : Four M256) (x0 x1 x2 x3 y0 y1 y2 y3 : ℕ)
        → each lanes (g q.w0 q.w1 q.w2 q.w3 (set_epi64x x3 x2 x1 x0) (set_epi64x y3 y2 y1 y0))
          ≡ mix_rows (each lanes q) (four x0 x1 x2 x3) (four y0 y1 y2 y3)
    mixed-lanes q x0 x1 x2 x3 y0 y1 y2 y3 =
        g-lanes q.w0 q.w1 q.w2 q.w3 _ _
        ∙ ap₂ (mix_rows (each lanes q)) (lanes-set_epi64x x0 x1 x2 x3)
            (lanes-set_epi64x y0 y1 y2 y3)

    pub round-lanes :
        (m s : List ℕ) (q : Four M256)
        → each lanes (round_vectors m s q) ≡ round_rows m s (each lanes q)
    unfolding round_rows
    round-lanes m s q =
        let w = λ (i : ℕ). word_at m (word_at s i) in
        let column =
          g q.w0 q.w1 q.w2 q.w3 (set_epi64x (w 6) (w 4) (w 2) (w 0))
            (set_epi64x (w 7) (w 5) (w 3) (w 1)) in
        unskew-lanes _
        ∙ ap unskew (
            mixed-lanes (skew_vectors column) (w 8) (w 10) (w 12) (w 14) (w 9) (w 11) (w 13) (w 15)
            ∙ ap
                (λ r.
                  mix_rows r (four (w 8) (w 10) (w 12) (w 14)) (four (w 9) (w 11) (w 13) (w 15)))
                (skew-lanes column
                  ∙ ap skew (mixed-lanes q (w 0) (w 2) (w 4) (w 6) (w 1) (w 3) (w 5) (w 7))))
