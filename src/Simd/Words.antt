-- ===== src/Simd/Words.antt =====
-- The inputs of a compression function as the words that the vector back ends load.
use blake.Base.{
  ℕ, bit_or, ◌≡◌, refl, ap, ◌∙◌, arith, List, [], ◌∷◌, ◌++◌, length, drop, drop-drop, bit_xor,
}
use blake.Word.{load64_le, load_words, rotr64}
use blake.Compress.{iv, word_at, init_state, xor_words, compress_portable, rounds, sigma}
use blake.Simd.Vectors.{joined, low_half, high_half, Four, four, listed, each2}
use blake.Simd.Mixing.{Rows, flat, rounds_rows, rounds-flat}

-- Four words that a load takes from `p`, and four that it takes from bytes.
abbrev pub words4 : List ℕ → Four ℕ
words4 p = four (word_at p 0) (word_at p 1) (word_at p 2) (word_at p 3)

abbrev pub bytes4 : List ℕ → Four ℕ
bytes4 p = four (load64_le p) (load64_le (drop 8 p)) (load64_le (drop 16 p)) (load64_le (drop 24 p))

pub load_words-bytes4 :
    (block : List ℕ)
    → load_words 16 block
      ≡ listed (bytes4 block)
        ++ (listed (bytes4 (drop 32 block))
            ++ (listed (bytes4 (drop 64 block)) ++ listed (bytes4 (drop 96 block))))
unfolding load_words
load_words-bytes4 block = simp drop-drop

-- The rows before the first round.
abbrev pub start_rows : List ℕ → ℕ → ℕ → ℕ → Rows
start_rows cv block_len counter flags = four (words4 cv) (words4 (drop 4 cv)) (words4 iv) (
    four (bit_xor (word_at iv 4) counter) (word_at iv 5) (bit_xor (word_at iv 6) block_len)
      (bit_xor (word_at iv 7) flags))

-- The rows combined with one another and with the chaining value.
abbrev pub output_rows : Rows → List ℕ → Rows
output_rows q cv =
    four (each2 bit_xor q.w0 q.w2) (each2 bit_xor q.w1 q.w3) (each2 bit_xor q.w2 (words4 cv))
      (each2 bit_xor q.w3 (words4 (drop 4 cv)))

-- The eight words that two loads of four take.
abbrev pub eight : List ℕ → List ℕ
eight cv = listed (words4 cv) ++ listed (words4 (drop 4 cv))

pub eight_words : (cv : List ℕ) → length cv ≡ 8 → eight cv ≡ cv
eight_words (c0 ∷ c1 ∷ c2 ∷ c3 ∷ c4 ∷ c5 ∷ c6 ∷ c7 ∷ []) h = refl
eight_words [] h = absurd (omega (arith, h))
eight_words (c0 ∷ []) h = absurd (omega (arith, h))
eight_words (c0 ∷ c1 ∷ []) h = absurd (omega (arith, h))
eight_words (c0 ∷ c1 ∷ c2 ∷ []) h = absurd (omega (arith, h))
eight_words (c0 ∷ c1 ∷ c2 ∷ c3 ∷ []) h = absurd (omega (arith, h))
eight_words (c0 ∷ c1 ∷ c2 ∷ c3 ∷ c4 ∷ []) h = absurd (omega (arith, h))
eight_words (c0 ∷ c1 ∷ c2 ∷ c3 ∷ c4 ∷ c5 ∷ []) h = absurd (omega (arith, h))
eight_words (c0 ∷ c1 ∷ c2 ∷ c3 ∷ c4 ∷ c5 ∷ c6 ∷ []) h = absurd (omega (arith, h))
eight_words (c0 ∷ c1 ∷ c2 ∷ c3 ∷ c4 ∷ c5 ∷ c6 ∷ c7 ∷ c8 ∷ cv) h = absurd (omega (arith, h))

-- The state that the portable function starts from, as rows.
pub init_state-rows :
    (cv : List ℕ) (block_len counter flags : ℕ)
    → init_state (eight cv) block_len counter flags ≡ flat (start_rows cv block_len counter flags)
unfolding init_state
init_state-rows cv n k f = refl

output-flat :
    (q : Rows) (cv : List ℕ)
    → xor_words 8 (flat q) (drop 8 (flat q)) ++ xor_words 8 (drop 8 (flat q)) (eight cv)
      ≡ flat (output_rows q cv)
unfolding xor_words
output-flat q cv = refl

-- The portable function on rows.
pub compress_portable-rows :
    (cv block : List ℕ) (block_len counter flags : ℕ)
    → compress_portable (eight cv) block block_len counter flags
      ≡ flat (
          output_rows
            (rounds_rows (load_words 16 block) sigma (start_rows cv block_len counter flags))
            cv)
unfolding compress_portable
compress_portable-rows cv block n k f =
    ap (λ state. xor_words 8 state (drop 8 state) ++ xor_words 8 (drop 8 state) (eight cv))
      (ap (rounds (load_words 16 block) sigma) (init_state-rows cv n k f)
        ∙ rounds-flat (load_words 16 block) sigma (start_rows cv n k f))
    ∙ output-flat (rounds_rows (load_words 16 block) sigma (start_rows cv n k f)) cv

-- What a caller of a compression function relies on: with eight words it computes what the
-- portable function does.
abbrev pub IsPortable : (List ℕ → List ℕ → ℕ → ℕ → ℕ → List ℕ) → Type 0
IsPortable compress =
    (cv block : List ℕ) (block_len counter flags : ℕ)
    → length cv ≡ 8
    → compress cv block block_len counter flags ≡ compress_portable cv block block_len counter flags

-- A function that reads eight words whatever it is given.
abbrev pub ReadsEight : (List ℕ → List ℕ → ℕ → ℕ → ℕ → List ℕ) → Type 0
ReadsEight compress =
    (cv block : List ℕ) (block_len counter flags : ℕ)
    → compress cv block block_len counter flags
      ≡ compress_portable (eight cv) block block_len counter flags

module _ (compress : List ℕ → List ℕ → ℕ → ℕ → ℕ → List ℕ) (reads : ReadsEight compress) where
  pub ReadsEight-IsPortable : IsPortable compress
  ReadsEight-IsPortable cv block n k f h =
      reads cv block n k f ∙ ap (λ v. compress_portable v block n k f) (eight_words cv h)

-- Swapping the halves of a lane turns it by 32.
pub swap_halves : (w : ℕ) → joined (high_half w) (low_half w) ≡ rotr64 w 32
unfolding rotr64
swap_halves w = ap (bit_or (high_half w)) (omega arith)
