-- ===== src/Simd/Scalar/Portable.antt =====
-- src/blake4_simd.c computes what the portable compression function does.
use blake.Base.{
  ℕ, subst, ◌≡◌, refl, sym, ap, ap₂, ◌∙◌, arith, bit_xor, List, [], ◌∷◌, ◌++◌, Option, none, some,
}
use blake.Base.{length, take, drop, length-drop, take_all, take-append-drop}
use blake.Word.{rotr64, load_words}
use blake.Compress.{
  iv, sigma, word_at, add_word, add_words, xor_rotate, g_portable, round, rounds, init_state,
  compress_portable,
}
use blake.Simd.Vectors.{Avx, Avx512, listed}
use blake.Simd.Mixing.{flat}
use blake.Simd.Words.{IsPortable, init_state-rows, start_rows, eight_words}
use blake.Simd.Lanes.{block-lanes}
use blake.Simd.Scalar.{
  g_macro, round_macro, rounds_macro, out_words, scalar_state, compress_avx2, compress_avx512,
  compress_neon, Build, built_avx512, built_avx2, built_neon, built_portable, get_compress_impl,
  simd_available,
}

g_macro-portable :
    (s : List ℕ) (a b c d mx my : ℕ) → g_macro s a b c d mx my ≡ g_portable s a b c d mx my
unfolding g_macro g_portable add_word add_words xor_rotate rotr64
g_macro-portable s a b c d mx my = refl

round_macro-portable : (m s state : List ℕ) → round_macro m s state ≡ round m s state
unfolding round_macro round
round_macro-portable m s state = simp g_macro-portable

rounds_macro-portable :
    (m : List ℕ) (schedule : List (List ℕ)) (state : List ℕ)
    → rounds_macro m schedule state ≡ rounds m schedule state
unfolding rounds_macro rounds
rounds_macro-portable m [] state = refl
rounds_macro-portable m (s ∷ schedule) state =
    rounds_macro-portable m schedule (round_macro m s state)
    ∙ ap (rounds m schedule) (round_macro-portable m s state)

-- The same words and the same state give the same output.
from_state :
    (cv block : List ℕ) (n k f : ℕ) {msg state : List ℕ}
    → msg ≡ load_words 16 block
    → state ≡ init_state cv n k f
    → out_words (rounds_macro msg sigma state) cv ≡ compress_portable cv block n k f
unfolding compress_portable
from_state cv block n k f {msg} {state} em es =
    ap (λ r. out_words r cv)
      (rounds_macro-portable msg sigma state ∙ ap₂ (λ m s. rounds m sigma s) em es)

scalar_state-init :
    (cv : List ℕ) (n k f : ℕ) → length cv ≡ 8 → scalar_state cv n k f ≡ init_state cv n k f
unfolding scalar_state init_state
scalar_state-init cv n k f h =
    subst (λ c. scalar_state c n k f ≡ init_state c n k f) (eight_words cv h) refl

length-scalar_state :
    (cv : List ℕ) (n k f : ℕ) → length cv ≡ 8 → length (scalar_state cv n k f) ≡ 16
unfolding scalar_state
length-scalar_state cv n k f h =
    subst (λ c. length (scalar_state c n k f) ≡ 16) (eight_words cv h) refl

pub compress_neon-portable :
    (cv block : List ℕ) (n k f : ℕ)
    → length cv ≡ 8
    → compress_neon cv block n k f ≡ compress_portable cv block n k f
unfolding compress_neon
compress_neon-portable cv block n k f h =
    from_state cv block n k f refl (scalar_state-init cv n k f h)

pub compress_avx512-portable :
    (z : Avx512) (cv block : List ℕ) (n k f : ℕ)
    → length cv ≡ 8
    → compress_avx512 z cv block n k f ≡ compress_portable cv block n k f
unfolding compress_avx512
compress_avx512-portable z cv block n k f h =
    let state = scalar_state cv n k f in
    let size : length state ≡ 16 = length-scalar_state cv n k f h in
    let low : z.storeu_si512 (z.loadu_si512 state) ≡ take 8 state =
      z.storeu-loadu state (omega (arith, size)) in
    let rest : length (drop 8 state) ≡ 8 = length-drop 8 state ∙ omega (arith, size) in
    let high : z.storeu_si512 (z.loadu_si512 (drop 8 state)) ≡ drop 8 state =
      z.storeu-loadu (drop 8 state) (omega (arith, rest))
      ∙ take_all 8 (drop 8 state) (omega (arith, rest)) in
    from_state cv block n k f refl
      (ap₂ ◌++◌ low high ∙ take-append-drop 8 state ∙ scalar_state-init cv n k f h)

pub compress_avx2-portable :
    (v : Avx) (cv block : List ℕ) (n k f : ℕ)
    → length cv ≡ 8
    → compress_avx2 v cv block n k f ≡ compress_portable cv block n k f
unfolding compress_avx2
compress_avx2-portable v cv block n k f h = from_state cv block n k f (block-lanes v block) (
    stored_state ∙ sym (init_state-rows cv n k f) ∙ ap (λ c. init_state c n k f) (eight_words cv h))
  where
    row3 : List ℕ
    row3 =
        bit_xor (word_at iv 4) k
        ∷ word_at iv 5
        ∷ bit_xor (word_at iv 6) n
        ∷ bit_xor (word_at iv 7) f
        ∷ []

    stored_state :
        listed (v.lanes (v.loadu cv))
          ++ (listed (v.lanes (v.loadu (drop 4 cv)))
              ++ (listed (v.lanes (v.loadu iv)) ++ listed (v.lanes (v.loadu row3))))
        ≡ flat (start_rows cv n k f)
    stored_state = λ i.
        listed (v.lanes-loadu cv i)
        ++ (listed (v.lanes-loadu (drop 4 cv) i)
            ++ (listed (v.lanes-loadu iv i) ++ listed (v.lanes-loadu row3 i)))

-- There is a function, and it computes what the portable one does, exactly where the library says
-- that one is available.
abbrev pub Serves : ℕ → Option (List ℕ → List ℕ → ℕ → ℕ → ℕ → List ℕ) → Type 0
Serves available none = available ≡ 0
Serves available (some compress) = (available ≡ 1) × IsPortable compress

-- In every build: there is no vector function where blake4_simd_available returns 0; where there
-- is one it returns 1, and the function computes what the portable function does from a chaining
-- value of eight words.
pub get_compress_impl-Serves :
    (v : Avx) (z : Avx512) (b : Build) → Serves (simd_available b) (get_compress_impl v z b)
unfolding get_compress_impl simd_available
get_compress_impl-Serves v z built_avx512 = (refl, compress_avx512-portable z)
get_compress_impl-Serves v z built_avx2 = (refl, compress_avx2-portable v)
get_compress_impl-Serves v z built_neon = (refl, compress_neon-portable)
get_compress_impl-Serves v z built_portable = refl
