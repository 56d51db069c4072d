-- ===== src/Simd/Scalar.antt =====
-- src/blake4_simd.c: compression functions that load through vectors and mix word by word, and the
-- choice among them when the library is built.
pub mod Portable
use blake.Base.{
  ℕ, ◌+◌, ◌-◌, bit_or, bit_xor, List, [], ◌∷◌, ◌++◌, set, take, drop, Option, none, some,
}
use blake.Word.{u64, shr, shl64, load_words}
use blake.Compress.{iv, sigma, word_at, xor_words}
use blake.Simd.Vectors.{listed, Avx, Avx512}

-- `(x >> n) | (x << (64 - n))`
abbrev pub turned : ℕ → ℕ → ℕ
turned x n = bit_or (shr x n) (shl64 x (64 - n))

-- The macros G_AVX2, G_AVX512 and G_NEON, which are the same but for their names.
unfoldable pub g_macro : List ℕ → ℕ → ℕ → ℕ → ℕ → ℕ → ℕ → List ℕ
g_macro s0 a b c d mx my =
    let s1 = set s0 a (u64 (u64 (word_at s0 a + word_at s0 b) + mx)) in
    let s2 = set s1 d (turned (bit_xor (word_at s1 d) (word_at s1 a)) 32) in
    let s3 = set s2 c (u64 (word_at s2 c + word_at s2 d)) in
    let s4 = set s3 b (turned (bit_xor (word_at s3 b) (word_at s3 c)) 24) in
    let s5 = set s4 a (u64 (u64 (word_at s4 a + word_at s4 b) + my)) in
    let s6 = set s5 d (turned (bit_xor (word_at s5 d) (word_at s5 a)) 16) in
    let s7 = set s6 c (u64 (word_at s6 c + word_at s6 d)) in
    set s7 b (turned (bit_xor (word_at s7 b) (word_at s7 c)) 63)

-- One pass of the loop, which the three functions share.
unfoldable pub round_macro : List ℕ → List ℕ → List ℕ → List ℕ
round_macro msg s state0 =
    let w = λ (i : ℕ). word_at msg (word_at s i) in
    let state1 = g_macro state0 0 4 8 12 (w 0) (w 1) in
    let state2 = g_macro state1 1 5 9 13 (w 2) (w 3) in
    let state3 = g_macro state2 2 6 10 14 (w 4) (w 5) in
    let state4 = g_macro state3 3 7 11 15 (w 6) (w 7) in
    let state5 = g_macro state4 0 5 10 15 (w 8) (w 9) in
    let state6 = g_macro state5 1 6 11 12 (w 10) (w 11) in
    let state7 = g_macro state6 2 7 8 13 (w 12) (w 13) in g_macro state7 3 4 9 14 (w 14) (w 15)

unfoldable pub rounds_macro : List ℕ → List (List ℕ) → List ℕ → List ℕ
rounds_macro msg [] state = state
rounds_macro msg (s ∷ schedule) state = rounds_macro msg schedule (round_macro msg s state)

-- The two loops that fill `out`.
abbrev pub out_words : List ℕ → List ℕ → List ℕ
out_words state cv = xor_words 8 state (drop 8 state) ++ xor_words 8 (drop 8 state) cv

-- `memcpy(state, cv, 64); memcpy(state + 8, IV, 64);` and the three updates behind them.
unfoldable pub scalar_state : List ℕ → ℕ → ℕ → ℕ → List ℕ
scalar_state cv block_len counter flags =
    let s0 = take 8 cv ++ iv in
    let s1 = set s0 12 (bit_xor (word_at s0 12) counter) in
    let s2 = set s1 14 (bit_xor (word_at s1 14) block_len) in
    set s2 15 (bit_xor (word_at s2 15) flags)

unfoldable pub compress_avx2 : Avx → List ℕ → List ℕ → ℕ → ℕ → ℕ → List ℕ
compress_avx2 v cv block block_len counter flags =
    let row3_vals : List ℕ =
      bit_xor (word_at iv 4) counter
      ∷ word_at iv 5
      ∷ bit_xor (word_at iv 6) block_len
      ∷ bit_xor (word_at iv 7) flags
      ∷ [] in
    let stored = λ (x : v.M256). listed (v.lanes x) in
    let msg =
      stored (v.loadu_bytes block)
      ++ (stored (v.loadu_bytes (drop 32 block))
          ++ (stored (v.loadu_bytes (drop 64 block)) ++ stored (v.loadu_bytes (drop 96 block)))) in
    let state =
      stored (v.loadu cv)
      ++ (stored (v.loadu (drop 4 cv)) ++ (stored (v.loadu iv) ++ stored (v.loadu row3_vals))) in
    out_words (rounds_macro msg sigma state) cv

unfoldable pub compress_avx512 : Avx512 → List ℕ → List ℕ → ℕ → ℕ → ℕ → List ℕ
compress_avx512 z cv block block_len counter flags =
    let state = scalar_state cv block_len counter flags in
    let state_lo = z.loadu_si512 state in
    let state_hi = z.loadu_si512 (drop 8 state) in
    let stored = z.storeu_si512 state_lo ++ z.storeu_si512 state_hi in
    out_words (rounds_macro (load_words 16 block) sigma stored) cv

unfoldable pub compress_neon : List ℕ → List ℕ → ℕ → ℕ → ℕ → List ℕ
compress_neon cv block block_len counter flags =
    let state = scalar_state cv block_len counter flags in
    out_words (rounds_macro (load_words 16 block) sigma state) cv

-- Which of BLAKE4_AVX512, BLAKE4_AVX2 and BLAKE4_NEON the build defines.
pub data Build : Type 0 where
  built_avx512 built_avx2 built_neon built_portable : Build

-- The strings of `blake4_simd_name`.
pub data SimdName : Type 0 where
  avx512_name avx2_name neon_name portable_name : SimdName

unfoldable pub get_compress_impl :
    Avx → Avx512 → Build → Option (List ℕ → List ℕ → ℕ → ℕ → ℕ → List ℕ)
get_compress_impl v z built_avx512 = some (compress_avx512 z)
get_compress_impl v z built_avx2 = some (compress_avx2 v)
get_compress_impl v z built_neon = some compress_neon
get_compress_impl v z built_portable = none

unfoldable pub simd_available : Build → ℕ
simd_available built_portable = 0
simd_available built_avx512 = 1
simd_available built_avx2 = 1
simd_available built_neon = 1

unfoldable pub simd_name : Build → SimdName
simd_name built_avx512 = avx512_name
simd_name built_avx2 = avx2_name
simd_name built_neon = neon_name
simd_name built_portable = portable_name
