-- ===== src/Compress.antt =====
-- src/blake4_dispatch.c: the constants and the portable compression function, and the interface
-- by which the hasher calls whichever implementation is installed.
pub mod Bounds
mod Tests
use blake.Base.{ℕ, zero, suc, ◌+◌, ◌-◌, ◌%◌, ◌^◌, ◌≡◌, bit_xor, List, [], ◌∷◌, ◌++◌}
use blake.Base.{All, length, get_or, set, drop, take}
use blake.Word.{IsWord, IsByte, u64, rotr64, load_words}

abbrev pub iv : List ℕ
iv =
    0x6A09E667F3BCC908 ∷ 0xBB67AE8584CAA73B ∷ 0x3C6EF372FE94F82B ∷ 0xA54FF53A5F1D36F1
    ∷ 0x510E527FADE682D1 ∷ 0x9B05688C2B3E6C1F ∷ 0x1F83D9ABFB41BD6B ∷ 0x5BE0CD19137E2179 ∷ []

abbrev pub sigma : List (List ℕ)
sigma =
    (0 ∷ 1 ∷ 2 ∷ 3 ∷ 4 ∷ 5 ∷ 6 ∷ 7 ∷ 8 ∷ 9 ∷ 10 ∷ 11 ∷ 12 ∷ 13 ∷ 14 ∷ 15 ∷ [])
    ∷ (14 ∷ 10 ∷ 4 ∷ 8 ∷ 9 ∷ 15 ∷ 13 ∷ 6 ∷ 1 ∷ 12 ∷ 0 ∷ 2 ∷ 11 ∷ 7 ∷ 5 ∷ 3 ∷ [])
    ∷ (11 ∷ 8 ∷ 12 ∷ 0 ∷ 5 ∷ 2 ∷ 15 ∷ 13 ∷ 10 ∷ 14 ∷ 3 ∷ 6 ∷ 7 ∷ 1 ∷ 9 ∷ 4 ∷ [])
    ∷ (7 ∷ 9 ∷ 3 ∷ 1 ∷ 13 ∷ 12 ∷ 11 ∷ 14 ∷ 2 ∷ 6 ∷ 5 ∷ 10 ∷ 4 ∷ 0 ∷ 15 ∷ 8 ∷ [])
    ∷ (9 ∷ 0 ∷ 5 ∷ 7 ∷ 2 ∷ 4 ∷ 10 ∷ 15 ∷ 14 ∷ 1 ∷ 11 ∷ 12 ∷ 6 ∷ 8 ∷ 3 ∷ 13 ∷ [])
    ∷ (2 ∷ 12 ∷ 6 ∷ 10 ∷ 0 ∷ 11 ∷ 8 ∷ 3 ∷ 4 ∷ 13 ∷ 7 ∷ 5 ∷ 15 ∷ 14 ∷ 1 ∷ 9 ∷ [])
    ∷ (12 ∷ 5 ∷ 1 ∷ 15 ∷ 14 ∷ 13 ∷ 4 ∷ 10 ∷ 0 ∷ 7 ∷ 6 ∷ 3 ∷ 9 ∷ 2 ∷ 8 ∷ 11 ∷ [])
    ∷ (13 ∷ 11 ∷ 7 ∷ 14 ∷ 12 ∷ 1 ∷ 3 ∷ 9 ∷ 5 ∷ 0 ∷ 15 ∷ 4 ∷ 8 ∷ 6 ∷ 2 ∷ 10 ∷ [])
    ∷ (6 ∷ 15 ∷ 14 ∷ 9 ∷ 11 ∷ 3 ∷ 0 ∷ 8 ∷ 12 ∷ 2 ∷ 13 ∷ 7 ∷ 1 ∷ 4 ∷ 10 ∷ 5 ∷ [])
    ∷ (10 ∷ 2 ∷ 8 ∷ 4 ∷ 7 ∷ 6 ∷ 1 ∷ 5 ∷ 15 ∷ 11 ∷ 9 ∷ 14 ∷ 3 ∷ 12 ∷ 13 ∷ 0 ∷ [])
    ∷ []

-- `state[i]`; every index that the code uses is below 16.
abbrev pub word_at : List ℕ → ℕ → ℕ
word_at state i = get_or state i 0

-- `state[x] = state[x] + state[y]` and `state[x] = state[x] + state[y] + m`, wrapping at 64 bits.
unfoldable pub add_word : List ℕ → ℕ → ℕ → List ℕ
add_word state x y = set state x (u64 (word_at state x + word_at state y))

unfoldable pub add_words : List ℕ → ℕ → ℕ → ℕ → List ℕ
add_words state x y m = set state x (u64 (u64 (word_at state x + word_at state y) + m))

-- `state[x] = rotr64(state[x] ^ state[y], n)`.
unfoldable pub xor_rotate : List ℕ → ℕ → ℕ → ℕ → List ℕ
xor_rotate state x y n = set state x (rotr64 (bit_xor (word_at state x) (word_at state y)) n)

unfoldable pub g_portable : List ℕ → ℕ → ℕ → ℕ → ℕ → ℕ → ℕ → List ℕ
g_portable s0 a b c d mx my =
    let s1 = add_words s0 a b mx in
    let s2 = xor_rotate s1 d a 32 in
    let s3 = add_word s2 c d in
    let s4 = xor_rotate s3 b c 24 in
    let s5 = add_words s4 a b my in
    let s6 = xor_rotate s5 d a 16 in let s7 = add_word s6 c d in xor_rotate s7 b c 63

-- One round: the column step and the diagonal step, with row `s` of the schedule.
unfoldable pub round : List ℕ → List ℕ → List ℕ → List ℕ
round m s state0 =
    let w = λ (i : ℕ). word_at m (word_at s i) in
    let state1 = g_portable state0 0 4 8 12 (w 0) (w 1) in
    let state2 = g_portable state1 1 5 9 13 (w 2) (w 3) in
    let state3 = g_portable state2 2 6 10 14 (w 4) (w 5) in
    let state4 = g_portable state3 3 7 11 15 (w 6) (w 7) in
    let state5 = g_portable state4 0 5 10 15 (w 8) (w 9) in
    let state6 = g_portable state5 1 6 11 12 (w 10) (w 11) in
    let state7 = g_portable state6 2 7 8 13 (w 12) (w 13) in
    g_portable state7 3 4 9 14 (w 14) (w 15)

unfoldable pub rounds : List ℕ → List (List ℕ) → List ℕ → List ℕ
rounds m [] state = state
rounds m (s ∷ rows) state = rounds m rows (round m s state)

unfoldable pub init_state : List ℕ → ℕ → ℕ → ℕ → List ℕ
init_state cv block_len counter flags =
    take 8 cv
    ++ word_at iv 0
      ∷ word_at iv 1
      ∷ word_at iv 2
      ∷ word_at iv 3
      ∷ bit_xor (word_at iv 4) counter
      ∷ word_at iv 5
      ∷ bit_xor (word_at iv 6) block_len
      ∷ bit_xor (word_at iv 7) flags
      ∷ []

-- `for (i = 0; i < n; i++) out[i] = a[i] ^ b[i]`
unfoldable pub xor_words : ℕ → List ℕ → List ℕ → List ℕ
xor_words zero a b = []
xor_words (suc n) a b = bit_xor (word_at a 0) (word_at b 0) ∷ xor_words n (drop 1 a) (drop 1 b)

-- The sixteen words left in `out`.
unfoldable pub compress_portable : List ℕ → List ℕ → ℕ → ℕ → ℕ → List ℕ
compress_portable cv block block_len counter flags =
    let m = load_words 16 block in
    let state = rounds m sigma (init_state cv block_len counter flags) in
    xor_words 8 state (drop 8 state) ++ xor_words 8 (drop 8 state) cv

-- What the hasher relies on of the function behind `g_compress_fn`: from eight words and a block
-- of bytes it makes sixteen words.
pub record Compressor : Type 0 where
  pub compress : List ℕ → List ℕ → ℕ → ℕ → ℕ → List ℕ
  pub compress_length :
      (cv block : List ℕ) (block_len counter flags : ℕ)
      → length (compress cv block block_len counter flags) ≡ 16
  pub compress_words :
      (cv block : List ℕ) (block_len counter flags : ℕ)
      → All IsWord cv
      → All IsByte block
      → IsWord block_len
      → IsWord counter
      → IsWord flags
      → All IsWord (compress cv block block_len counter flags)
