-- ===== src/Compress/Bounds.antt =====
-- The portable compression function keeps sixteen words of 64 bits, whatever the schedule, and so
-- meets the interface of the hasher.
use blake.Base.{ℕ, zero, suc, ◌+◌, ◌≡◌, refl, ap, ap₂, ◌∙◌, arith, bit_xor}
use blake.Base.{List, [], ◌∷◌, All, length, length-append, drop, take}
use blake.Bits.Bounds.{bit_xor-lt}
use blake.Word.{IsWord, IsByte, u64, load_words}
use blake.Word.Range.{rotr64-IsWord, All-get_or, All-set, All-append, All-drop, All-take}
use blake.Compress.{
  iv, sigma, word_at, add_word, add_words, xor_rotate, g_portable, round, rounds, init_state,
  xor_words, compress_portable, Compressor,
}

u64-IsWord : (x : ℕ) → IsWord (u64 x)
u64-IsWord x = omega arith

xor-IsWord : (a b : ℕ) → IsWord a → IsWord b → IsWord (bit_xor a b)
xor-IsWord a b = bit_xor-lt 64 a b

word_at-IsWord : (s : List ℕ) (i : ℕ) → All IsWord s → IsWord (word_at s i)
word_at-IsWord s i h = All-get_or IsWord s i 0 (omega arith) h

add_word-words : (s : List ℕ) (x y : ℕ) → All IsWord s → All IsWord (add_word s x y)
unfolding add_word
add_word-words s x y h = All-set IsWord s x _ (u64-IsWord _) h

add_words-words : (s : List ℕ) (x y m : ℕ) → All IsWord s → All IsWord (add_words s x y m)
unfolding add_words
add_words-words s x y m h = All-set IsWord s x _ (u64-IsWord _) h

xor_rotate-words : (s : List ℕ) (x y n : ℕ) → All IsWord s → All IsWord (xor_rotate s x y n)
unfolding xor_rotate
xor_rotate-words s x y n h =
    All-set IsWord s x _
      (rotr64-IsWord _ n (xor-IsWord _ _ (word_at-IsWord s x h) (word_at-IsWord s y h))) h

g_portable-words :
    (s : List ℕ) (a b c d mx my : ℕ) → All IsWord s → All IsWord (g_portable s a b c d mx my)
g_portable-words s a b c d mx my h =
    unfold g_portable in
    xor_rotate-words _ b c 63 (
      add_word-words _ c d (
        xor_rotate-words _ d a 16 (
          add_words-words _ a b my (
            xor_rotate-words _ b c 24
              (add_word-words _ c d (xor_rotate-words _ d a 32 (add_words-words s a b mx h)))))))

round-words : (m s state : List ℕ) → All IsWord state → All IsWord (round m s state)
round-words m s state h =
    unfold round in
    g_portable-words _ 3 4 9 14 _ _ (
      g_portable-words _ 2 7 8 13 _ _ (
        g_portable-words _ 1 6 11 12 _ _ (
          g_portable-words _ 0 5 10 15 _ _ (
            g_portable-words _ 3 7 11 15 _ _ (
              g_portable-words _ 2 6 10 14 _ _
                (g_portable-words _ 1 5 9 13 _ _ (g_portable-words state 0 4 8 12 _ _ h)))))))

rounds-words :
    (m : List ℕ) (rows : List (List ℕ)) (state : List ℕ)
    → All IsWord state
    → All IsWord (rounds m rows state)
unfolding rounds
rounds-words m [] state h = h
rounds-words m (s ∷ rows) state h = rounds-words m rows (round m s state) (round-words m s state h)

init_state-words :
    (cv : List ℕ) (block_len counter flags : ℕ)
    → All IsWord cv
    → IsWord block_len
    → IsWord counter
    → IsWord flags
    → All IsWord (init_state cv block_len counter flags)
unfolding init_state
init_state-words cv block_len counter flags h hb hc hf =
    All-append IsWord (take 8 cv) _ (All-take IsWord 8 cv h) (
      omega (
        arith,
        xor-IsWord (word_at iv 4) counter (omega arith) hc,
        xor-IsWord (word_at iv 6) block_len (omega arith) hb,
        xor-IsWord (word_at iv 7) flags (omega arith) hf,
      ))

xor_words-words :
    (n : ℕ) (a b : List ℕ) → All IsWord a → All IsWord b → All IsWord (xor_words n a b)
unfolding xor_words
xor_words-words zero a b ha hb = tt
xor_words-words (suc n) a b ha hb = (
  xor-IsWord _ _ (word_at-IsWord a 0 ha) (word_at-IsWord b 0 hb),
  xor_words-words n (drop 1 a) (drop 1 b) (All-drop IsWord 1 a ha) (All-drop IsWord 1 b hb),
)

length-xor_words : (n : ℕ) (a b : List ℕ) → length (xor_words n a b) ≡ n
unfolding xor_words
length-xor_words zero a b = refl
length-xor_words (suc n) a b = ap suc (length-xor_words n (drop 1 a) (drop 1 b))

pub length-compress_portable :
    (cv block : List ℕ) (block_len counter flags : ℕ)
    → length (compress_portable cv block block_len counter flags) ≡ 16
unfolding compress_portable
length-compress_portable cv block block_len counter flags =
    length-append (xor_words 8 _ _) (xor_words 8 _ _)
    ∙ ap₂ ◌+◌ (length-xor_words 8 _ _) (length-xor_words 8 _ _)

-- The portable compression of a chaining value of 64-bit words and a block of bytes, with length,
-- counter and flags below 2^64, is sixteen 64-bit words.
pub compress_portable-words :
    (cv block : List ℕ) (block_len counter flags : ℕ)
    → All IsWord cv
    → All IsByte block
    → IsWord block_len
    → IsWord counter
    → IsWord flags
    → (length (compress_portable cv block block_len counter flags) ≡ 16)
      × All IsWord (compress_portable cv block block_len counter flags)
compress_portable-words cv block block_len counter flags hv hm hb hc hf =
    (length-compress_portable cv block block_len counter flags, words)
  where
    words : All IsWord (compress_portable cv block block_len counter flags)
    words =
        let state = rounds (load_words 16 block) sigma (init_state cv block_len counter flags) in
        let state_words : All IsWord state =
          rounds-words _ sigma _ (init_state-words cv block_len counter flags hv hb hc hf) in
        let low =
          xor_words-words 8 state (drop 8 state) state_words
            (All-drop IsWord 8 state state_words) in
        let high = xor_words-words 8 (drop 8 state) cv (All-drop IsWord 8 state state_words) hv in
        unfold compress_portable in
        All-append IsWord (xor_words 8 state (drop 8 state)) (xor_words 8 (drop 8 state) cv) low
          high

-- The portable function as what the hasher needs.
abbrev pub portable : Compressor
portable = record {
  compress = compress_portable;
  compress_length = length-compress_portable;
  compress_words =
      λ cv block n c f hv hm hb hc hf. (compress_portable-words cv block n c f hv hm hb hc hf).1;
}
