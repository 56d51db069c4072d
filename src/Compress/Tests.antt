-- ===== src/Compress/Tests.antt =====
-- The compression function on the single blocks of the published test vectors.
use blake.Base.{◌≡◌, refl, [], ◌∷◌, replicate, take}
use blake.Word.{rotr64, load64_le, words_to_bytes, store64_le, load_words}
use blake.Compress.{
  iv, compress_portable, rounds, round, g_portable, add_word, add_words, xor_rotate, init_state,
  xor_words,
}

empty_block :
    take 4 (words_to_bytes (compress_portable iv (replicate 128 0) 0 0 11))
    ≡ 0x74 ∷ 0x1c ∷ 0x4f ∷ 0xfd ∷ []
unfolding compress_portable rounds round g_portable add_word add_words xor_rotate init_state
    xor_words words_to_bytes store64_le rotr64 load64_le load_words
empty_block = refl
