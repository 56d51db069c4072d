-- ===== src/Word/Endian.antt =====
-- Loads undo stores, for single words and for arrays of words.
use blake.Base.{ℕ, ◌+◌, ◌*◌, ◌^◌, ◌<◌, ◌≡◌, refl, sym, ap, ap₂, ◌∙◌, arith}
use blake.Base.{List, [], ◌∷◌, ◌++◌, All, length, length-append, drop, bit_or}
use blake.Base.{append_assoc, append-nil}
use blake.Bits.Fields.{bit_or_low_high}
use blake.Word.{
  IsWord, IsByte, shl64, load64_le, store64_le, load_words, words_from_bytes, words_to_bytes,
}

-- One more byte above `k` digits.
or_byte :
    (k acc b : ℕ) → acc < 2 ^ k → b * 2 ^ k < 2 ^ 64 → bit_or acc (shl64 b k) ≡ acc + b * 2 ^ k
or_byte k acc b h fits = ap (λ (t : ℕ). bit_or acc t) (omega arith) ∙ bit_or_low_high k acc b h

-- The load as a sum.
load64_le_sum :
    (b0 b1 b2 b3 b4 b5 b6 b7 : ℕ) (rest : List ℕ)
    → IsByte b0
    → IsByte b1
    → IsByte b2
    → IsByte b3
    → IsByte b4
    → IsByte b5
    → IsByte b6
    → IsByte b7
    → load64_le (b0 ∷ b1 ∷ b2 ∷ b3 ∷ b4 ∷ b5 ∷ b6 ∷ b7 ∷ rest)
      ≡ b0
        + b1 * 2 ^ 8
        + b2 * 2 ^ 16
        + b3 * 2 ^ 24
        + b4 * 2 ^ 32
        + b5 * 2 ^ 40
        + b6 * 2 ^ 48
        + b7 * 2 ^ 56
unfolding load64_le
load64_le_sum b0 b1 b2 b3 b4 b5 b6 b7 rest h0 h1 h2 h3 h4 h5 h6 h7 = rw (
  or_byte 8 b0 b1 (omega arith) (omega arith),
  or_byte 16 (b0 + b1 * 2 ^ 8) b2 (omega arith) (omega arith),
  or_byte 24 (b0 + b1 * 2 ^ 8 + b2 * 2 ^ 16) b3 (omega arith) (omega arith),
  or_byte 32 (b0 + b1 * 2 ^ 8 + b2 * 2 ^ 16 + b3 * 2 ^ 24) b4 (omega arith) (omega arith),
  or_byte 40 (b0 + b1 * 2 ^ 8 + b2 * 2 ^ 16 + b3 * 2 ^ 24 + b4 * 2 ^ 32) b5 (omega arith)
      (omega arith),
  or_byte 48 (b0 + b1 * 2 ^ 8 + b2 * 2 ^ 16 + b3 * 2 ^ 24 + b4 * 2 ^ 32 + b5 * 2 ^ 40) b6
      (omega arith) (omega arith),
  or_byte 56 (b0 + b1 * 2 ^ 8 + b2 * 2 ^ 16 + b3 * 2 ^ 24 + b4 * 2 ^ 32 + b5 * 2 ^ 40 + b6 * 2 ^ 48)
      b7 (omega arith) (omega arith),
)

-- Whatever follows it in memory, a stored word is loaded back.
pub load64_le-store64_le : (x : ℕ) (rest : List ℕ) → IsWord x → load64_le (store64_le x ++ rest) ≡ x
unfolding store64_le
load64_le-store64_le x rest h =
    load64_le_sum _ _ _ _ _ _ _ _ rest (omega arith) (omega arith) (omega arith) (omega arith)
      (omega arith) (omega arith) (omega arith) (omega arith)
    ∙ omega arith

pub length-store64_le : (x : ℕ) → length (store64_le x) ≡ 8
unfolding store64_le
length-store64_le x = refl

pub drop-store64_le : (x : ℕ) (rest : List ℕ) → drop 8 (store64_le x ++ rest) ≡ rest
unfolding store64_le
drop-store64_le x rest = refl

-- An array of words stored and loaded back, whatever follows it.
pub load_words-words_to_bytes :
    (ws rest : List ℕ) → All IsWord ws → load_words (length ws) (words_to_bytes ws ++ rest) ≡ ws
unfolding load_words words_to_bytes
load_words-words_to_bytes [] rest h = refl
load_words-words_to_bytes (w ∷ ws) rest h =
    rw (append_assoc (store64_le w) (words_to_bytes ws) rest) (
      ap₂ ◌∷◌ (load64_le-store64_le w (words_to_bytes ws ++ rest) h.0) (
        rw (drop-store64_le w (words_to_bytes ws ++ rest)) (load_words-words_to_bytes ws rest h.1)))

pub length-words_to_bytes : (ws : List ℕ) → length (words_to_bytes ws) ≡ 8 * length ws
unfolding words_to_bytes
length-words_to_bytes [] = omega arith
length-words_to_bytes (w ∷ ws) = omega (
  arith,
  length-append (store64_le w) (words_to_bytes ws),
  length-store64_le w,
  length-words_to_bytes ws,
)

-- Eight 64-bit words, stored as bytes and loaded back, are the same words.
pub words_from_bytes-words_to_bytes :
    (ws : List ℕ) → length ws ≡ 8 → All IsWord ws → words_from_bytes (words_to_bytes ws) ≡ ws
unfolding words_from_bytes
words_from_bytes-words_to_bytes ws n h =
    ap (λ k. load_words k (words_to_bytes ws)) (sym n)
    ∙ ap (λ p. load_words (length ws) p) (sym (append-nil (words_to_bytes ws)))
    ∙ load_words-words_to_bytes ws [] h
