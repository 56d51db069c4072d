-- ===== src/Word/Range.antt =====
-- The word operations stay within 64 bits, and stored bytes within 8.
use blake.Base.{ℕ, zero, suc, ◌%◌, ◌^◌, ◌≡◌, refl, arith}
use blake.Base.{List, [], ◌∷◌, ◌++◌, All, length, drop, take, set, get_or, bit_or}
use blake.Bits.Bounds.{bit_or-lt}
use blake.Word.{IsWord, IsByte, shr, rotr64, byte_at, load64_le, store64_le}
use blake.Word.{load_words, words_to_bytes}

pub rotr64-IsWord : (x n : ℕ) → IsWord x → IsWord (rotr64 x n)
unfolding rotr64
rotr64-IsWord x n h = bit_or-lt 64 _ _ (shr-IsWord x n h) (omega arith)
  where
    shr-IsWord : (x n : ℕ) → IsWord x → IsWord (shr x n)
    shr-IsWord x n h = omega arith

pub All-get_or : (P : ℕ → Type 0) (xs : List ℕ) (i d : ℕ) → P d → All P xs → P (get_or xs i d)
All-get_or P [] i d base h = base
All-get_or P (x ∷ xs) zero d base h = h.0
All-get_or P (x ∷ xs) (suc i) d base h = All-get_or P xs i d base h.1

pub All-set : (P : ℕ → Type 0) (xs : List ℕ) (i v : ℕ) → P v → All P xs → All P (set xs i v)
All-set P [] i v new h = h
All-set P (x ∷ xs) zero v new h = (new, h.1)
All-set P (x ∷ xs) (suc i) v new h = (h.0, All-set P xs i v new h.1)

pub All-take : (P : ℕ → Type 0) (n : ℕ) (xs : List ℕ) → All P xs → All P (take n xs)
All-take P zero xs h = tt
All-take P (suc n) [] h = tt
All-take P (suc n) (x ∷ xs) h = (h.0, All-take P n xs h.1)

pub All-append : (P : ℕ → Type 0) (xs ys : List ℕ) → All P xs → All P ys → All P (xs ++ ys)
All-append P [] ys h k = k
All-append P (x ∷ xs) ys h k = (h.0, All-append P xs ys h.1 k)

pub All-append_left : (P : ℕ → Type 0) (xs ys : List ℕ) → All P (xs ++ ys) → All P xs
All-append_left P [] ys h = tt
All-append_left P (x ∷ xs) ys h = (h.0, All-append_left P xs ys h.1)

pub All-append_right : (P : ℕ → Type 0) (xs ys : List ℕ) → All P (xs ++ ys) → All P ys
All-append_right P [] ys h = h
All-append_right P (x ∷ xs) ys h = All-append_right P xs ys h.1

pub All-drop : (P : ℕ → Type 0) (n : ℕ) (xs : List ℕ) → All P xs → All P (drop n xs)
All-drop P zero xs h = h
All-drop P (suc n) [] h = h
All-drop P (suc n) (x ∷ xs) h = All-drop P n xs h.1

pub load64_le-IsWord : (p : List ℕ) → All IsByte p → IsWord (load64_le p)
unfolding load64_le
load64_le-IsWord p h =
    or_word _ _
      (or_word _ _
        (or_word _ _
          (or_word _ _ (or_word _ _ (or_word _ _ (or_word _ _ first (fits _)) (fits _)) (fits _))
            (fits _))
          (fits _))
        (fits _))
      (fits _)
  where
    or_word : (a b : ℕ) → IsWord a → IsWord b → IsWord (bit_or a b)
    or_word a b = bit_or-lt 64 a b

    fits : (x : ℕ) → IsWord (x % 2 ^ 64)
    fits x = omega arith

    first : IsWord (byte_at p 0)
    first = omega (arith, All-get_or IsByte p 0 0 (omega arith) h)

pub store64_le-bytes : (x : ℕ) → All IsByte (store64_le x)
unfolding store64_le
store64_le-bytes x = omega arith

pub words_to_bytes-bytes : (ws : List ℕ) → All IsByte (words_to_bytes ws)
unfolding words_to_bytes
words_to_bytes-bytes [] = tt
words_to_bytes-bytes (w ∷ ws) =
    All-append IsByte (store64_le w) (words_to_bytes ws) (store64_le-bytes w)
      (words_to_bytes-bytes ws)

pub load_words-words : (n : ℕ) (p : List ℕ) → All IsByte p → All IsWord (load_words n p)
unfolding load_words
load_words-words zero p h = tt
load_words-words (suc n) p h =
    (load64_le-IsWord p h, load_words-words n (drop 8 p) (All-drop IsByte 8 p h))

pub length-load_words : (n : ℕ) (p : List ℕ) → length (load_words n p) ≡ n
unfolding load_words
length-load_words zero p = refl
length-load_words (suc n) p = omega (arith, length-load_words n (drop 8 p))
