-- ===== src/Simd/Vectors.antt =====
-- The vector types and intrinsics that the back ends use: interfaces with the documented meaning
-- of each instruction on its lanes. Loads of bytes are those of a little-endian machine.
use blake.Base.{
  ◌≤◌, length, take, ℕ, drop, zero, suc, ◌+◌, ◌*◌, ◌/◌, ◌%◌, ◌^◌, ◌≡◌, bit_or, bit_xor, List, [],
  ◌∷◌,
}
use blake.Word.{u64, shr, shl64, load64_le}
use blake.Compress.{word_at}

-- Four things in their order: the lanes of a vector, the lowest first, or the rows of the state.
pub record Four (A : Type 0) : Type 0 where
  pub w0 : A
  pub w1 : A
  pub w2 : A
  pub w3 : A

pub record Two (A : Type 0) : Type 0 where
  pub low : A
  pub high : A

module _ {A : Type 0} where
  abbrev pub four : A → A → A → A → Four A
  four a b c d = record { w0 = a; w1 = b; w2 = c; w3 = d }

  abbrev pub two : A → A → Two A
  two a b = record { low = a; high = b }

  abbrev pub listed : Four A → List A
  listed q = q.w0 ∷ q.w1 ∷ q.w2 ∷ q.w3 ∷ []

  abbrev pub listed_two : Two A → List A
  listed_two q = q.low ∷ q.high ∷ []

  -- The entry that two bits of an immediate operand choose.
  abbrev pub pick : Four A → ℕ → A
  pick q zero = q.w0
  pick q (suc zero) = q.w1
  pick q (suc (suc zero)) = q.w2
  pick q (suc (suc (suc n))) = q.w3

  abbrev pub pick_two : Two A → ℕ → A
  pick_two q zero = q.low
  pick_two q (suc n) = q.high

  -- The four entries that an immediate operand of eight bits chooses.
  abbrev pub shuffled : Four A → ℕ → Four A
  shuffled q imm =
      four (pick q (imm % 4)) (pick q (imm / 4 % 4)) (pick q (imm / 16 % 4)) (pick q (imm / 64 % 4))

abbrev pub each : {A B : Type 0} → (A → B) → Four A → Four B
each f q = four (f q.w0) (f q.w1) (f q.w2) (f q.w3)

abbrev pub each2 : (ℕ → ℕ → ℕ) → Four ℕ → Four ℕ → Four ℕ
each2 f p q = four (f p.w0 q.w0) (f p.w1 q.w1) (f p.w2 q.w2) (f p.w3 q.w3)

abbrev pub both : {A B : Type 0} → (A → B) → Two A → Two B
both f q = two (f q.low) (f q.high)

abbrev pub both2 : (ℕ → ℕ → ℕ) → Two ℕ → Two ℕ → Two ℕ
both2 f p q = two (f p.low q.low) (f p.high q.high)

abbrev pub add64 : ℕ → ℕ → ℕ
add64 a b = u64 (a + b)

-- `_MM_SHUFFLE(z, y, x, w)`
abbrev pub mm_shuffle : ℕ → ℕ → ℕ → ℕ → ℕ
mm_shuffle z y x w = z * 64 + y * 16 + x * 4 + w

-- The halves of a 64-bit lane, and the lane that two halves make.
abbrev pub low_half : ℕ → ℕ
low_half x = x % 2 ^ 32

abbrev pub high_half : ℕ → ℕ
high_half x = x / 2 ^ 32

abbrev pub joined : ℕ → ℕ → ℕ
joined low high = bit_or low (high * 2 ^ 32)

abbrev pub joined_two : Four ℕ → Two ℕ
joined_two h = two (joined h.w0 h.w1) (joined h.w2 h.w3)

-- `_mm256_shuffle_epi32` on one half of the register: its four 32-bit numbers, shuffled.
abbrev pub shuffled_half : ℕ → ℕ → ℕ → Two ℕ
shuffled_half a b imm =
    joined_two (shuffled (four (low_half a) (high_half a) (low_half b) (high_half b)) imm)

abbrev pub shuffled_halves : Four ℕ → ℕ → Four ℕ
shuffled_halves q imm =
    let low = shuffled_half q.w0 q.w1 imm in
    let high = shuffled_half q.w2 q.w3 imm in four low.low low.high high.low high.high

-- `__m256i` and what src/blake4_avx2.c and src/blake4_avx512.c use of <immintrin.h>. `lanes` is
-- what `_mm256_storeu_si256` writes; `loadu` reads words and `loadu_bytes` reads bytes.
pub record Avx : Type 1 where
  pub M256 : Type 0
  pub lanes : M256 → Four ℕ
  pub loadu : List ℕ → M256
  pub loadu_bytes : List ℕ → M256
  pub set_epi64x : ℕ → ℕ → ℕ → ℕ → M256
  pub add_epi64 : M256 → M256 → M256
  pub xor_si256 : M256 → M256 → M256
  pub or_si256 : M256 → M256 → M256
  pub srli_epi64 : M256 → ℕ → M256
  pub slli_epi64 : M256 → ℕ → M256
  pub shuffle_epi32 : M256 → ℕ → M256
  pub permute4x64_epi64 : M256 → ℕ → M256
  pub lanes-loadu :
      (p : List ℕ) → lanes (loadu p) ≡ four (word_at p 0) (word_at p 1) (word_at p 2) (word_at p 3)
  pub lanes-loadu_bytes :
      (p : List ℕ)
      → lanes (loadu_bytes p)
        ≡ four (load64_le p) (load64_le (drop 8 p)) (load64_le (drop 16 p)) (load64_le (drop 24 p))
  pub lanes-set_epi64x : (a b c d : ℕ) → lanes (set_epi64x d c b a) ≡ four a b c d
  pub lanes-add_epi64 : (x y : M256) → lanes (add_epi64 x y) ≡ each2 add64 (lanes x) (lanes y)
  pub lanes-xor_si256 : (x y : M256) → lanes (xor_si256 x y) ≡ each2 bit_xor (lanes x) (lanes y)
  pub lanes-or_si256 : (x y : M256) → lanes (or_si256 x y) ≡ each2 bit_or (lanes x) (lanes y)
  pub lanes-srli_epi64 : (x : M256) (n : ℕ) → lanes (srli_epi64 x n) ≡ each (λ w. shr w n) (lanes x)
  pub lanes-slli_epi64 :
      (x : M256) (n : ℕ) → lanes (slli_epi64 x n) ≡ each (λ w. shl64 w n) (lanes x)
  pub lanes-shuffle_epi32 :
      (x : M256) (imm : ℕ) → lanes (shuffle_epi32 x imm) ≡ shuffled_halves (lanes x) imm
  pub lanes-permute4x64_epi64 :
      (x : M256) (imm : ℕ) → lanes (permute4x64_epi64 x imm) ≡ shuffled (lanes x) imm

-- `uint64x2_t` and what src/blake4_neon.c uses of <arm_neon.h>. `lanes` is what `vst1q_u64`
-- writes; `of_lanes` is a braced list of two words; `halves` are the lanes of a `uint32x4_t`.
pub record Neon : Type 1 where
  pub U64x2 : Type 0
  pub U32x4 : Type 0
  pub U64x1 : Type 0
  pub lanes : U64x2 → Two ℕ
  pub halves : U32x4 → Four ℕ
  pub of_lanes : ℕ → ℕ → U64x2
  pub vld1q : List ℕ → U64x2
  pub vaddq : U64x2 → U64x2 → U64x2
  pub veorq : U64x2 → U64x2 → U64x2
  pub vorrq : U64x2 → U64x2 → U64x2
  pub vshrq_n : U64x2 → ℕ → U64x2
  pub vshlq_n : U64x2 → ℕ → U64x2
  pub vreinterpretq_u32_u64 : U64x2 → U32x4
  pub vreinterpretq_u64_u32 : U32x4 → U64x2
  pub vrev64q_u32 : U32x4 → U32x4
  pub vgetq_lane : U64x2 → ℕ → ℕ
  pub vcreate : ℕ → U64x1
  pub vcombine : U64x1 → U64x1 → U64x2
  pub lanes-of_lanes : (a b : ℕ) → lanes (of_lanes a b) ≡ two a b
  pub lanes-vld1q : (p : List ℕ) → lanes (vld1q p) ≡ two (word_at p 0) (word_at p 1)
  pub lanes-vaddq : (x y : U64x2) → lanes (vaddq x y) ≡ both2 add64 (lanes x) (lanes y)
  pub lanes-veorq : (x y : U64x2) → lanes (veorq x y) ≡ both2 bit_xor (lanes x) (lanes y)
  pub lanes-vorrq : (x y : U64x2) → lanes (vorrq x y) ≡ both2 bit_or (lanes x) (lanes y)
  pub lanes-vshrq_n : (x : U64x2) (n : ℕ) → lanes (vshrq_n x n) ≡ both (λ w. shr w n) (lanes x)
  pub lanes-vshlq_n : (x : U64x2) (n : ℕ) → lanes (vshlq_n x n) ≡ both (λ w. shl64 w n) (lanes x)
  pub halves-vreinterpretq :
      (x : U64x2)
      → halves (vreinterpretq_u32_u64 x)
        ≡ four
            (low_half (lanes x).low)
            (high_half (lanes x).low)
            (low_half (lanes x).high)
            (high_half (lanes x).high)
  pub lanes-vreinterpretq : (y : U32x4) → lanes (vreinterpretq_u64_u32 y) ≡ joined_two (halves y)
  pub halves-vrev64q :
      (y : U32x4)
      → halves (vrev64q_u32 y) ≡ four (halves y).w1 (halves y).w0 (halves y).w3 (halves y).w2
  pub vgetq_lane-lanes : (x : U64x2) (i : ℕ) → vgetq_lane x i ≡ pick_two (lanes x) i
  pub lanes-vcombine : (a b : ℕ) → lanes (vcombine (vcreate a) (vcreate b)) ≡ two a b

-- `__m512i` and the two instructions that src/blake4_simd.c uses of it: a load of eight words and
-- the store of them.
pub record Avx512 : Type 1 where
  pub M512 : Type 0
  pub loadu_si512 : List ℕ → M512
  pub storeu_si512 : M512 → List ℕ
  pub storeu-loadu : (p : List ℕ) → 8 ≤ length p → storeu_si512 (loadu_si512 p) ≡ take 8 p
