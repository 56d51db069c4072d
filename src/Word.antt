-- ===== src/Word.antt =====
-- Machine words of src/blake4.c, src/blake4_dispatch.c and src/blake4_stream.c: casts, shifts,
-- rotation, and the little-endian loads and stores.
pub mod Endian
pub mod Range
use blake.Base.{ℕ, zero, suc, ◌+◌, ◌-◌, ◌*◌, ◌/◌, ◌%◌, ◌^◌, ◌<◌, bit_or}
use blake.Base.{List, [], ◌∷◌, ◌++◌, get_or, drop}

abbrev pub u8 : ℕ → ℕ
u8 x = x % 2 ^ 8

abbrev pub u16 : ℕ → ℕ
u16 x = x % 2 ^ 16

abbrev pub u32 : ℕ → ℕ
u32 x = x % 2 ^ 32

abbrev pub u64 : ℕ → ℕ
u64 x = x % 2 ^ 64

abbrev pub IsWord : ℕ → Type 0
IsWord x = x < 2 ^ 64

abbrev pub IsByte : ℕ → Type 0
IsByte x = x < 2 ^ 8

-- `x >> n` of an unsigned number, and `x << n` of a `uint64_t`.
abbrev pub shr : ℕ → ℕ → ℕ
shr x n = x / 2 ^ n

abbrev pub shl64 : ℕ → ℕ → ℕ
shl64 x n = u64 (x * 2 ^ n)

unfoldable pub rotr64 : ℕ → ℕ → ℕ
rotr64 x n = bit_or (shr x n) (shl64 x (64 - n))

-- `p[i]`; the callers pass at least the bytes that are read.
abbrev pub byte_at : List ℕ → ℕ → ℕ
byte_at p i = get_or p i 0

unfoldable pub load64_le : List ℕ → ℕ
load64_le p =
    bit_or
      (bit_or
        (bit_or
          (bit_or
            (bit_or (bit_or (bit_or (byte_at p 0) (shl64 (byte_at p 1) 8)) (shl64 (byte_at p 2) 16))
              (shl64 (byte_at p 3) 24))
            (shl64 (byte_at p 4) 32))
          (shl64 (byte_at p 5) 40))
        (shl64 (byte_at p 6) 48))
      (shl64 (byte_at p 7) 56)

-- The eight bytes that `store64_le` writes.
unfoldable pub store64_le : ℕ → List ℕ
store64_le x =
    u8 x
    ∷ u8 (shr x 8)
    ∷ u8 (shr x 16)
    ∷ u8 (shr x 24)
    ∷ u8 (shr x 32)
    ∷ u8 (shr x 40)
    ∷ u8 (shr x 48)
    ∷ u8 (shr x 56)
    ∷ []

-- `for (i = 0; i < n; i++) words[i] = load64_le(bytes + i * 8)`
unfoldable pub load_words : ℕ → List ℕ → List ℕ
load_words zero p = []
load_words (suc n) p = load64_le p ∷ load_words n (drop 8 p)

unfoldable pub words_from_bytes : List ℕ → List ℕ
words_from_bytes bytes = load_words 8 bytes

-- The bytes that `words_to_bytes` writes, word by word.
unfoldable pub words_to_bytes : List ℕ → List ℕ
words_to_bytes [] = []
words_to_bytes (w ∷ ws) = store64_le w ++ words_to_bytes ws
