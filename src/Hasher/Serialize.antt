-- ===== src/Hasher/Serialize.antt =====
-- src/blake4.c: blake4_hasher_serialize and blake4_hasher_deserialize. A pointer that may be NULL is
-- an Option.
pub mod RoundTrip
pub mod Ranges
use blake.Base.{ℕ, zero, suc, ◌+◌, ◌*◌, ◌^◌, bit_or, List, [], ◌∷◌, ◌++◌, take, drop, length}
use blake.Base.{
  Option, none, some, ◌>>=◌, Bool, true, false, ◌&&◌, ltb, ◌==◌, if◌then◌else◌, memcpy,
}
use blake.Word.{u8, shr, byte_at, load64_le, store64_le, load_words, words_to_bytes}
use blake.Hasher.{Blake4Hasher, block_len, chunk_len, max_depth}
use blake.Hasher.Tree.Split.{concat}

abbrev pub serialize_magic : List ℕ
serialize_magic = 66 ∷ 76 ∷ 65 ∷ 75 ∷ 69 ∷ 52 ∷ 83 ∷ 0 ∷ []

-- The sum of what `pos` is advanced by, which is also `BLAKE4_SERIALIZED_SIZE`.
abbrev pub serialized_size : ℕ
serialized_size = 8 + 64 + 64 + 8 + 128 + 1 + 2048 + 2 + 54 * 64 + 1 + 1

-- The bytes written, field after field.
unfoldable pub serialized : Blake4Hasher → List ℕ
serialized h =
    serialize_magic
    ++ (words_to_bytes (take 8 h.cv)
        ++ (words_to_bytes (take 8 h.key_words)
            ++ (store64_le h.chunk_counter
                ++ (take block_len h.buf
                    ++ (h.buf_len
                        ∷ (take chunk_len h.chunk_buf
                            ++ (u8 h.chunk_buf_len
                                ∷ u8 (shr h.chunk_buf_len 8)
                                ∷ (take (max_depth * 64) (concat h.cv_stack)
                                    ++ h.cv_stack_len ∷ h.flags ∷ []))))))))

-- The value returned and the buffer after the call; `none` is a write out of bounds.
unfoldable pub hasher_serialize :
    Option Blake4Hasher → Option (List ℕ) → ℕ → Option (ℕ × Option (List ℕ))
hasher_serialize none buf buf_len = some (0, buf)
hasher_serialize (some self) none buf_len = some (0, none)
hasher_serialize (some self) (some buf) buf_len =
    let written = memcpy buf 0 (serialized self) >>= λ after. some (serialized_size, some after) in
    if ltb buf_len serialized_size then some (0, some buf) else written

-- `memcmp(a, b, length b) == 0`
abbrev pub starts_with : List ℕ → List ℕ → Bool
starts_with a [] = true
starts_with [] (y ∷ b) = false
starts_with (x ∷ a) (y ∷ b) = (x == y) && starts_with a b

-- `n` rows of 64 bytes.
unfoldable pub load_rows : ℕ → List ℕ → List (List ℕ)
load_rows zero p = []
load_rows (suc n) p = take 64 p ∷ load_rows n (drop 64 p)

-- The fields up to `buf_len`, and the bytes behind them.
unfoldable pub load_head : Blake4Hasher → List ℕ → Blake4Hasher × List ℕ
load_head self p =
    let p1 = drop 64 p in
    let p2 = drop 64 p1 in
    let p3 = drop 8 p2 in
    let p4 = drop block_len p3 in
    (
      record self {
        cv = load_words 8 p;
        key_words = load_words 8 p1;
        chunk_counter = load64_le p2;
        buf = take block_len p3;
        buf_len = byte_at p4 0;
      },
      drop 1 p4,
    )

-- `chunk_buf` and `chunk_buf_len`.
unfoldable pub load_chunk : Blake4Hasher → List ℕ → Blake4Hasher × List ℕ
load_chunk self p =
    let p1 = drop chunk_len p in
    (
      record self {
        chunk_buf = take chunk_len p;
        chunk_buf_len = bit_or (byte_at p1 0) (byte_at p1 1 * 2 ^ 8);
      },
      drop 2 p1,
    )

-- `cv_stack` and `cv_stack_len`.
unfoldable pub load_stack : Blake4Hasher → List ℕ → Blake4Hasher × List ℕ
load_stack self p =
    let p1 = drop (max_depth * 64) p in
    (record self { cv_stack = load_rows max_depth p; cv_stack_len = byte_at p1 0 }, drop 1 p1)

-- The value returned and the hasher after the call: a field that is out of range has been written
-- when the call returns 0.
unfoldable pub load_fields : Blake4Hasher → List ℕ → ℕ × Blake4Hasher
load_fields self p =
    let (h1, p1) = load_head self p in
    let (h2, p2) = load_chunk h1 p1 in
    let (h3, p3) = load_stack h2 p2 in
    if ltb block_len h1.buf_len
    then (0, h1)
    else if ltb chunk_len h2.chunk_buf_len
    then (0, h2)
    else if ltb max_depth h3.cv_stack_len
    then (0, h3)
    else (1, record h3 { flags = byte_at p3 0 })

-- `buf` has `buf_len` bytes, as a caller is to see to.
unfoldable pub hasher_deserialize :
    Option Blake4Hasher → Option (List ℕ) → ℕ → ℕ × Option Blake4Hasher
hasher_deserialize none buf buf_len = (0, none)
hasher_deserialize (some self) none buf_len = (0, some self)
hasher_deserialize (some self) (some buf) buf_len =
    let (result, loaded) = load_fields self (drop 8 buf) in
    if ltb buf_len serialized_size
    then (0, some self)
    else if starts_with buf serialize_magic
    then (result, some loaded)
    else (0, some self)
