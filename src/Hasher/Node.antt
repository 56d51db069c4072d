-- ===== src/Hasher/Node.antt =====
-- src/blake4.c: output_chaining_value, output_root_bytes, parent_output and parent_cv.
pub mod Xof
use blake.Base.{ℕ, zero, suc, ◌+◌, ◌-◌, ◌*◌, ◌/◌, ◌%◌, bit_or, List, [], ◌∷◌, ◌++◌, take}
use blake.Base.{ltb, ◌==◌, if◌then◌else◌}
use blake.Word.{u8, u64, shr, words_to_bytes}
use blake.Compress.{Compressor, word_at}
use blake.Hasher.{Output, block_len, parent, root}

-- `(uint8_t)(wide[j / 8] >> (8 * (j % 8)))`
unfoldable pub wide_byte : List ℕ → ℕ → ℕ
wide_byte wide j = u8 (shr (word_at wide (j / 8)) (8 * (j % 8)))

-- The inner loop: `n` bytes of the compressed block from `offset` on.
unfoldable pub copy_bytes : List ℕ → ℕ → ℕ → List ℕ
copy_bytes wide offset zero = []
copy_bytes wide offset (suc n) = wide_byte wide offset ∷ copy_bytes wide (offset + 1) n

module _ (c : Compressor) where
  unfoldable pub output_chaining_value : Output → List ℕ
  output_chaining_value o = take 8 (c.compress o.input_cv o.block o.len o.counter o.flags)

  -- The outer loop with a bound on its rounds.
  unfoldable pub root_loop : ℕ → Output → ℕ → ℕ → ℕ → List ℕ
  root_loop zero o block_counter offset out_len = []
  root_loop (suc fuel) o block_counter offset out_len =
      let available = 128 - offset in
      let n = if ltb available out_len then available else out_len in
      let wide = c.compress o.input_cv o.block o.len block_counter (bit_or o.flags root) in
      let more =
        copy_bytes wide offset n ++ root_loop fuel o (u64 (block_counter + 1)) 0 (out_len - n) in
      if out_len == 0 then [] else more

  -- Every round writes a byte at least, so `out_len` rounds are enough.
  unfoldable pub output_root_bytes : Output → ℕ → ℕ → List ℕ
  output_root_bytes o seek out_len = root_loop out_len o (seek / 128) (seek % 128) out_len

unfoldable pub parent_output : List ℕ → List ℕ → List ℕ → ℕ → Output
parent_output left_cv right_cv key flags = record {
  input_cv = key;
  block = words_to_bytes left_cv ++ words_to_bytes right_cv;
  len = block_len;
  counter = 0;
  flags = bit_or flags parent;
}

unfoldable pub parent_cv : Compressor → List ℕ → List ℕ → List ℕ → ℕ → List ℕ
parent_cv c left_cv right_cv key flags =
    output_chaining_value c (parent_output left_cv right_cv key flags)
