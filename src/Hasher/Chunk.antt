-- ===== src/Hasher/Chunk.antt =====
-- src/blake4.c: the chunk state.
pub mod Blocks
use blake.Base.{
  ℕ, zero, suc, ◌+◌, ◌-◌, ◌%◌, ◌^◌, bit_or, List, [], ◌∷◌, take, drop, length, replicate,
}
use blake.Base.{Option, none, some, ◌>>=◌, ltb, ◌==◌, if◌then◌else◌, memcpy, fit_count}
use blake.Word.{u8}
use blake.Compress.{Compressor}
use blake.Hasher.{Output, ChunkState, block_len, chunk_start, chunk_end}

unfoldable pub chunk_state_init : List ℕ → ℕ → ℕ → ChunkState
chunk_state_init key chunk_counter flags = record {
  cv = take 8 key;
  chunk_counter = chunk_counter;
  buf = replicate block_len 0;
  buf_len = 0;
  blocks_compressed = 0;
  flags = flags;
}

abbrev pub chunk_state_start_flag : ChunkState → ℕ
chunk_state_start_flag s = if s.blocks_compressed == 0 then chunk_start else 0

-- A full buffer is compressed into the chaining value and cleared.
unfoldable pub compress_buffer : Compressor → ChunkState → ChunkState
compress_buffer c s =
    let block_flags = bit_or s.flags (chunk_state_start_flag s) in
    let out = c.compress s.cv s.buf block_len s.chunk_counter block_flags in
    record s {
      cv = take 8 out;
      blocks_compressed = u8 (s.blocks_compressed + 1);
      buf_len = 0;
      buf = replicate block_len 0;
    }

-- The second half of a round: the buffer takes what fits. The rest of the input is left.
unfoldable pub fill_buffer : ChunkState → List ℕ → Option (ChunkState × List ℕ)
fill_buffer s input = do
  let n = fit_count block_len s.buf_len (length input)
  buf ← memcpy s.buf s.buf_len (take n input)
  some (record s { buf = buf; buf_len = u8 (s.buf_len + u8 n) }, drop n input)

module _ (c : Compressor) where
  -- One round of the loop of `chunk_state_update`.
  unfoldable pub update_round : ChunkState → List ℕ → Option (ChunkState × List ℕ)
  update_round s input =
      fill_buffer (if s.buf_len == block_len then compress_buffer c s else s) input

  -- `none` is a copy out of bounds, or more rounds than input bytes.
  unfoldable pub update_loop : ℕ → ChunkState → List ℕ → Option ChunkState
  update_loop fuel s [] = some s
  update_loop zero s (x ∷ input) = none
  update_loop (suc fuel) s (x ∷ input) = do
    (s', rest) ← update_round s (x ∷ input)
    update_loop fuel s' rest

  unfoldable pub chunk_state_update : ChunkState → List ℕ → Option ChunkState
  chunk_state_update s input = update_loop (length input) s input

unfoldable pub chunk_state_output : ChunkState → Output
chunk_state_output s = record {
  input_cv = s.cv;
  block = s.buf;
  len = s.buf_len;
  counter = s.chunk_counter;
  flags = bit_or (bit_or s.flags (chunk_state_start_flag s)) chunk_end;
}
