-- ===== src/Hasher/Update.antt =====
-- src/blake4.c: blake4_hasher_update.
pub mod Absorb
pub mod Step
use blake.Base.{ℕ, zero, suc, ◌+◌, List, [], ◌∷◌, take, drop, length}
use blake.Base.{Option, none, some, ◌>>=◌, ◌==◌, if◌then◌else◌, memcpy, fit_count}
use blake.Word.{u16, u64}
use blake.Compress.{Compressor}
use blake.Hasher.{Blake4Hasher, chunk_len}
use blake.Hasher.Node.{output_chaining_value}
use blake.Hasher.Chunk.{chunk_state_init, chunk_state_update, chunk_state_output}
use blake.Hasher.Stack.{hasher_push_cv}

-- A full chunk buffer is hashed, and its chaining value pushed.
unfoldable pub flush_chunk : Compressor → Blake4Hasher → Option Blake4Hasher
flush_chunk c h = do
  chunk ←
      chunk_state_update c (chunk_state_init h.key_words h.chunk_counter h.flags)
        (take chunk_len h.chunk_buf)
  let chunk_cv = output_chaining_value c (chunk_state_output chunk)
  let total_chunks = u64 (h.chunk_counter + 1)
  h' ← hasher_push_cv c h chunk_cv total_chunks
  some (record h' { chunk_counter = total_chunks; chunk_buf_len = 0 })

-- The chunk buffer takes what fits. The rest of the input is left.
unfoldable pub fill_chunk : Blake4Hasher → List ℕ → Option (Blake4Hasher × List ℕ)
fill_chunk h input = do
  let n = fit_count chunk_len h.chunk_buf_len (length input)
  chunk_buf ← memcpy h.chunk_buf h.chunk_buf_len (take n input)
  some (
    record h { chunk_buf = chunk_buf; chunk_buf_len = u16 (h.chunk_buf_len + u16 n) },
    drop n input,
  )

module _ (c : Compressor) where
  -- One round of the loop.
  unfoldable pub update_round : Blake4Hasher → List ℕ → Option (Blake4Hasher × List ℕ)
  update_round h input =
      (if h.chunk_buf_len == chunk_len then flush_chunk c h else some h) >>= λ h'.
      fill_chunk h' input

  -- `none` is an access out of bounds, or more rounds than input bytes.
  unfoldable pub update_loop : ℕ → Blake4Hasher → List ℕ → Option Blake4Hasher
  update_loop fuel h [] = some h
  update_loop zero h (x ∷ input) = none
  update_loop (suc fuel) h (x ∷ input) = do
    (h', rest) ← update_round h (x ∷ input)
    update_loop fuel h' rest

  unfoldable pub hasher_update : Blake4Hasher → List ℕ → Option Blake4Hasher
  hasher_update h input = update_loop (length input) h input

  -- The calls of `blake4_hasher_update` for the pieces of an input, in order.
  unfoldable pub update_all : Blake4Hasher → List (List ℕ) → Option Blake4Hasher
  update_all h [] = some h
  update_all h (piece ∷ pieces) = do h' ← hasher_update h piece; update_all h' pieces
