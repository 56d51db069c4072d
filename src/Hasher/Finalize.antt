-- ===== src/Hasher/Finalize.antt =====
-- src/blake4.c: blake4_hasher_finalize_seek and blake4_hasher_finalize.
pub mod Correct
use blake.Base.{ℕ, zero, suc, bit_or, List, take, length, get_elem?}
use blake.Base.{Option, none, some, ◌>>=◌, ltb, ◌==◌, if◌then◌else◌}
use blake.Word.{words_from_bytes}
use blake.Compress.{Compressor}
use blake.Hasher.{Output, Blake4Hasher, root}
use blake.Hasher.Node.{output_chaining_value, output_root_bytes, parent_output, parent_cv}
use blake.Hasher.Chunk.{chunk_state_init, chunk_state_update, chunk_state_output}

abbrev pub with_root : Output → Output
with_root o = record o { flags = bit_or o.flags root }

module _ (c : Compressor) (key : List ℕ) (flags : ℕ) (seek out_len : ℕ) where
  -- The merge from right to left: the copied rows, the rows left, and the value so far.
  unfoldable pub merge_stack : List (List ℕ) → ℕ → List ℕ → Option (List ℕ)
  merge_stack stack zero cv = none
  merge_stack stack (suc n) cv = do
    row ← get_elem? stack n
    let left_cv = words_from_bytes row
    let more = merge_stack stack n (parent_cv c left_cv cv key flags)
    let last = output_root_bytes c (with_root (parent_output left_cv cv key flags)) seek out_len
    if n == 0 then some last else more

-- The bytes of the chunk buffer that are in use; more than there are is an access out of bounds.
unfoldable pub buffered_bytes : Blake4Hasher → Option (List ℕ)
buffered_bytes h =
    if ltb (length h.chunk_buf) h.chunk_buf_len
    then none
    else some (take h.chunk_buf_len h.chunk_buf)

-- The bytes written to `out`; `none` is an access out of bounds.
unfoldable pub hasher_finalize_seek : Compressor → Blake4Hasher → ℕ → ℕ → Option (List ℕ)
hasher_finalize_seek c h seek out_len = do
  bytes ← buffered_bytes h
  chunk ← chunk_state_update c (chunk_state_init h.key_words h.chunk_counter h.flags) bytes
  let o = chunk_state_output chunk
  let single = output_root_bytes c (with_root o) seek out_len
  let stack = take h.cv_stack_len h.cv_stack
  let merged =
      merge_stack c h.key_words h.flags seek out_len stack h.cv_stack_len
        (output_chaining_value c o)
  if h.cv_stack_len == 0
      then some single
      else if ltb (length h.cv_stack) h.cv_stack_len
      then none
      else merged

unfoldable pub hasher_finalize : Compressor → Blake4Hasher → ℕ → Option (List ℕ)
hasher_finalize c h out_len = hasher_finalize_seek c h 0 out_len
