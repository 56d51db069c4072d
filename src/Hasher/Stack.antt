-- ===== src/Hasher/Stack.antt =====
-- src/blake4.c: hasher_push_cv, which merges subtrees on the stack of chaining values.
pub mod Rows
use blake.Base.{ℕ, zero, suc, ◌+◌, ◌/◌, ◌%◌, List, [], ◌∷◌, length, get_elem?, set}
use blake.Base.{Option, none, some, ◌>>=◌, ltb, ◌==◌, if◌then◌else◌}
use blake.Word.{u8, words_from_bytes, words_to_bytes}
use blake.Compress.{Compressor}
use blake.Hasher.{Blake4Hasher}
use blake.Hasher.Node.{parent_cv}

-- `words_to_bytes(cv, self->cv_stack[self->cv_stack_len]); self->cv_stack_len++`; a row that the
-- stack does not have is a fault.
unfoldable pub store_row : Blake4Hasher → List ℕ → Option Blake4Hasher
store_row h cv =
    if ltb h.cv_stack_len (length h.cv_stack)
    then some (record h {
      cv_stack = set h.cv_stack h.cv_stack_len (words_to_bytes cv);
      cv_stack_len = u8 (h.cv_stack_len + 1);
    })
    else none

-- The body of the merge loop: the length is decremented as a `uint8_t`, and the row read there.
unfoldable pub pop_merge : Compressor → Blake4Hasher → List ℕ → Option (Blake4Hasher × List ℕ)
pop_merge c h cv = do
  let n = u8 (h.cv_stack_len + 255)
  row ← get_elem? h.cv_stack n
  some (record h { cv_stack_len = n }, parent_cv c (words_from_bytes row) cv h.key_words h.flags)

-- The loop of `hasher_push_cv` with a bound on its rounds; `x & 1` is `x % 2`.
unfoldable pub push_loop : Compressor → ℕ → Blake4Hasher → List ℕ → ℕ → Option Blake4Hasher
push_loop c zero h cv total_chunks = none
push_loop c (suc fuel) h cv total_chunks =
    let merged : Option Blake4Hasher =
      pop_merge c h cv >>= λ r. push_loop c fuel r.0 r.1 (total_chunks / 2) in
    if total_chunks % 2 == 0 then merged else store_row h cv

-- A nonzero `uint64_t` is even at most 63 times.
unfoldable pub hasher_push_cv : Compressor → Blake4Hasher → List ℕ → ℕ → Option Blake4Hasher
hasher_push_cv c h new_cv total_chunks = push_loop c 64 h new_cv total_chunks
