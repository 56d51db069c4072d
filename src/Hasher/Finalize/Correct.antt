-- ===== src/Hasher/Finalize/Correct.antt =====
-- Finalizing a hasher that has absorbed some input gives the hash of that input.
pub mod Merging
use native.Mathlib.Nat.{pow-suc}
use blake.Base.{length-take}
use blake.Base.{
  ℕ, zero, suc, ◌+◌, ◌/◌, ◌%◌, ◌^◌, ◌≤◌, ◌<◌, ◌≡◌, ◌≢◌, refl, sym, ap, ap₂, subst, ◌∙◌, arith,
}
use blake.Base.{List, [], ◌∷◌, ◌++◌, All, map, take, length, length-append, get_elem?}
use blake.Base.{some, ne→not_==, eq→==, le→not_ltb}
use blake.Bits.Fields.{bit_or_twice}
use blake.Word.{IsByte, words_from_bytes, words_to_bytes}
use blake.Word.Range.{All-append_right}
use blake.Compress.{Compressor}
use blake.Merkle.{Tree, leaf, node, levels, finish}
use blake.Merkle.Forest.{levels-finish}
use blake.Hasher.{Output, Blake4Hasher, ChunkState, root}
use blake.Hasher.Node.{
  wide_byte, output_chaining_value, output_root_bytes, parent_output, parent_cv,
}
use blake.Hasher.Node.Xof.{xof_bytes, output_root_bytes-xof}
use blake.Hasher.Chunk.{chunk_state_init, chunk_state_update, chunk_state_output}
use blake.Hasher.Chunk.Blocks.{chunk_output, chunk_state-chunk_output}
use blake.Hasher.Stack.Rows.{Holds, HoldsTrees, AllCv, cv_under}
use blake.Hasher.Tree.{Leaf, number, split, top, merkle_tree, tree_cv, tree_output, hash_spec}
use blake.Hasher.Tree.Words.{
  IsCv, IsFlags, stored_cv, parent_output-IsOutput, chunk_output-IsOutput,
}
use blake.Hasher.Tree.Split.{concat, split-concat, number-append_zero, length-number, length-concat}
use blake.Hasher.Update.Absorb.{at}
use blake.Hasher.Update.Step.{Absorbs}
use blake.Hasher.Finalize.{with_root, merge_stack, buffered_bytes, hasher_finalize_seek}
use blake.Hasher.Finalize.Correct.Merging.{
  AllCv-AllStored, get_elem?-lt, root_bytes-xof, merge_stack-finish,
}

get_elem?-take :
    (rows : List (List ℕ)) (k i : ℕ) → i < k → get_elem? (take k rows) i ≡ get_elem? rows i
get_elem?-take rows zero i h = absurd (omega arith)
get_elem?-take [] (suc k) i h = refl
get_elem?-take (r ∷ rows) (suc k) zero h = refl
get_elem?-take (r ∷ rows) (suc k) (suc i) h = get_elem?-take rows k i (omega arith)

-- The copied rows hold what the stack holds.
Holds-take :
    (rows : List (List ℕ)) (k m : ℕ) (cvs : List (List ℕ))
    → m ≤ k
    → Holds rows m cvs
    → Holds (take k rows) m cvs
Holds-take rows k m [] h holds = holds
Holds-take rows k m (cv ∷ cvs) h (m', e, row, rest) = (
  m',
  e,
  get_elem?-take rows k m' (omega arith) ∙ row,
  Holds-take rows k m' cvs (omega arith) rest,
)

suc-le-two_pow : (m : ℕ) → m + 1 ≤ 2 ^ m
suc-le-two_pow zero = omega arith
suc-le-two_pow (suc m) = omega (arith, suc-le-two_pow m, pow-suc 2 m)

buffered_bytes-take :
    (h : Blake4Hasher) (bytes : List ℕ)
    → take h.chunk_buf_len h.chunk_buf ≡ bytes
    → length bytes ≡ h.chunk_buf_len
    → buffered_bytes h ≡ some bytes
unfolding buffered_bytes
buffered_bytes-take h bytes e size =
    let room : h.chunk_buf_len ≤ length h.chunk_buf =
      omega (arith, size, ap length e, length-take h.chunk_buf_len h.chunk_buf) in
    rw (le→not_ltb (length h.chunk_buf) h.chunk_buf_len room, e) refl

finalize_single :
    (c : Compressor) (h : Blake4Hasher) (seek n : ℕ) (bytes : List ℕ) {s : ChunkState} (o : Output)
    → buffered_bytes h ≡ some bytes
    → chunk_state_update c (chunk_state_init h.key_words h.chunk_counter h.flags) bytes ≡ some s
    → chunk_state_output s ≡ o
    → h.cv_stack_len ≡ 0
    → hasher_finalize_seek c h seek n ≡ some (output_root_bytes c (with_root o) seek n)
unfolding hasher_finalize_seek
finalize_single c h seek n bytes o e updated output none_left =
    rw (e, updated, output, eq→== h.cv_stack_len 0 none_left)

finalize_merged :
    (c : Compressor) (h : Blake4Hasher) (seek n : ℕ) (bytes : List ℕ) {s : ChunkState} (o : Output)
    → buffered_bytes h ≡ some bytes
    → chunk_state_update c (chunk_state_init h.key_words h.chunk_counter h.flags) bytes ≡ some s
    → chunk_state_output s ≡ o
    → h.cv_stack_len ≢ 0
    → h.cv_stack_len ≤ length h.cv_stack
    → hasher_finalize_seek c h seek n
      ≡ merge_stack c h.key_words h.flags seek n
          (take h.cv_stack_len h.cv_stack)
          h.cv_stack_len
          (output_chaining_value c o)
unfolding hasher_finalize_seek
finalize_merged c h seek n bytes o e updated output some_left room = rw (
  e,
  updated,
  output,
  ne→not_== h.cv_stack_len 0 some_left,
  le→not_ltb (length h.cv_stack) h.cv_stack_len room,
)

module _ (c : Compressor) (base : Blake4Hasher) where
  -- The levels over the chunks reduce to what merging the stack onto the last chunk gives.
  merkle_tree-finish :
      (bytes : List ℕ) (h : Blake4Hasher) (a : Absorbs c base bytes h)
      → merkle_tree bytes ≡ finish node (leaf (length a.chunks, a.pending)) a.parts.trees
  merkle_tree-finish bytes h a =
      let last : Tree Leaf = leaf (length a.chunks, a.pending) in
      let chunks : split bytes ≡ a.chunks ++ a.pending ∷ [] =
        ap split (sym a.joined) ∙ split-concat a.chunks a.pending a.parts.full a.small a.live in
      let size : length (number 0 a.chunks) + 1 ≤ 2 ^ length bytes = omega (
        arith,
        length-number 0 a.chunks,
        ap length a.joined,
        length-append (concat a.chunks) a.pending,
        length-concat a.chunks a.parts.full,
        suc-le-two_pow (length bytes),
      ) in
      ap (λ l. top (levels node (length bytes) (number 0 l))) chunks
      ∙ ap (λ l. top (levels node (length bytes) l)) (number-append_zero a.chunks a.pending)
      ∙ ap top (levels-finish node a.parts.forest last (length bytes) size)

  module _ (hk : IsCv base.key_words) (hf : IsFlags base.flags) (seek n : ℕ) (hs : seek < 2 ^ 64)
      (hn : n < 2 ^ 63) where
    finalize_state :
        (i : ℕ) (pending buf : List ℕ) (rows : List (List ℕ)) (count : ℕ) (trees : List (Tree Leaf))
        → take (length pending) buf ≡ pending
        → HoldsTrees c (at c base i buf (length pending) rows count) trees
        → length pending ≤ 2048
        → All IsByte pending
        → i < 2 ^ 64
        → hasher_finalize_seek c (at c base i buf (length pending) rows count) seek n
          ≡ some (
              xof_bytes c
                (tree_output c base.key_words base.flags (finish node (leaf (i, pending)) trees))
                seek
                n)
    unfolding finish output_chaining_value
    finalize_state i pending buf rows count [] buffered k small bytes lt =
        let (s, updated, output) =
          chunk_state-chunk_output c base.key_words i base.flags pending small in
        let h = at c base i buf (length pending) rows count in
        let o = chunk_output c base.key_words i base.flags pending in
        finalize_single c h seek n pending o (buffered_bytes-take h pending buffered refl) updated
          output k.held
        ∙ ap some (
            root_bytes-xof c base.key_words base.flags seek n hs hn o
              (chunk_output-IsOutput c base.key_words base.flags (i, pending) hk hf
                (lt, bytes, small)).4)
    finalize_state i pending buf rows count (left ∷ trees) buffered k small bytes lt =
        let (s, updated, output) =
          chunk_state-chunk_output c base.key_words i base.flags pending small in
        let h = at c base i buf (length pending) rows count in
        let o = chunk_output c base.key_words i base.flags pending in
        let (m, e, row, rest) = k.held in
        finalize_merged c h seek n pending o (buffered_bytes-take h pending buffered refl) updated
          output (λ z. omega arith) (omega (arith, get_elem?-lt rows m row))
        ∙ merge_stack-finish c base.key_words base.flags seek n hs hn hk hf trees left
            (leaf (i, pending)) (take count rows) count
            (Holds-take rows count count (map (cv_under c h) (left ∷ trees)) (omega arith) k.held)
            (AllCv-AllStored c h (left ∷ trees) k.words)

    -- Finalizing does not depend on how the input was cut into updates.
    pub finalize_seek-Absorbs :
        (bytes : List ℕ) (h : Blake4Hasher)
        → Absorbs c base bytes h
        → All IsByte bytes
        → length bytes < 2 ^ 64
        → hasher_finalize_seek c h seek n
          ≡ some (hash_spec c base.key_words base.flags bytes seek n)
    finalize_seek-Absorbs bytes h a hb lt =
        let pending_bytes : All IsByte a.pending =
          All-append_right IsByte (concat a.chunks) a.pending
            (subst (λ z. All IsByte z) (sym a.joined) hb) in
        let count : length a.chunks < 2 ^ 64 = omega (
          arith,
          ap length a.joined,
          length-append (concat a.chunks) a.pending,
          length-concat a.chunks a.parts.full,
        ) in
        ap (λ x. hasher_finalize_seek c x seek n) a.parts.state
        ∙ finalize_state (length a.chunks) a.pending a.parts.chunk_buf a.parts.rows
            a.parts.row_count a.parts.trees a.parts.buffered a.parts.stack a.small pending_bytes
            count
        ∙ ap (λ t. some (xof_bytes c (tree_output c base.key_words base.flags t) seek n))
            (sym (merkle_tree-finish bytes h a))
