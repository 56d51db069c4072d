-- ===== src/Hasher/Update/Absorb.antt =====
-- The invariant of a hasher that has absorbed some input, and the two halves of a round.
use blake.Base.{ℕ, ◌+◌, ◌-◌, ◌^◌, ◌≤◌, ◌<◌, ◌≡◌, refl, sym, ap, subst, ◌∙◌, arith, min}
use blake.Base.{List, [], ◌∷◌, ◌++◌, All, take, drop, length, length-append, length-take}
use blake.Base.{some, memcpy, memcpy_fits, splice}
use blake.Base.{length-splice, fit_count, fit_count_lem, take-append, append_assoc}
use native.Mathlib.Nat.{pow-le-pow_right}
use blake.Word.{IsByte, u16, u64}
use blake.Compress.{Compressor}
use blake.Merkle.{Tree, leaf, node}
use blake.Merkle.Forest.{Forest, Forest-depth}
use blake.Merkle.Counter.{push-Forest}
use native.Mathlib.Decide.{dec_lt}
use blake.Hasher.{Blake4Hasher, ChunkState}
use blake.Hasher.Node.{output_chaining_value}
use blake.Hasher.Chunk.{chunk_state_init, chunk_state_update, chunk_state_output}
use blake.Hasher.Chunk.Blocks.{chunk_state-chunk_output}
use blake.Hasher.Stack.{hasher_push_cv}
use blake.Hasher.Stack.Rows.{HoldsTrees, cv_under, hasher_push_cv-Pushed}
use blake.Hasher.Tree.{Leaf, number}
use blake.Hasher.Tree.Words.{IsCv, IsFlags, tree_cv-leaf-IsCv}
use blake.Hasher.Tree.Split.{AllFull, AllFull-append, number-append_zero, length-number}
use blake.Hasher.Update.{flush_chunk, fill_chunk}

module _ (c : Compressor) (base : Blake4Hasher) where
  -- The states that updates of `base` can reach.
  abbrev pub at : ℕ → List ℕ → ℕ → List (List ℕ) → ℕ → Blake4Hasher
  at counter buf len rows n = record base {
    chunk_counter = counter;
    chunk_buf = buf;
    chunk_buf_len = len;
    cv_stack = rows;
    cv_stack_len = n;
  }

  -- `h` has pushed the full chunks `chunks`, and holds `pending` in its chunk buffer.
  pub record Absorbed (chunks : List (List ℕ)) (pending : List ℕ) (h : Blake4Hasher) : Type 0 where
    pub chunk_buf : List ℕ
    pub rows : List (List ℕ)
    pub row_count : ℕ
    pub trees : List (Tree Leaf)
    pub state : h ≡ at (length chunks) chunk_buf (length pending) rows row_count
    pub buf_size : length chunk_buf ≡ 2048
    pub buffered : take (length pending) chunk_buf ≡ pending
    pub forest : Forest node (number 0 chunks) trees
    pub stack : HoldsTrees c (at (length chunks) chunk_buf (length pending) rows row_count) trees
    pub full : AllFull chunks

  fill_chunk_with :
      (h : Blake4Hasher) (r : List ℕ) (k : ℕ) {buf : List ℕ} (n : ℕ)
      → fit_count 2048 h.chunk_buf_len (length r) ≡ k
      → memcpy h.chunk_buf h.chunk_buf_len (take k r) ≡ some buf
      → u16 (h.chunk_buf_len + u16 k) ≡ n
      → fill_chunk h r ≡ some (record h { chunk_buf = buf; chunk_buf_len = n }, drop k r)
  unfolding fill_chunk
  fill_chunk_with h r k n e copied counted = rw (e, copied, counted)

  take-splice :
      (buf p src : List ℕ)
      → take (length p) buf ≡ p
      → length p + length src ≤ length buf
      → take (length (p ++ src)) (splice buf (length p) src) ≡ p ++ src
  take-splice buf p src e h =
      let z = drop (length p + length src) buf in
      let n = length (p ++ src) in
      ap (λ q. take n (q ++ (src ++ z))) e
      ∙ ap (take n) (sym (append_assoc p src z))
      ∙ take-append n (p ++ src) z refl

  -- The buffer takes what fits of the input.
  pub fill_chunk-Absorbed :
      (chunks : List (List ℕ)) (pending r : List ℕ) (h : Blake4Hasher) (k : ℕ)
      → Absorbed chunks pending h
      → length pending ≤ 2048
      → k ≡ min (2048 - length pending) (length r)
      → (h' : Blake4Hasher) × (fill_chunk h r ≡ some (h', drop k r))
        × Absorbed chunks (pending ++ take k r) h'
  fill_chunk-Absorbed chunks pending r h k a le e =
      let src = take k r in
      let size : length src ≡ k = omega (arith, length-take k r) in
      let total : u16 (length pending + u16 k) ≡ length (pending ++ src) =
        omega (arith, length-append pending src) in
      let room : length pending + length src ≤ length a.chunk_buf = omega (arith, a.buf_size) in
      let buf = splice a.chunk_buf (length pending) src in
      let old = at (length chunks) a.chunk_buf (length pending) a.rows a.row_count in
      (
        at (length chunks) buf (length (pending ++ src)) a.rows a.row_count,
        ap (λ x. fill_chunk x r) a.state
            ∙ fill_chunk_with old r k (length (pending ++ src))
                (fit_count_lem 2048 (length pending) (length r) le (omega arith) ∙ sym e)
                (memcpy_fits a.chunk_buf (length pending) src room) total,
        record {
          chunk_buf = buf;
          rows = a.rows;
          row_count = a.row_count;
          trees = a.trees;
          state = refl;
          buf_size = length-splice a.chunk_buf (length pending) src room ∙ a.buf_size;
          buffered = take-splice a.chunk_buf pending src a.buffered room;
          forest = a.forest;
          stack = record { rows = a.stack.rows; held = a.stack.held; words = a.stack.words };
          full = a.full;
        },
      )

  flush_chunk_with :
      (h : Blake4Hasher) (bytes : List ℕ) {s : ChunkState} (cv : List ℕ) (total : ℕ)
      {h' : Blake4Hasher}
      → take 2048 h.chunk_buf ≡ bytes
      → chunk_state_update c (chunk_state_init h.key_words h.chunk_counter h.flags) bytes ≡ some s
      → output_chaining_value c (chunk_state_output s) ≡ cv
      → u64 (h.chunk_counter + 1) ≡ total
      → hasher_push_cv c h cv total ≡ some h'
      → flush_chunk c h ≡ some (record h' { chunk_counter = total; chunk_buf_len = 0 })
  unfolding flush_chunk
  flush_chunk_with h bytes cv total e updated output counted pushed =
      rw (e, updated, output, counted, pushed)

  depth-lt : (n m : ℕ) → 2 ^ n ≤ m → m < 2 ^ 54 → n < 54
  depth-lt n m h lt = elim (dec_lt n 54) [
    | yes p ↦ p
    | no p ↦
        absurd
          (omega (arith, pow-le-pow_right {n = 2} (omega arith) {i = 54} {j = n} (omega arith)))
  ]

  -- A full buffer becomes one more chunk of the tree.
  pub flush_chunk-Absorbed :
      (chunks : List (List ℕ)) (pending : List ℕ) (h : Blake4Hasher)
      → IsCv base.key_words
      → IsFlags base.flags
      → Absorbed chunks pending h
      → length pending ≡ 2048
      → All IsByte pending
      → length chunks + 1 < 2 ^ 54
      → (h' : Blake4Hasher) × (flush_chunk c h ≡ some h') × Absorbed (chunks ++ pending ∷ []) [] h'
  unfolding output_chaining_value
  flush_chunk-Absorbed chunks pending h hk hf a full bytes lt =
      let old = at (length chunks) a.chunk_buf (length pending) a.rows a.row_count in
      let t : Tree Leaf = leaf (length chunks, pending) in
      let (s, updated, output) =
        chunk_state-chunk_output c base.key_words (length chunks) base.flags pending
          (omega arith) in
      let depth =
        depth-lt (length a.trees) (length chunks + 1)
          (omega (arith, Forest-depth node a.forest, length-number 0 chunks)) lt in
      let words =
        tree_cv-leaf-IsCv c base.key_words base.flags (length chunks) pending hk hf
          (omega arith, bytes, omega arith) in
      let (trees', counted, forest') =
        push-Forest node t 64 (length chunks + 1) a.forest (omega (arith, length-number 0 chunks))
          (omega arith) in
      let p =
        hasher_push_cv-Pushed c old t (length chunks + 1) a.trees trees' hk hf a.stack words depth
          counted in
      let whole : take 2048 a.chunk_buf ≡ pending =
        ap (λ n. take n a.chunk_buf) (sym full) ∙ a.buffered in
      let more : length chunks + 1 ≡ length (chunks ++ pending ∷ []) =
        omega (arith, length-append chunks (pending ∷ [])) in
      (
        at (length chunks + 1) a.chunk_buf 0 p.new_rows p.new_len,
        ap (flush_chunk c) a.state
            ∙ flush_chunk_with old pending (cv_under c old t) (length chunks + 1) whole updated
                (ap (output_chaining_value c) output) (omega arith) p.returns,
        record {
          chunk_buf = a.chunk_buf;
          rows = p.new_rows;
          row_count = p.new_len;
          trees = trees';
          state = ap (λ n. at n a.chunk_buf 0 p.new_rows p.new_len) more;
          buf_size = a.buf_size;
          buffered = refl;
          forest =
              subst (λ ts. Forest node ts trees') (sym (number-append_zero chunks pending)) forest';
          stack = record { rows = p.holds.rows; held = p.holds.held; words = p.holds.words };
          full = AllFull-append chunks pending a.full full;
        },
      )
