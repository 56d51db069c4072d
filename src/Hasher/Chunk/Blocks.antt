-- ===== src/Hasher/Chunk/Blocks.antt =====
-- A chunk as a chain of blocks, and the proof that the chunk state computes it.
use native.Mathlib.Decide.{dec_lt}
use blake.Base.{ℕ, zero, suc, ◌+◌, ◌-◌, ◌*◌, ◌≤◌, ◌<◌, ◌≡◌, refl, sym, ap, ◌∙◌, arith}
use blake.Base.{
  bit_or, List, [], ◌∷◌, ◌++◌, take, drop, length, replicate, min, append_assoc, append-nil,
}
use blake.Base.{length-append, length-take, length-drop, length-replicate, take-append, drop-append}
use blake.Base.{some, ltb, ◌==◌, if◌then◌else◌, memcpy, memcpy_fits}
use blake.Base.{fit_count, fit_count_lem, splice_behind, drop-replicate}
use blake.Base.{take-append-drop, le→not_ltb, lt→ltb, ne→not_==, eq→==}
use blake.Word.{u8}
use blake.Compress.{Compressor}
use blake.Hasher.{Output, ChunkState, chunk_start, chunk_end}
use blake.Hasher.Chunk.{
  chunk_state_init, compress_buffer, fill_buffer, update_round, update_loop, chunk_state_update,
  chunk_state_output,
}

-- A block is padded with zeros.
abbrev pub pad : List ℕ → List ℕ
pad bytes = bytes ++ replicate (128 - length bytes) 0

abbrev pub start_flag : ℕ → ℕ
start_flag n = if n == 0 then chunk_start else 0

module _ (c : Compressor) (counter flags : ℕ) where
  -- The output of the last block, after `n` others.
  unfoldable pub last_block : ℕ → List ℕ → List ℕ → Output
  last_block n cv bytes = record {
    input_cv = cv;
    block = pad bytes;
    len = length bytes;
    counter = counter;
    flags = bit_or (bit_or flags (start_flag n)) chunk_end;
  }

  unfoldable pub next_cv : ℕ → List ℕ → List ℕ → List ℕ
  next_cv n cv block = take 8 (c.compress cv block 128 counter (bit_or flags (start_flag n)))

  -- The chain from a block on: all blocks but the last are full, and a last block that is full
  -- is still the last.
  unfoldable pub chain : ℕ → ℕ → List ℕ → List ℕ → Output
  chain zero n cv bytes = last_block n cv bytes
  chain (suc more) n cv bytes =
      let deeper = chain more (n + 1) (next_cv n cv (take 128 bytes)) (drop 128 bytes) in
      if ltb 128 (length bytes) then deeper else last_block n cv bytes

-- A chunk has sixteen blocks at most.
unfoldable pub chunk_output : Compressor → List ℕ → ℕ → ℕ → List ℕ → Output
chunk_output c key counter flags bytes = chain c counter flags 15 0 (take 8 key) bytes

module _ (c : Compressor) (counter flags : ℕ) where
  -- The chunk state after `n` full blocks with the bytes `p` in its buffer.
  abbrev state : ℕ → List ℕ → List ℕ → ChunkState
  state n cv p = record {
    cv = cv;
    chunk_counter = counter;
    buf = pad p;
    buf_len = length p;
    blocks_compressed = n;
    flags = flags;
  }

  fill_buffer_with :
      (s : ChunkState) (r : List ℕ) (k : ℕ) {buf : List ℕ} (n : ℕ)
      → fit_count 128 s.buf_len (length r) ≡ k
      → memcpy s.buf s.buf_len (take k r) ≡ some buf
      → u8 (s.buf_len + u8 k) ≡ n
      → fill_buffer s r ≡ some (record s { buf = buf; buf_len = n }, drop k r)
  unfolding fill_buffer
  fill_buffer_with s r k n e copied counted = rw (e, copied, counted)

  pad-append :
      (p r : List ℕ) (k : ℕ)
      → k ≡ min (128 - length p) (length r)
      → length p ≤ 128
      → memcpy (pad p) (length p) (take k r) ≡ some (pad (p ++ take k r))
  pad-append p r k e h =
      let size : length (take k r) ≡ k = omega (arith, length-take k r) in
      let room : length (pad p) ≡ 128 = omega (
        arith,
        length-append p (replicate (128 - length p) 0),
        length-replicate {A = ℕ} (128 - length p) 0,
      ) in
      let left : 128 - length p - length (take k r) ≡ 128 - length (p ++ take k r) =
        omega (arith, length-append p (take k r)) in
      memcpy_fits (pad p) (length p) (take k r) (omega arith)
      ∙ ap some (
          splice_behind p (replicate (128 - length p) 0) (take k r)
          ∙ ap (λ z. p ++ (take k r ++ z)) (drop-replicate (length (take k r)) (128 - length p) 0)
          ∙ sym (append_assoc p (take k r) _)
          ∙ ap (λ n. (p ++ take k r) ++ replicate n 0) left)

  fill_buffer-state :
      (n : ℕ) (cv p r : List ℕ) (k : ℕ)
      → k ≡ min (128 - length p) (length r)
      → length p ≤ 128
      → fill_buffer (state n cv p) r ≡ some (state n cv (p ++ take k r), drop k r)
  fill_buffer-state n cv p r k e h =
      fill_buffer_with (state n cv p) r k (length (p ++ take k r))
        (fit_count_lem 128 (length p) (length r) h (omega arith) ∙ sym e) (pad-append p r k e h)
        (omega (arith, length-append p (take k r), length-take k r))

  compress_buffer-state :
      (n : ℕ) (cv p : List ℕ)
      → length p ≡ 128
      → n < 255
      → compress_buffer c (state n cv p) ≡ state (n + 1) (next_cv c counter flags n cv p) []
  unfolding compress_buffer next_cv
  compress_buffer-state n cv p h lt =
      let full : pad p ≡ p = ap (λ m. p ++ replicate (128 - m) 0) h ∙ append-nil p in
      let count : u8 (n + 1) ≡ n + 1 = omega arith in
      λ i.
        state (count i) (take 8 (c.compress cv (full i) 128 counter (bit_or flags (start_flag n))))
          []

  output-state :
      (n : ℕ) (cv p : List ℕ)
      → chunk_state_output (state n cv p) ≡ last_block c counter flags n cv p
  unfolding chunk_state_output last_block
  output-state n cv p = refl

  chain_short :
      (more n : ℕ) (cv p : List ℕ)
      → length p ≤ 128
      → chain c counter flags more n cv p ≡ last_block c counter flags n cv p
  unfolding chain
  chain_short zero n cv p h = refl
  chain_short (suc more) n cv p h = rw (le→not_ltb 128 (length p) h)

  chain_long :
      (more n : ℕ) (cv p r : List ℕ)
      → length p ≡ 128
      → 0 < length r
      → chain c counter flags (suc more) n cv (p ++ r)
        ≡ chain c counter flags more (n + 1) (next_cv c counter flags n cv p) r
  unfolding chain
  chain_long more n cv p r h pos = rw (
    lt→ltb 128 (length (p ++ r)) (omega (arith, length-append p r)),
    take-append 128 p r h,
    drop-append 128 p r h,
  )

  loop_step :
      (fuel : ℕ) (s : ChunkState) (x : ℕ) (r : List ℕ) {s' : ChunkState} {rest : List ℕ}
      → update_round c s (x ∷ r) ≡ some (s', rest)
      → update_loop c (suc fuel) s (x ∷ r) ≡ update_loop c fuel s' rest
  unfolding update_loop
  loop_step fuel s x r e = rw e

  round_room :
      (n : ℕ) (cv p r : List ℕ)
      → length p < 128
      → let k = min (128 - length p) (length r) in
        update_round c (state n cv p) r ≡ some (state n cv (p ++ take k r), drop k r)
  unfolding update_round
  round_room n cv p r h =
      rw (ne→not_== (length p) 128 (λ e. absurd (omega arith)))
        (fill_buffer-state n cv p r _ refl (omega arith))

  round_full :
      (n : ℕ) (cv p r : List ℕ)
      → length p ≡ 128
      → n < 255
      → let k = min 128 (length r) in
        update_round c (state n cv p) r
        ≡ some (state (n + 1) (next_cv c counter flags n cv p) (take k r), drop k r)
  unfolding update_round
  round_full n cv p r h lt =
      rw (eq→== (length p) 128 h, compress_buffer-state n cv p h lt)
        (fill_buffer-state (n + 1) (next_cv c counter flags n cv p) [] r _ refl (omega arith))

  -- Where the input that is left fits the blocks that are left, the loop ends without a fault,
  -- and its output is that of the chain.
  update_loop-chain :
      (fuel more n : ℕ) (cv p r : List ℕ)
      → length p ≤ 128
      → length r ≤ fuel
      → length (p ++ r) ≤ 128 * (more + 1)
      → n + more < 255
      → (s : ChunkState) × (update_loop c fuel (state n cv p) r ≡ some s)
        × (chunk_state_output s ≡ chain c counter flags more n cv (p ++ r))
  update_loop-chain fuel more n cv p [] h enough fits lt = (
    state n cv p,
    unfold update_loop in refl,
    output-state n cv p
        ∙ sym (chain_short more n cv p h)
        ∙ ap (chain c counter flags more n cv) (sym (append-nil p)),
  )
  update_loop-chain zero more n cv p (x ∷ r) h enough fits lt = absurd (omega arith)
  update_loop-chain (suc fuel) more n cv p (x ∷ r) h enough fits lt = elim (dec_lt (length p) 128) [
    | yes room ↦
        let k = min (128 - length p) (length (x ∷ r)) in
        let joined : (p ++ take k (x ∷ r)) ++ drop k (x ∷ r) ≡ p ++ x ∷ r =
          append_assoc p (take k (x ∷ r)) (drop k (x ∷ r))
          ∙ ap (λ z. p ++ z) (take-append-drop k (x ∷ r)) in
        let ih =
          update_loop-chain fuel more n cv (p ++ take k (x ∷ r)) (drop k (x ∷ r))
            (omega (arith, length-append p (take k (x ∷ r)), length-take k (x ∷ r)))
            (omega (arith, length-drop k (x ∷ r))) (omega (arith, ap length joined)) lt in
        (
          ih.0,
          loop_step fuel (state n cv p) x r (round_room n cv p (x ∷ r) room) ∙ ih.1,
          ih.2 ∙ ap (chain c counter flags more n cv) joined,
        )
    | no full ↦
        let eq : length p ≡ 128 = omega arith in
        let k = min 128 (length (x ∷ r)) in
        let cv' = next_cv c counter flags n cv p in
        let sizes = length-append p (x ∷ r) in
        let e : more ≡ suc (more - 1) = omega arith in
        let joined = take-append-drop k (x ∷ r) in
        let ih =
          update_loop-chain fuel (more - 1) (n + 1) cv' (take k (x ∷ r)) (drop k (x ∷ r))
            (omega (arith, length-take k (x ∷ r))) (omega (arith, length-drop k (x ∷ r)))
            (omega (arith, ap length joined)) (omega arith) in
        (
          ih.0,
          loop_step fuel (state n cv p) x r (round_full n cv p (x ∷ r) eq (omega arith)) ∙ ih.1,
          ih.2
              ∙ ap (chain c counter flags (more - 1) (n + 1) cv') joined
              ∙ sym (chain_long (more - 1) n cv p (x ∷ r) eq (omega arith))
              ∙ ap (λ m. chain c counter flags m n cv (p ++ x ∷ r)) (sym e),
        )
  ]

-- A chunk of at most 2048 bytes goes through the chunk state without an access out of bounds, and
-- its output is that of the chain of its blocks of 128 bytes, the last one padded with zeros.
pub chunk_state-chunk_output :
    (c : Compressor) (key : List ℕ) (counter flags : ℕ) (bytes : List ℕ)
    → length bytes ≤ 2048
    → (s : ChunkState) × (chunk_state_update c (chunk_state_init key counter flags) bytes ≡ some s)
      × (chunk_state_output s ≡ chunk_output c key counter flags bytes)
unfolding chunk_state_update chunk_state_init chunk_output
chunk_state-chunk_output c key counter flags bytes h =
    update_loop-chain c counter flags (length bytes) 15 0 (take 8 key) [] bytes (omega arith)
      (omega arith) (omega arith) (omega arith)
