-- ===== src/Parallel/Faults.antt =====
-- What a worker of src/blake4_parallel.c computes: it starts an empty stack at a chunk number that
-- the stack does not fit, and takes a chaining value that no update writes.
use blake.Base.{ℕ, zero, suc, ◌%◌, ◌^◌, ◌<◌, ◌≡◌, refl, ◌∙◌, arith}
use blake.Base.{List, [], ◌∷◌, take, drop, length, length-take, length-drop}
use blake.Base.{Option, none, some, false, ◌==◌, eq→==, ne→not_==}
use blake.Base.{memcpy_fits, splice, fit_count, fit_count_lem}
use blake.Compress.{Compressor}
use blake.Hasher.{Blake4Hasher}
use blake.Hasher.Update.{fill_chunk, update_round, update_loop, hasher_update}
use blake.Hasher.Init.{hasher_init, hasher_init_keyed, with_key, cleared}
use blake.Hasher.Serialize.Ranges.{flush_chunk-empty}
use blake.Parallel.{init_for, process_chunks}

module _ (c : Compressor) where
  -- Once a chunk is full, the next round faults.
  update_loop-empty :
      (fuel : ℕ) (h : Blake4Hasher) (input : List ℕ)
      → 0 < length input
      → length h.cv_stack ≡ 54
      → h.cv_stack_len ≡ 0
      → h.chunk_counter % 2 ≡ 1
      → h.chunk_buf_len ≡ 2048
      → update_loop c fuel h input ≡ none
  unfolding update_loop update_round
  update_loop-empty fuel h [] more rows empty odd full = absurd (omega arith)
  update_loop-empty zero h (x ∷ input) more rows empty odd full = refl
  update_loop-empty (suc fuel) h (x ∷ input) more rows empty odd full =
      rw (eq→== h.chunk_buf_len 2048 full, flush_chunk-empty c h rows empty odd)

  -- The first round fills the chunk buffer.
  fill_chunk-first :
      (h : Blake4Hasher) (input : List ℕ)
      → h.chunk_buf_len ≡ 0
      → length h.chunk_buf ≡ 2048
      → 2048 < length input
      → length input < 2 ^ 64
      → fill_chunk h input
        ≡ some (
          record h { chunk_buf = splice h.chunk_buf 0 (take 2048 input); chunk_buf_len = 2048 },
          drop 2048 input,
        )
  unfolding fill_chunk
  fill_chunk-first h input empty size long fits =
      let count : fit_count 2048 0 (length input) ≡ 2048 =
        fit_count_lem 2048 0 (length input) (omega arith) (omega arith) ∙ omega arith in
      rw (
        empty,
        count,
        memcpy_fits h.chunk_buf 0 (take 2048 input) (omega (arith, size, length-take 2048 input)),
      )

  hasher_update-odd :
      (h : Blake4Hasher) (input : List ℕ)
      → length h.cv_stack ≡ 54
      → h.cv_stack_len ≡ 0
      → h.chunk_counter % 2 ≡ 1
      → h.chunk_buf_len ≡ 0
      → length h.chunk_buf ≡ 2048
      → 2048 < length input
      → length input < 2 ^ 64
      → hasher_update c h input ≡ none
  unfolding hasher_update update_loop update_round
  hasher_update-odd h [] rows empty odd none_buffered size long fits = absurd (omega arith)
  hasher_update-odd h (x ∷ input) rows empty odd none_buffered size long fits =
      let room : (h.chunk_buf_len == 2048) ≡ false =
        ne→not_== h.chunk_buf_len 2048 (λ e. omega (arith, e, none_buffered)) in
      let h1 : Blake4Hasher = record h {
        chunk_buf = splice h.chunk_buf 0 (take 2048 (x ∷ input));
        chunk_buf_len = 2048;
      } in
      rw (room, fill_chunk-first h (x ∷ input) none_buffered size long fits)
        (update_loop-empty (length input) h1 (drop 2048 (x ∷ input))
          (omega (arith, length-drop 2048 (x ∷ input))) rows empty odd refl)

  -- A worker whose piece starts at a chunk with an odd number and has more than 2048 bytes, fewer
  -- than 2^64, makes an access out of bounds: its stack is empty, and its first push merges.
  pub process_chunks-odd :
      (key : Option (List ℕ)) (piece : List ℕ) (chunk_start : ℕ)
      → chunk_start % 2 ≡ 1
      → 2048 < length piece
      → length piece < 2 ^ 64
      → process_chunks c key piece chunk_start ≡ none
  unfolding process_chunks init_for hasher_init hasher_init_keyed with_key cleared
  process_chunks-odd none piece n odd long fits = rw (
      hasher_update-odd (record hasher_init { chunk_counter = n }) piece refl refl odd refl refl
        long fits)
  process_chunks-odd (some key) piece n odd long fits = rw (
      hasher_update-odd (record (hasher_init_keyed key) { chunk_counter = n }) piece refl refl odd
        refl refl long fits)
