-- ===== src/Parallel/Constant.antt =====
-- No update writes the field `cv`, which is what src/blake4_parallel.c takes as the chaining value of
-- a piece.
pub mod Whole
use blake.Base.{
  ℕ, zero, suc, ◌+◌, ◌/◌, ◌%◌, ◌≡◌, ◌-◌, refl, sym, ap, subst, ◌∙◌, List, [], ◌∷◌, take, drop,
  length, some_inj,
}
use blake.Base.{
  Option, none, some, ◌>>=◌, ltb, ◌==◌, if◌then◌else◌, if-cases, memcpy, fit_count, get_elem?,
}
use blake.Word.{u8, u16, u64, words_to_bytes, words_from_bytes}
use blake.Compress.{Compressor}
use blake.Hasher.{Blake4Hasher}
use blake.Hasher.Node.{parent_cv, output_chaining_value}
use blake.Hasher.Chunk.{chunk_state_init, chunk_state_update, chunk_state_output}
use blake.Hasher.Stack.{store_row, pop_merge, push_loop, hasher_push_cv}
use blake.Hasher.Update.{flush_chunk, fill_chunk, update_round, update_loop, hasher_update}
use blake.Parallel.{init_for, process_chunks}

-- The field is as it was, where the call returns.
abbrev Keeps : List ℕ → Option Blake4Hasher → Type 0
Keeps cv none = Unit {0}
Keeps cv (some h) = h.cv ≡ cv

-- The same for a call that returns something else as well.
abbrev KeepsWith : {A : Type 0} → List ℕ → Option (Blake4Hasher × A) → Type 0
KeepsWith cv none = Unit {0}
KeepsWith cv (some r) = r.0.cv ≡ cv

bind-Keeps :
    {A : Type 0} (cv : List ℕ) (o : Option A) (f : A → Option Blake4Hasher)
    → ((a : A) → Keeps cv (f a))
    → Keeps cv (o >>= f)
bind-Keeps cv none f k = tt
bind-Keeps cv (some a) f k = k a

bind-Keeps_after :
    (cv : List ℕ) (o : Option Blake4Hasher) (f : Blake4Hasher → Option Blake4Hasher)
    → Keeps cv o
    → ((h : Blake4Hasher) → h.cv ≡ cv → Keeps cv (f h))
    → Keeps cv (o >>= f)
bind-Keeps_after cv none f k g = tt
bind-Keeps_after cv (some h) f k g = g h k

bind-KeepsWith :
    {A : Type 0} (cv : List ℕ) (o : Option (Blake4Hasher × A))
    (f : Blake4Hasher × A → Option Blake4Hasher)
    → KeepsWith cv o
    → ((r : Blake4Hasher × A) → r.0.cv ≡ cv → Keeps cv (f r))
    → Keeps cv (o >>= f)
bind-KeepsWith cv none f k g = tt
bind-KeepsWith cv (some r) f k g = g r k

module _ (c : Compressor) where
  pop_merge-cv : (h : Blake4Hasher) (v : List ℕ) → KeepsWith h.cv (pop_merge c h v)
  unfolding pop_merge
  pop_merge-cv h v = go (get_elem? h.cv_stack (u8 (h.cv_stack_len + 255)))
    where
      go :
          (o : Option (List ℕ))
          → KeepsWith h.cv (
              o >>= λ row. some (
                record h { cv_stack_len = u8 (h.cv_stack_len + 255) },
                parent_cv c (words_from_bytes row) v h.key_words h.flags,
              ))
      go none = tt
      go (some row) = refl

  store_row-cv : (h : Blake4Hasher) (v : List ℕ) → Keeps h.cv (store_row h v)
  unfolding store_row
  store_row-cv h v =
      if-cases (Keeps h.cv) (ltb h.cv_stack_len (length h.cv_stack)) _ _ (λ _. refl) (λ _. tt)

  push_loop-cv :
      (fuel : ℕ) (h : Blake4Hasher) (v cv : List ℕ) (total : ℕ)
      → h.cv ≡ cv
      → Keeps cv (push_loop c fuel h v total)
  unfolding push_loop
  push_loop-cv zero h v cv total e = tt
  push_loop-cv (suc fuel) h v cv total e =
      if-cases (Keeps cv) (total % 2 == 0) _ _
        (λ _.
          bind-KeepsWith cv (pop_merge c h v) (λ r. push_loop c fuel r.0 r.1 (total / 2))
            (subst (λ z. KeepsWith z (pop_merge c h v)) e (pop_merge-cv h v))
            (λ r k. push_loop-cv fuel r.0 r.1 cv (total / 2) k))
        (λ _. subst (λ z. Keeps z (store_row h v)) e (store_row-cv h v))

  flush_chunk-cv : (h : Blake4Hasher) → Keeps h.cv (flush_chunk c h)
  unfolding flush_chunk hasher_push_cv
  flush_chunk-cv h =
      bind-Keeps h.cv
        (chunk_state_update c (chunk_state_init h.key_words h.chunk_counter h.flags)
          (take 2048 h.chunk_buf))
        _
        (λ s.
          bind-Keeps_after h.cv
            (push_loop c 64 h (output_chaining_value c (chunk_state_output s))
              (u64 (h.chunk_counter + 1)))
            _
            (push_loop-cv 64 h (output_chaining_value c (chunk_state_output s)) h.cv
              (u64 (h.chunk_counter + 1)) refl)
            (λ h' k. k))

  fill_chunk-cv : (h : Blake4Hasher) (input : List ℕ) → KeepsWith h.cv (fill_chunk h input)
  unfolding fill_chunk
  fill_chunk-cv h input =
      let n = fit_count 2048 h.chunk_buf_len (length input) in
      go (memcpy h.chunk_buf h.chunk_buf_len (take n input))
    where
      go :
          (o : Option (List ℕ))
          → KeepsWith h.cv (
              o >>= λ chunk_buf. some (
                record h {
                  chunk_buf = chunk_buf;
                  chunk_buf_len =
                      u16 (h.chunk_buf_len + u16 (fit_count 2048 h.chunk_buf_len (length input)));
                },
                drop (fit_count 2048 h.chunk_buf_len (length input)) input,
              ))
      go none = tt
      go (some b) = refl

  bind_fill :
      (cv : List ℕ) (o : Option Blake4Hasher) (input : List ℕ)
      → Keeps cv o
      → KeepsWith cv (o >>= λ h. fill_chunk h input)
  bind_fill cv none input k = tt
  bind_fill cv (some h) input k =
      subst (λ z. KeepsWith z (fill_chunk h input)) k (fill_chunk-cv h input)

  update_round-cv : (h : Blake4Hasher) (input : List ℕ) → KeepsWith h.cv (update_round c h input)
  unfolding update_round
  update_round-cv h input =
      bind_fill h.cv (if h.chunk_buf_len == 2048 then flush_chunk c h else some h) input (
        if-cases (Keeps h.cv) (h.chunk_buf_len == 2048) (flush_chunk c h) (some h)
          (λ _. flush_chunk-cv h) (λ _. refl))

  update_loop-cv :
      (fuel : ℕ) (h : Blake4Hasher) (input cv : List ℕ)
      → h.cv ≡ cv
      → Keeps cv (update_loop c fuel h input)
  unfolding update_loop
  update_loop-cv fuel h [] cv e = e
  update_loop-cv zero h (x ∷ input) cv e = tt
  update_loop-cv (suc fuel) h (x ∷ input) cv e =
      bind-KeepsWith cv (update_round c h (x ∷ input)) (λ r. update_loop c fuel r.0 r.1)
        (subst (λ z. KeepsWith z (update_round c h (x ∷ input))) e (update_round-cv h (x ∷ input)))
        (λ r k. update_loop-cv fuel r.0 r.1 cv k)

  Keeps-some :
      (cv : List ℕ) (o : Option Blake4Hasher) (h : Blake4Hasher)
      → Keeps cv o
      → o ≡ some h
      → h.cv ≡ cv
  Keeps-some cv o h k e = subst (Keeps cv) e k

  -- Where a worker returns, the chaining value that it hands on is the key it was started with, or
  -- the initial values, whatever its piece and its chunk number are.
  pub process_chunks-cv :
      (key : Option (List ℕ)) (piece : List ℕ) (chunk_start : ℕ) (r : List ℕ × ℕ)
      → process_chunks c key piece chunk_start ≡ some r
      → r.0 ≡ words_to_bytes (init_for key).cv
  unfolding process_chunks hasher_update
  process_chunks-cv key piece chunk_start r =
      let start = record (init_for key) { chunk_counter = chunk_start } in
      go (update_loop c (length piece) start piece)
        (update_loop-cv (length piece) start piece (init_for key).cv refl)
    where
      go :
          (o : Option Blake4Hasher)
          → Keeps (init_for key).cv o
          → (o >>= λ h. some (
            words_to_bytes h.cv,
            if u64 (length piece + 2048 - 1) / 2048 == 0
                then 1
                else u64 (length piece + 2048 - 1) / 2048,
          ))
            ≡ some r
          → r.0 ≡ words_to_bytes (init_for key).cv
      go none k e = absurd (cc)
      go (some h) k e = sym (ap (λ (x : List ℕ × ℕ). x.0) (some_inj e)) ∙ ap words_to_bytes k
