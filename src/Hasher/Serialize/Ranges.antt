-- ===== src/Hasher/Serialize/Ranges.antt =====
-- What a successful load has checked, and what it has not: a state that passes can still make the
-- next update pop from an empty stack.
use blake.Base.{ℕ, zero, suc, ◌+◌, ◌%◌, ◌≤◌, ◌≡◌, refl, ap, subst, arith}
use blake.Base.{List, [], ◌∷◌, drop, take, length, get_elem?, Option, none, some, ◌>>=◌, some_inj}
use blake.Base.{ltb, Bool-cases, not_ltb→le, inl, inr, eq→==}
use blake.Word.{u64}
use blake.Compress.{Compressor}
use blake.Hasher.{Blake4Hasher}
use blake.Hasher.Node.{output_chaining_value}
use blake.Hasher.Chunk.{chunk_state_init, chunk_state_update, chunk_state_output}
use blake.Hasher.Stack.{pop_merge, push_loop, hasher_push_cv}
use blake.Hasher.Update.{flush_chunk, update_round, update_loop, hasher_update}
use blake.Hasher.Serialize.{
  serialize_magic, serialized_size, starts_with, load_head, load_chunk, load_stack, load_fields,
  hasher_deserialize,
}

-- The three lengths.
abbrev pub InRange : Blake4Hasher → Type 0
InRange h = (h.buf_len ≤ 128) × (h.chunk_buf_len ≤ 2048) × (h.cv_stack_len ≤ 54)

-- The three checks in their order, with what each leaves.
load_fields-InRange :
    (self : Blake4Hasher) (p : List ℕ) → (load_fields self p).0 ≡ 1 → InRange (load_fields self p).1
unfolding load_fields load_head load_chunk load_stack
load_fields-InRange self p =
    let h1 = (load_head self p).0 in
    let h2 = (load_chunk h1 (load_head self p).1).0 in
    let h3 = (load_stack h2 (load_chunk h1 (load_head self p).1).1).0 in
    elim (Bool-cases (ltb 128 h1.buf_len)) [
      | inl a ↦ rw (a) (λ e. absurd (omega (arith, e)))
      | inr a ↦ elim (Bool-cases (ltb 2048 h2.chunk_buf_len)) [
        | inl b ↦ rw (a, b) (λ e. absurd (omega (arith, e)))
        | inr b ↦ elim (Bool-cases (ltb 54 h3.cv_stack_len)) [
          | inl d ↦ rw (a, b, d) (λ e. absurd (omega (arith, e)))
          | inr d ↦
              rw (a, b, d)
                (λ e. (
                  not_ltb→le 128 h1.buf_len a,
                  not_ltb→le 2048 h2.chunk_buf_len b,
                  not_ltb→le 54 h3.cv_stack_len d,
                ))
        ]
      ]
    ]

-- When a load returns 1, the three lengths of the loaded hasher fit their buffers: at most 128,
-- 2048 and 54.
pub hasher_deserialize-InRange :
    (self h : Blake4Hasher) (buf : List ℕ) (n : ℕ)
    → hasher_deserialize (some self) (some buf) n ≡ (1, some h)
    → InRange h
unfolding hasher_deserialize
hasher_deserialize-InRange self h buf n = elim (Bool-cases (ltb n serialized_size)) [
  | inl a ↦ rw (a) (λ e. absurd (omega (arith, ap (λ (r : ℕ × Option Blake4Hasher). r.0) e)))
  | inr a ↦ elim (Bool-cases (starts_with buf serialize_magic)) [
    | inr b ↦ rw (a, b) (λ e. absurd (omega (arith, ap (λ (r : ℕ × Option Blake4Hasher). r.0) e)))
    | inl b ↦
        rw (a, b)
          (λ e.
            subst (λ (x : Blake4Hasher). InRange x)
              (some_inj (ap (λ (r : ℕ × Option Blake4Hasher). r.1) e))
              (load_fields-InRange self (drop 8 buf) (ap (λ (r : ℕ × Option Blake4Hasher). r.0) e)))
  ]
]

get_elem?-past : (rows : List (List ℕ)) (i : ℕ) → length rows ≤ i → get_elem? rows i ≡ none
get_elem?-past [] i h = refl
get_elem?-past (r ∷ rows) zero h = absurd (omega arith)
get_elem?-past (r ∷ rows) (suc i) h = get_elem?-past rows i (omega arith)

bind-none :
    {A B : Type 0} (o : Option A) (f : A → Option B) → ((a : A) → f a ≡ none) → (o >>= f) ≡ none
bind-none none f h = refl
bind-none (some a) f h = h a

module _ (c : Compressor) where
  pop_merge-empty :
      (h : Blake4Hasher) (cv : List ℕ)
      → length h.cv_stack ≡ 54
      → h.cv_stack_len ≡ 0
      → pop_merge c h cv ≡ none
  unfolding pop_merge
  pop_merge-empty h cv rows empty = rw (empty, get_elem?-past h.cv_stack 255 (omega (arith, rows)))

  hasher_push_cv-empty :
      (h : Blake4Hasher) (cv : List ℕ) (total : ℕ)
      → length h.cv_stack ≡ 54
      → h.cv_stack_len ≡ 0
      → total % 2 ≡ 0
      → hasher_push_cv c h cv total ≡ none
  unfolding hasher_push_cv push_loop
  hasher_push_cv-empty h cv total rows empty even =
      rw (eq→== (total % 2) 0 even, pop_merge-empty h cv rows empty)

  pub flush_chunk-empty :
      (h : Blake4Hasher)
      → length h.cv_stack ≡ 54
      → h.cv_stack_len ≡ 0
      → h.chunk_counter % 2 ≡ 1
      → flush_chunk c h ≡ none
  unfolding flush_chunk
  flush_chunk-empty h rows empty odd =
      let counted : Blake4Hasher → Option Blake4Hasher =
        λ h'. some (record h' { chunk_counter = u64 (h.chunk_counter + 1); chunk_buf_len = 0 }) in
      bind-none
        (chunk_state_update c (chunk_state_init h.key_words h.chunk_counter h.flags)
          (take 2048 h.chunk_buf))
        (λ s.
          hasher_push_cv c h (output_chaining_value c (chunk_state_output s))
            (u64 (h.chunk_counter + 1))
          >>= counted)
        (λ s.
          ap (λ o. o >>= counted)
            (hasher_push_cv-empty h (output_chaining_value c (chunk_state_output s))
              (u64 (h.chunk_counter + 1)) rows empty (omega (arith, odd))))

  -- An update with input faults on a hasher with an odd number of chunks, a full chunk buffer and
  -- an empty stack of 54 rows: the merge decrements the stack length from 0 and reads row 255.
  pub hasher_update-empty :
      (h : Blake4Hasher) (x : ℕ) (input : List ℕ)
      → length h.cv_stack ≡ 54
      → h.cv_stack_len ≡ 0
      → h.chunk_counter % 2 ≡ 1
      → h.chunk_buf_len ≡ 2048
      → hasher_update c h (x ∷ input) ≡ none
  unfolding hasher_update update_loop update_round
  hasher_update-empty h x input rows empty odd full =
      rw (eq→== h.chunk_buf_len 2048 full, flush_chunk-empty h rows empty odd)
