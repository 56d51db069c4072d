-- ===== src/Parallel/Constant/Whole.antt =====
-- What the function `blake4_parallel_hash_xof` of src/blake4_parallel.c gives for large inputs.
use blake.Base.{lt→not_leb}
use blake.Base.{
  Bool, ℕ, zero, suc, ◌+◌, ◌-◌, ◌*◌, ◌/◌, ◌<◌, ◌≤◌, ◌≡◌, ◌⊎◌, inl, inr, refl, sym, ap, ap₂, ◌∙◌,
  arith,
}
use blake.Base.{List, [], ◌∷◌, map, take, drop, length, Option, none, some, some_inj, ◌>>=◌}
use blake.Base.{true, ltb, ◌==◌, if◌then◌else◌, le→not_ltb, length-take, length-drop}
use blake.Word.{u64, words_to_bytes}
use blake.Compress.{Compressor}
use blake.Hasher.Update.{hasher_update}
use blake.Parallel.{
  init_for, parallel_init, work_units, process_chunks, run_units, collect, parallel_update,
  parallel_finalize, thread_count, hash_in_parallel, parallel_hash_xof,
}
use blake.Parallel.Constant.{process_chunks-cv}

-- The lengths of the pieces.
abbrev sizes : List (List ℕ × ℕ) → List ℕ
sizes units = map (λ u. length u.0) units

work_units-sizes :
    (threads bytes total offset : ℕ) (a b : List ℕ)
    → length a ≡ length b
    → sizes (work_units threads bytes total offset a)
      ≡ sizes (work_units threads bytes total offset b)
unfolding work_units
work_units-sizes zero bytes total offset a b e = refl
work_units-sizes (suc threads) bytes total offset [] [] e = refl
work_units-sizes (suc threads) bytes total offset [] (y ∷ b) e = absurd (omega (arith, e))
work_units-sizes (suc threads) bytes total offset (x ∷ a) [] e = absurd (omega (arith, e))
work_units-sizes (suc threads) bytes total offset (x ∷ a) (y ∷ b) e =
    let n = if threads == 0 then length (x ∷ a) else bytes in
    let m = if threads == 0 then length (y ∷ b) else bytes in
    let same : n ≡ m = ap (λ k. if threads == 0 then k else bytes) e in
    let taken : length (take n (x ∷ a)) ≡ length (take m (y ∷ b)) =
      omega (arith, same, e, length-take n (x ∷ a), length-take m (y ∷ b)) in
    let left : length (drop n (x ∷ a)) ≡ length (drop m (y ∷ b)) =
      omega (arith, same, e, length-drop n (x ∷ a), length-drop m (y ∷ b)) in
    ap₂ ◌∷◌ taken (
      work_units-sizes threads bytes total (offset + length (take n (x ∷ a))) (drop n (x ∷ a))
        (drop m (y ∷ b)) left
      ∙ ap (λ k. sizes (work_units threads bytes total (offset + k) (drop m (y ∷ b)))) taken)

bind-some :
    {A B : Type 0} (o : Option A) (f : A → Option B) (b : B)
    → (o >>= f) ≡ some b
    → (a : A) × (o ≡ some a) × (f a ≡ some b)
bind-some none f b e = absurd (cc)
bind-some (some a) f b e = (a, refl, e)

module _ (c : Compressor) where
  -- The number of chunks that a worker counts.
  abbrev counted : ℕ → ℕ
  counted size = let chunks = u64 (size + 2048 - 1) / 2048 in if chunks == 0 then 1 else chunks

  abbrev answer : Option (List ℕ) → ℕ → List ℕ × ℕ
  answer key size = (words_to_bytes (init_for key).cv, counted size)

  process_chunks-counted :
      (key : Option (List ℕ)) (piece : List ℕ) (chunk_start : ℕ) (r : List ℕ × ℕ)
      → process_chunks c key piece chunk_start ≡ some r
      → r.1 ≡ counted (length piece)
  unfolding process_chunks
  process_chunks-counted key piece chunk_start r e =
      let (h, _, ends) =
        bind-some (hasher_update c (record (init_for key) { chunk_counter = chunk_start }) piece)
          (λ h. some (words_to_bytes h.cv, counted (length piece))) r e in
      sym (ap (λ (x : List ℕ × ℕ). x.1) (some_inj ends))

  process_chunks-answer :
      (key : Option (List ℕ)) (piece : List ℕ) (chunk_start : ℕ) (r : List ℕ × ℕ)
      → process_chunks c key piece chunk_start ≡ some r
      → r ≡ answer key (length piece)
  process_chunks-answer key piece chunk_start r e =
      ap₂ (λ x y. (x, y)) (process_chunks-cv c key piece chunk_start r e)
        (process_chunks-counted key piece chunk_start r e)

  run_units-answer :
      (key : Option (List ℕ)) (units : List (List ℕ × ℕ)) (rs : List (List ℕ × ℕ))
      → run_units c key units ≡ some rs
      → rs ≡ map (answer key) (sizes units)
  unfolding run_units
  run_units-answer key [] rs e = sym (some_inj e)
  run_units-answer key (u ∷ units) rs e =
      let (r, first, more) = bind-some (process_chunks c key u.0 u.1) _ rs e in
      let (rest, others, ends) = bind-some (run_units c key units) _ rs more in
      sym (some_inj ends)
      ∙ ap₂ ◌∷◌ (process_chunks-answer key u.0 u.1 r first) (run_units-answer key units rest others)

  -- The units of an input for `threads` workers of a new hasher.
  abbrev units_of : ℕ → List ℕ → List (List ℕ × ℕ)
  units_of threads input =
      let per_thread = length input / 2048 / threads in
      work_units threads ((if ltb per_thread 1 then 1 else per_thread) * 2048) 0 0 input

  units_of-sizes :
      (threads : ℕ) (a b : List ℕ)
      → length a ≡ length b
      → sizes (units_of threads a) ≡ sizes (units_of threads b)
  units_of-sizes threads a b e =
      let bytes =
        λ (size : ℕ). (if ltb (size / 2048 / threads) 1 then 1 else size / 2048 / threads) * 2048 in
      work_units-sizes threads (bytes (length a)) 0 0 a b e
      ∙ ap (λ size. sizes (work_units threads (bytes size) 0 0 b)) e

  parallel_update-large :
      (grows : Bool) (threads : ℕ) (input : List ℕ)
      → 1048576 ≤ length input
      → 1 < threads
      → parallel_update c true grows (parallel_init threads none) input ≡ (
          run_units c none (units_of threads input) >>= λ rs.
          some (collect c grows (parallel_init threads none) rs))
  unfolding parallel_update parallel_init
  parallel_update-large grows threads [] large many = absurd (omega arith)
  parallel_update-large grows threads (x ∷ input) large many =
      rw (le→not_ltb (length (x ∷ input)) 1048576 large, lt→not_leb threads 1 many) refl

  -- Two results of large inputs of one length agree.
  hash_in_parallel_same :
      (grows : Bool) (a b : List ℕ) (out_len num_threads : ℕ) (x y : List ℕ)
      → 1048576 ≤ length a
      → length a ≡ length b
      → 1 < num_threads
      → hash_in_parallel c true grows a out_len num_threads ≡ some x
      → hash_in_parallel c true grows b out_len num_threads ≡ some y
      → x ≡ y
  unfolding hash_in_parallel thread_count
  hash_in_parallel_same grows a b out_len num_threads x y large e many p q =
      let threads = thread_count 1 num_threads in
      let several : 1 < threads = ground arith in
      let h = parallel_init threads none in
      let (ha, pa, fa) = bind-some (parallel_update c true grows h a) _ x p in
      let (hb, pb, fb) = bind-some (parallel_update c true grows h b) _ y q in
      let (ra, ua, ca) =
        bind-some (run_units c none (units_of threads a)) _ ha
          (sym (parallel_update-large grows threads a large several) ∙ pa) in
      let (rb, ub, cb) =
        bind-some (run_units c none (units_of threads b)) _ hb
          (sym (parallel_update-large grows threads b (omega (arith, e)) several) ∙ pb) in
      let results : ra ≡ rb =
        run_units-answer none (units_of threads a) ra ua
        ∙ ap (map (answer none)) (units_of-sizes threads a b e)
        ∙ sym (run_units-answer none (units_of threads b) rb ub) in
      let hashers : ha ≡ hb = sym (some_inj ca) ∙ ap (collect c grows h) results ∙ some_inj cb in
      some_inj (sym fa ∙ ap (λ s. parallel_finalize c s out_len >>= λ r. some r.0) hashers ∙ fb)

  agree :
      {A : Type 0} (p q : Option A)
      → ((x y : A) → p ≡ some x → q ≡ some y → x ≡ y)
      → (p ≡ none) ⊎ ((q ≡ none) ⊎ (p ≡ q))
  agree none q h = inl refl
  agree (some x) none h = inr (inl refl)
  agree (some x) (some y) h = inr (inr (ap some (h x y refl refl)))

  -- For two inputs of one length of 1 MiB or more and at least two threads, with a hasher and with
  -- memory for the units of work, and with or without room for more results: an access out of
  -- bounds is made for one of the inputs, or the parallel hashes of the two are the same bytes.
  -- The output depends on the length alone.
  pub parallel_hash_xof_same :
      (grows : Bool) (a b : List ℕ) (out_len num_threads : ℕ)
      → 1048576 ≤ length a
      → length a ≡ length b
      → 1 < num_threads
      → (parallel_hash_xof c true true grows a out_len num_threads ≡ none)
        ⊎ ((parallel_hash_xof c true true grows b out_len num_threads ≡ none)
            ⊎ (parallel_hash_xof c true true grows a out_len num_threads
                ≡ parallel_hash_xof c true true grows b out_len num_threads))
  unfolding parallel_hash_xof
  parallel_hash_xof_same grows a b out_len num_threads large e many =
      rw
        (
          le→not_ltb (length a) 1048576 large,
          le→not_ltb (length b) 1048576 (omega (arith, e)),
          lt→not_leb num_threads 1 many,
        )
        (agree (hash_in_parallel c true grows a out_len num_threads)
          (hash_in_parallel c true grows b out_len num_threads)
          (λ x y. hash_in_parallel_same grows a b out_len num_threads x y large e many))
