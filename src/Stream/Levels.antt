-- ===== src/Stream/Levels.antt =====
-- The levels of the tree of src/blake4_stream.c: their sizes, and the number of rows written.
use blake.Base.{ℕ, zero, suc, ◌+◌, ◌-◌, ◌/◌, ◌≤◌, ◌<◌, ◌^◌, ◌≡◌, refl, ap, arith}
use blake.Base.{List, [], ◌∷◌, ◌++◌, length, length-append, take, leb}
use blake.Base.{if-cases, leb→le, not_leb→lt, length-take}
use blake.Merkle.{pair_up}
use blake.Stream.{num_chunks, hash_parent, chunk_hashes, parents, build_loop}

module _ (hash : List ℕ → List ℕ) where
  pub length-pair_up :
      (xs : List (List ℕ)) → length (pair_up (hash_parent hash) xs) ≡ (length xs + 1) / 2
  unfolding pair_up
  length-pair_up [] = omega arith
  length-pair_up (x ∷ []) = omega arith
  length-pair_up (x ∷ y ∷ xs) = omega (arith, length-pair_up xs)

  length-parents : (xs : List (List ℕ)) → length (parents hash xs) ≡ length xs / 2
  unfolding parents
  length-parents [] = omega arith
  length-parents (x ∷ []) = omega arith
  length-parents (x ∷ y ∷ xs) = omega (arith, length-parents xs)

  pub length-chunk_hashes : (input : List ℕ) (i n : ℕ) → length (chunk_hashes hash input i n) ≡ n
  unfolding chunk_hashes
  length-chunk_hashes input i zero = refl
  length-chunk_hashes input i (suc n) = ap suc (length-chunk_hashes input (i + 1) n)

  -- The levels end with one node, and each node but the leaves has been written: nothing is cut.
  pub record Built (room : ℕ) (out : List (List ℕ) × List (List ℕ)) : Type 0 where
    pub one_left : length out.0 ≡ 1
    pub all_written : length out.1 ≡ room

  pub build_loop-Built :
      (room fuel : ℕ) (level written : List (List ℕ))
      → 0 < length level
      → length level ≤ fuel + 1
      → length written + (length level - 1) ≡ room
      → Built room (build_loop hash room fuel level written)
  unfolding build_loop
  build_loop-Built room zero level written some_left enough e = record {
    one_left = omega arith;
    all_written = omega arith;
  }
  build_loop-Built room (suc fuel) level written some_left enough e =
      let next = pair_up (hash_parent hash) level in
      let rows = written ++ parents hash level in
      let size = length-pair_up level in
      let more = length-append written (parents hash level) in
      let added = length-parents level in
      if-cases (Built room) (leb (length level) 1) (level, written)
        (build_loop hash room fuel next (take room rows))
        (λ t. record {
          one_left = omega (arith, leb→le (length level) 1 t);
          all_written = omega (arith, leb→le (length level) 1 t);
        })
        (λ f.
          build_loop-Built room fuel next (take room rows)
            (omega (arith, size, not_leb→lt (length level) 1 f))
            (omega (arith, size, not_leb→lt (length level) 1 f))
            (omega
              (arith, size, more, added, not_leb→lt (length level) 1 f, length-take room rows)))

  pub num_chunks-positive : (n : ℕ) → n < 2 ^ 63 → 0 < num_chunks n
  unfolding num_chunks
  num_chunks-positive n h = ground arith
