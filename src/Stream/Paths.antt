-- ===== src/Stream/Paths.antt =====
-- The path that src/blake4_stream.c extracts for a chunk leads from its hash to the root.
pub mod Steps
use native.Mathlib.Nat.{pow-suc, div-div-eq-div-mul}
use blake.Base.{
  ℕ, zero, suc, ◌+◌, ◌-◌, ◌*◌, ◌/◌, ◌%◌, ◌^◌, ◌≤◌, ◌<◌, ◌≡◌, refl, sym, ap, ap₂, ◌∙◌, arith,
}
use blake.Base.{List, [], ◌∷◌, ◌++◌, length, take, get_or, leb, ltb, ◌==◌, if◌then◌else◌, if-cases}
use blake.Base.{
  true, false, Bool-cases, inl, inr, ==→eq, not_==→ne, take_all, ltb→lt, not_ltb→le, leb→le,
  not_leb→lt, eq→==, ne→not_==,
}
use blake.Word.{shr}
use blake.Merkle.{pair_up}
use blake.Stream.{
  num_chunks, hash_chunk, hash_parent, chunk_at, chunk_hashes, parents, build_loop, build_tree,
  all_zero, no_sibling, path_loop, extract_merkle_path, path_step, path_root, bytes_eq,
  verify_merkle_path,
}
use blake.Stream.Equal.{bytes_eq_refl}
use blake.Stream.Levels.{length-pair_up, length-chunk_hashes}
use blake.Stream.Paths.Steps.{AllNonzero, EachLevel, EachLevel-first, path_step_lem}

module _ (hash : List ℕ → List ℕ) where
  get_or-default :
      (level : List (List ℕ)) (i : ℕ) (d d' : List ℕ)
      → i < length level
      → get_or level i d ≡ get_or level i d'
  get_or-default [] i d d' h = absurd (omega arith)
  get_or-default (x ∷ level) zero d d' h = refl
  get_or-default (x ∷ level) (suc i) d d' h = get_or-default level i d d' (omega arith)

  shr-suc : (n i : ℕ) → shr n (i + 1) ≡ shr n i / 2
  shr-suc n i =
      let e : 2 ^ (i + 1) ≡ 2 ^ i * 2 =
        let e1 : i + 1 ≡ suc i = omega arith in ap (λ m. 2 ^ m) e1 ∙ pow-suc 2 i in
      ap (λ m. n / m) e ∙ sym (div-div-eq-div-mul n (2 ^ i) 2)

  -- From any node of a level, the siblings lead to the one node that the loop leaves.
  path_root-path_loop :
      (room fuel chunk_index i k : ℕ) (level written : List (List ℕ))
      → EachLevel hash AllNonzero fuel level
      → shr chunk_index i ≡ k
      → k < length level
      → length level ≤ fuel + 1
      → path_root hash chunk_index i (path_loop hash fuel level k) (get_or level k no_sibling)
        ≡ get_or (build_loop hash room fuel level written).0 0 []
  unfolding path_loop path_root build_loop
  path_root-path_loop room zero chunk_index i k level written h e lt enough =
      get_or-default level k no_sibling [] lt ∙ ap (λ j. get_or level j []) (omega arith)
  path_root-path_loop room (suc fuel) chunk_index i k level written h e lt enough =
      let next = pair_up (hash_parent hash) level in
      let rows = take room (written ++ parents hash level) in
      let size = length-pair_up hash level in
      elim (Bool-cases (leb (length level) 1)) [
        | inl t ↦
            let single = leb→le (length level) 1 t in
            rw (t)
              (get_or-default level k no_sibling [] lt ∙ ap (λ j. get_or level j []) (omega arith))
        | inr f ↦
            let many = not_leb→lt (length level) 1 f in
            rw (f) (
              ap (path_root hash chunk_index (i + 1) (path_loop hash fuel next (k / 2)))
                (path_step_lem hash chunk_index i k level h.0 e lt)
              ∙ path_root-path_loop room fuel chunk_index (i + 1) (k / 2) next rows h.1
                  (shr-suc chunk_index i ∙ ap (λ m. m / 2) e) (omega (arith, size))
                  (omega (arith, size)))
      ]

  pub get_or-chunk_hashes :
      (input : List ℕ) (j n i : ℕ)
      → i < n
      → get_or (chunk_hashes hash input j n) i no_sibling
        ≡ hash_chunk hash (chunk_at hash input (j + i))
  unfolding chunk_hashes
  get_or-chunk_hashes input j zero i h = absurd (omega arith)
  get_or-chunk_hashes input j (suc n) zero h =
      ap (λ m. hash_chunk hash (chunk_at hash input m)) (omega arith)
  get_or-chunk_hashes input j (suc n) (suc i) h =
      get_or-chunk_hashes input (j + 1) n i (omega arith)
      ∙ ap (λ m. hash_chunk hash (chunk_at hash input m)) (omega arith)

  -- No hash of the tree of an input, from its leaves up, is all zeros.
  abbrev pub NonzeroTree : List ℕ → Type 0
  NonzeroTree input =
      let n = num_chunks (length input) in EachLevel hash AllNonzero n (chunk_hashes hash input 0 n)

  one_chunk-size : (n : ℕ) → n < 2 ^ 63 → num_chunks n ≡ 1 → n ≤ 2048
  unfolding num_chunks
  one_chunk-size n h e = ground (arith, e)

  -- The only chunk of a short input is the input.
  pub only_chunk :
      (input : List ℕ)
      → length input < 2 ^ 63
      → num_chunks (length input) ≡ 1
      → chunk_at hash input 0 ≡ input
  unfolding chunk_at
  only_chunk input h e =
      if-cases (λ m. take m input ≡ input) (ltb (length input) 2048) (length input - 0) 2048
        (λ _. take_all (length input - 0) input (omega arith))
        (λ _. take_all 2048 input (one_chunk-size (length input) h e))

  extract-short : (input : List ℕ) (k n : ℕ) → n ≡ 1 → extract_merkle_path hash input k n ≡ []
  unfolding extract_merkle_path
  extract-short input k n e = rw e

  extract-long :
      (input : List ℕ) (k n : ℕ)
      → leb n 1 ≡ false
      → extract_merkle_path hash input k n ≡ path_loop hash n (chunk_hashes hash input 0 n) k
  unfolding extract_merkle_path
  extract-long input k n e = rw e

  root-short :
      (input : List ℕ)
      → (num_chunks (length input) == 1) ≡ true
      → (build_tree hash input).1 ≡ hash_chunk hash input
  unfolding build_tree
  root-short input e = rw e

  root-long :
      (input : List ℕ)
      → (num_chunks (length input) == 1) ≡ false
      → (let n = num_chunks (length input) in
          (build_tree hash input).1
          ≡ get_or (build_loop hash (n - 1) n (chunk_hashes hash input 0 n) []).0 0 [])
  unfolding build_tree
  root-long input e = rw e

  verify-equal :
      (leaf : List ℕ) (k : ℕ) (siblings : List (List ℕ)) (root : List ℕ)
      → path_root hash k 0 siblings leaf ≡ root
      → verify_merkle_path hash leaf k siblings root ≡ true
  unfolding verify_merkle_path
  verify-equal leaf k siblings root e =
      ap (bytes_eq (path_root hash k 0 siblings leaf)) (sym e)
      ∙ bytes_eq_refl (path_root hash k 0 siblings leaf)

  path_root-nil : (k i : ℕ) (current : List ℕ) → path_root hash k i [] current ≡ current
  unfolding path_root
  path_root-nil k i current = refl

  -- For every chunk of an input of fewer than 2^63 bytes, the path extracted for it is accepted
  -- with the hash of that chunk and the root of the tree. No hash in the tree of that input
  -- consists of zeros alone, which the code takes for a missing sibling.
  pub verify_merkle_path-extract_merkle_path :
      (input : List ℕ) (chunk_index : ℕ)
      → NonzeroTree input
      → length input < 2 ^ 63
      → chunk_index < num_chunks (length input)
      → verify_merkle_path hash
          (hash_chunk hash (chunk_at hash input chunk_index))
          chunk_index
          (extract_merkle_path hash input chunk_index (num_chunks (length input)))
          (build_tree hash input).1
        ≡ true
  verify_merkle_path-extract_merkle_path input chunk_index nonzero h lt =
      let n = num_chunks (length input) in
      let leaves = chunk_hashes hash input 0 n in
      let leaf = hash_chunk hash (chunk_at hash input chunk_index) in
      let path = extract_merkle_path hash input chunk_index n in
      verify-equal leaf chunk_index path (build_tree hash input).1 (elim (Bool-cases (n == 1)) [
        | inl t ↦
            let one : n ≡ 1 = ==→eq n 1 t in
            let first : chunk_index ≡ 0 = omega arith in
            ap (λ p. path_root hash chunk_index 0 p leaf) (extract-short input chunk_index n one)
            ∙ path_root-nil chunk_index 0 leaf
            ∙ ap (λ k. hash_chunk hash (chunk_at hash input k)) first
            ∙ ap (hash_chunk hash) (only_chunk input h one)
            ∙ sym (root-short input t)
        | inr f ↦
            let many : leb n 1 ≡ false = let no = not_==→ne n 1 f in ground (arith, no) in
            ap₂ (path_root hash chunk_index 0) (extract-long input chunk_index n many) (
              sym (
                get_or-chunk_hashes input 0 n chunk_index lt
                ∙ ap (λ k. hash_chunk hash (chunk_at hash input k)) {y = chunk_index}
                    (omega arith)))
            ∙ path_root-path_loop (n - 1) n chunk_index 0 chunk_index leaves [] nonzero
                (omega arith) (omega (arith, length-chunk_hashes hash input 0 n))
                (omega (arith, length-chunk_hashes hash input 0 n))
            ∙ sym (root-long input f)
      ])
