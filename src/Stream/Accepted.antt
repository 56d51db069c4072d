-- ===== src/Stream/Accepted.antt =====
-- The proof that blake4_stream_extract_slice writes for a slice, and what
-- blake4_stream_verify_slice accepts with it.
pub mod Fields
pub mod Rows
pub mod Steps
use blake.Base.{lt→not_leb}
use blake.Base.{
  ℕ, zero, suc, ◌+◌, ◌-◌, ◌*◌, ◌/◌, ◌%◌, ◌^◌, ◌<◌, ◌≤◌, ◌≡◌, refl, sym, ap, ap₂, ◌∙◌, subst, arith,
}
use blake.Base.{
  List, [], ◌∷◌, ◌++◌, take, drop, length, Option, none, some, sub_size, append-nil, ◌>>=◌,
}
use blake.Base.{Bool, true, false, not, ◌&&◌, ◌||◌, ltb, leb, ◌==◌, if◌then◌else◌, if-cases}
use blake.Base.{
  ==→eq, eq→==, and_true, le→not_ltb, lt→ltb, ltb→lt, not_ltb→le, length-take, length-drop,
  take_all,
}
use blake.Word.{IsWord, u8, u64, byte_at, load64_le}
use blake.Hasher.Serialize.{starts_with, load_rows}
use blake.Hasher.Serialize.RoundTrip.{AllRows, load_rows-concat, length-concat-rows}
use blake.Hasher.Tree.Split.{concat}
use blake.Stream.{
  num_chunks, tree_depth, hash_chunk, chunk_at, extract_merkle_path, verify_merkle_path, bytes_eq,
  build_tree, all_zero,
}
use blake.Stream.Equal.{bytes_eq_refl}
use blake.Stream.Paths.{NonzeroTree, verify_merkle_path-extract_merkle_path}
use blake.Stream.Sizes.{length-extract_merkle_path}
use blake.Stream.Slices.{
  Status, ok, proof_magic, proof_size, proof_bytes, is_whole_chunk, extract_slice, check_chunk,
  verify_slice,
}
use blake.Stream.Encoder.{
  Encoder, encoder_finalize, encoder_new, encoder_update-appends, stream_encode, tree_bytes,
}
use Fields.{Reads, body, body-Reads, ReadsTree, tree_bytes-ReadsTree}
use Rows.{FullTree, extract-AllRows, build_tree_root, tree_depth_le}
use Steps.{
  num_chunks_lt, chunk_lt, verify_slice-Reads, slice-chunk_at, load_rows_all, extract_slice-ok,
}

module _ (hash : List ℕ → List ℕ) where
  -- A chunk is accepted with a proof that holds its path.
  check_chunk_path :
      (input proof : List ℕ) (k depth : ℕ)
      → NonzeroTree hash input
      → length input < 2 ^ 63
      → k < num_chunks (length input)
      → load_rows depth (drop 105 proof)
        ≡ extract_merkle_path hash input k (num_chunks (length input))
      → check_chunk hash (build_tree hash input).1 (chunk_at hash input k) k proof depth ≡ ok
  unfolding check_chunk
  check_chunk_path input proof k depth nonzero small lt rows =
      rw (rows, verify_merkle_path-extract_merkle_path hash input k nonzero small lt)

  -- The proof of the range from `first` to `last`.
  abbrev proof_of : List ℕ → List ℕ → ℕ → ℕ → List ℕ
  proof_of input tree first last =
      proof_bytes (drop 16 tree) (length input) first last (first / 2048)
        (extract_merkle_path hash input (first / 2048) (num_chunks (length input)))

  -- A slice is accepted with it if its bytes are, where they are checked.
  verify_slice-proof_bytes :
      (input tree slice : List ℕ) (first last : ℕ)
      → FullTree hash input
      → ReadsTree (length input) (build_tree hash input).1 tree
      → length input < 2 ^ 63
      → first < last
      → last ≤ length input
      → length slice ≡ last - first
      → (is_whole_chunk first last (first / 2048) (length input) ≡ true
          → (slice ≡ take (last - first) (drop first input)) × NonzeroTree hash input)
      → verify_slice hash
          (some (build_tree hash input).1)
          first
          last
          (some slice)
          (some (proof_of input tree first last))
        ≡ ok
  unfolding proof_bytes
  verify_slice-proof_bytes input tree slice first last full t small lt le len given =
      let root = (build_tree hash input).1 in
      let r = take 64 (drop 16 tree) in
      let n = length input in
      let k = first / 2048 in
      let path = extract_merkle_path hash input k (num_chunks n) in
      let proof = proof_of input tree first last in
      let root_size = build_tree_root hash input full small in
      let r_size : length r ≡ 64 = ap length t.root_hash ∙ root_size in
      let rows = extract-AllRows hash input k (num_chunks n) full in
      let chunks : num_chunks n < 2 ^ 63 = num_chunks_lt n small in
      let short : length path ≤ 64 = omega (
        arith,
        length-extract_merkle_path hash input k (num_chunks n) chunks,
        tree_depth_le (num_chunks n),
      ) in
      let d : u8 (length path) ≡ length path = omega arith in
      let f =
        body-Reads r (concat path) n first last k (u8 (length path)) r_size (omega arith)
          (omega arith) (omega arith) (omega arith) in
      verify_slice-Reads hash root slice r (concat path) proof n first last (u8 (length path))
        r_size f (t.root_hash ∙ sym (take_all 64 root (omega (arith, root_size)))) lt (omega arith)
        len (omega (arith, d, length-concat-rows path rows))
        (λ whole.
          subst (λ (chunk : List ℕ). check_chunk hash root chunk k proof (u8 (length path)) ≡ ok)
            (sym ((given whole).0 ∙ slice-chunk_at hash input first last small lt le whole))
            (check_chunk_path input proof k (u8 (length path)) (given whole).1 small
              (chunk_lt first n small (omega arith))
              (ap₂ load_rows d f.rows ∙ load_rows_all hash path rows)))

  -- The encoder produces the tree of its input, with the root of it.
  stream_encode-ReadsTree :
      (input : List ℕ)
      → FullTree hash input
      → length input < 2 ^ 63
      → (tree : List ℕ) × (stream_encode hash input ≡ some (tree, (build_tree hash input).1))
        × ReadsTree (length input) (build_tree hash input).1 tree
  unfolding stream_encode encoder_finalize encoder_new
  stream_encode-ReadsTree input full small =
      let (enc, returns, buffered, _) =
        encoder_update-appends encoder_new input (omega arith) (omega arith) (omega arith) in
      let (rows, root) = build_tree hash input in
      (
        tree_bytes (length input) root rows,
        ap (λ e. e >>= (λ enc'. some (encoder_finalize hash enc'))) returns
            ∙ ap
                (λ (xs : List ℕ). some (
                  tree_bytes (length xs) (build_tree hash xs).1 (build_tree hash xs).0,
                  (build_tree hash xs).1,
                ))
                buffered,
        tree_bytes-ReadsTree (length input) root rows (omega arith)
            (build_tree_root hash input full small),
      )

  -- For an input of fewer than 2^63 bytes whose tree has hashes of 64 bytes, none of them all 0,
  -- and for a non-empty range in it: encoding gives a tree and a root hash, extracting the range
  -- with enough room for the proof gives a proof, and the check accepts that proof with the bytes
  -- of the range and the root hash.
  pub verify_slice-extract_slice :
      (input : List ℕ) (first last proof_len : ℕ)
      → FullTree hash input
      → NonzeroTree hash input
      → length input < 2 ^ 63
      → first < last
      → last ≤ length input
      → proof_size (length input) first last ≤ proof_len
      → (tree : List ℕ) × (root : List ℕ) × (proof : List ℕ) × (stream_encode hash input
          ≡ some (tree, root))
        × (extract_slice hash (some tree) (some input) first last proof_len
            ≡ (ok, proof, proof_size (length input) first last))
        × (verify_slice hash
              (some root)
              first
              last
              (some (take (last - first) (drop first input)))
              (some proof)
            ≡ ok)
  verify_slice-extract_slice input first last proof_len full nonzero small lt le room =
      let (tree, encoded, reads) = stream_encode-ReadsTree input full small in
      let root = (build_tree hash input).1 in
      let slice = take (last - first) (drop first input) in
      (
        tree,
        root,
        _,
        encoded,
        extract_slice-ok hash input tree root first last proof_len reads lt le room,
        verify_slice-proof_bytes input tree slice first last full reads small lt le
            (omega (arith, length-take (last - first) (drop first input), length-drop first input))
            (λ _. (refl, nonzero)),
      )

  -- For an input of fewer than 2^63 bytes whose tree has hashes of 64 bytes, and for a non-empty
  -- range in it that is not exactly one chunk: encoding gives a tree and a root hash, extracting
  -- the range with enough room gives a proof, and the check accepts that proof and the root hash
  -- with any bytes of the length of the range, also with such as are not in the input.
  pub verify_slice-forged :
      (input forged : List ℕ) (first last proof_len : ℕ)
      → FullTree hash input
      → length input < 2 ^ 63
      → first < last
      → last ≤ length input
      → is_whole_chunk first last (first / 2048) (length input) ≡ false
      → proof_size (length input) first last ≤ proof_len
      → length forged ≡ last - first
      → (tree : List ℕ) × (root : List ℕ) × (proof : List ℕ) × (stream_encode hash input
          ≡ some (tree, root))
        × (extract_slice hash (some tree) (some input) first last proof_len
            ≡ (ok, proof, proof_size (length input) first last))
        × (verify_slice hash (some root) first last (some forged) (some proof) ≡ ok)
  verify_slice-forged input forged first last proof_len full small lt le part room len =
      let (tree, encoded, reads) = stream_encode-ReadsTree input full small in
      let root = (build_tree hash input).1 in
      (
        tree,
        root,
        _,
        encoded,
        extract_slice-ok hash input tree root first last proof_len reads lt le room,
        verify_slice-proof_bytes input tree forged first last full reads small lt le len (λ whole.
            absurd (not_both (is_whole_chunk first last (first / 2048) (length input)) whole part)),
      )
    where
      not_both : (b : Bool) → b ≡ true → b ≡ false → ⊥
      not_both b t f = cc
