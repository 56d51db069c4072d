-- ===== src/Stream.antt =====
-- src/blake4_stream.c: chunk hashes, the tree over them, and Merkle paths. The hash of 64 bytes that
-- the hasher computes is a parameter; arrays of hashes are lists of rows.
pub mod Equal
pub mod Levels
pub mod Paths
pub mod Accepted
pub mod Binding
pub mod Slices
pub mod Sizes
pub mod Encoder
pub mod Decoder
use blake.Base.{ℕ, zero, suc, ◌+◌, ◌-◌, ◌*◌, ◌/◌, ◌%◌, List, [], ◌∷◌, ◌++◌, take, drop, length}
use blake.Base.{get_or, replicate, Bool, true, false, ◌&&◌, ltb, leb, ◌==◌, if◌then◌else◌}
use blake.Word.{u8, u64, shr}
use blake.Merkle.{pair_up}

abbrev pub stream_chunk_len : ℕ
stream_chunk_len = 2048

abbrev pub stream_hash_len : ℕ
stream_hash_len = 64

unfoldable pub num_chunks : ℕ → ℕ
num_chunks data_len =
    if data_len == 0 then 1 else u64 (data_len + stream_chunk_len - 1) / stream_chunk_len

-- The number of binary digits of `n`: `while (n > 0) { depth++; n >>= 1; }`
unfoldable pub depth_loop : ℕ → ℕ → ℕ → ℕ
depth_loop zero n depth = depth
depth_loop (suc fuel) n depth =
    let more = depth_loop fuel (n / 2) (u8 (depth + 1)) in if n == 0 then depth else more

-- A 64-bit number has at most 64 digits.
unfoldable pub tree_depth : ℕ → ℕ
tree_depth n = let depth = depth_loop 64 (n - 1) 0 in if leb n 1 then 0 else depth

unfoldable pub tree_data_size : ℕ → ℕ
tree_data_size data_len =
    let n = num_chunks data_len in if leb n 1 then 0 else u64 ((n - 1) * stream_hash_len)

-- All bytes of a sibling are 0.
abbrev pub all_zero : List ℕ → Bool
all_zero [] = true
all_zero (b ∷ bytes) = (b == 0) && all_zero bytes

-- `memcmp(a, b, n) == 0` of two arrays of one length.
abbrev pub bytes_eq : List ℕ → List ℕ → Bool
bytes_eq [] [] = true
bytes_eq [] (y ∷ b) = false
bytes_eq (x ∷ a) [] = false
bytes_eq (x ∷ a) (y ∷ b) = (x == y) && bytes_eq a b

abbrev pub no_sibling : List ℕ
no_sibling = replicate 64 0

module _ (hash : List ℕ → List ℕ) where
  -- The index of the chunk is not used.
  unfoldable pub hash_chunk : List ℕ → List ℕ
  hash_chunk chunk = hash chunk

  unfoldable pub hash_parent : List ℕ → List ℕ → List ℕ
  hash_parent left right = hash (take stream_hash_len left ++ take stream_hash_len right)

  -- The bytes of chunk `i`; the last one is shorter.
  unfoldable pub chunk_at : List ℕ → ℕ → List ℕ
  chunk_at input i =
      let offset = i * stream_chunk_len in
      let chunk_len =
        if ltb (length input) (offset + stream_chunk_len)
        then length input - offset
        else stream_chunk_len in
      take chunk_len (drop offset input)

  -- The hashes of `n` chunks from chunk `i` on.
  unfoldable pub chunk_hashes : List ℕ → ℕ → ℕ → List (List ℕ)
  chunk_hashes input i zero = []
  chunk_hashes input i (suc n) = hash_chunk (chunk_at input i) ∷ chunk_hashes input (i + 1) n

  -- The parents of one level, without an odd node that is promoted.
  unfoldable pub parents : List (List ℕ) → List (List ℕ)
  parents [] = []
  parents (x ∷ []) = []
  parents (x ∷ y ∷ level) = hash_parent x y ∷ parents level

  -- `while (level_size > 1)`: the last level, and the rows written to `tree_data`, which has room
  -- for `room` rows in all.
  unfoldable pub build_loop : ℕ → ℕ → List (List ℕ) → List (List ℕ) → List (List ℕ) × List (List ℕ)
  build_loop room zero level written = (level, written)
  build_loop room (suc fuel) level written =
      let next =
        build_loop room fuel (pair_up hash_parent level) (take room (written ++ parents level)) in
      if leb (length level) 1 then (level, written) else next

  -- The rows of the tree, from the leaves up, and the root hash.
  unfoldable pub build_tree : List ℕ → List (List ℕ) × List ℕ
  build_tree input =
      let n = num_chunks (length input) in
      let (top_level, tree_data) = build_loop (n - 1) n (chunk_hashes input 0 n) [] in
      if n == 1 then ([], hash_chunk input) else (tree_data, get_or top_level 0 [])

  -- The siblings from the leaf up; one that is missing is 64 zeros.
  unfoldable pub path_loop : ℕ → List (List ℕ) → ℕ → List (List ℕ)
  path_loop zero level node_index = []
  path_loop (suc fuel) level node_index =
      let sibling_index = if node_index % 2 == 0 then node_index + 1 else node_index - 1 in
      let above = path_loop fuel (pair_up hash_parent level) (node_index / 2) in
      if leb (length level) 1 then [] else get_or level sibling_index no_sibling ∷ above

  unfoldable pub extract_merkle_path : List ℕ → ℕ → ℕ → List (List ℕ)
  extract_merkle_path input chunk_index n =
      let path = path_loop n (chunk_hashes input 0 n) chunk_index in if leb n 1 then [] else path

  -- One step towards the root.
  unfoldable pub path_step : ℕ → ℕ → List ℕ → List ℕ → List ℕ
  path_step chunk_index i sibling current =
      if all_zero sibling
      then current
      else if shr chunk_index i % 2 == 1
      then hash_parent sibling current
      else hash_parent current sibling

  unfoldable pub path_root : ℕ → ℕ → List (List ℕ) → List ℕ → List ℕ
  path_root chunk_index i [] current = current
  path_root chunk_index i (sibling ∷ siblings) current =
      path_root chunk_index (i + 1) siblings (path_step chunk_index i sibling current)

  -- The check of a path, true for the result 0.
  unfoldable pub verify_merkle_path : List ℕ → ℕ → List (List ℕ) → List ℕ → Bool
  verify_merkle_path chunk_hash chunk_index siblings expected_root =
      bytes_eq (path_root chunk_index 0 siblings chunk_hash) expected_root
