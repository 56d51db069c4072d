-- ===== src/Stream/Accepted/Rows.antt =====
-- The hashes of a tree and of a path have 64 bytes each, and a path has at most 64 of them.
use blake.Base.{ℕ, zero, suc, ◌+◌, ◌-◌, ◌/◌, ◌^◌, ◌<◌, ◌≤◌, ◌≡◌, refl, ap, arith, List, [], ◌∷◌}
use blake.Base.{length, get_or, leb, ◌==◌, if-cases}
use blake.Word.{u8}
use blake.Merkle.{pair_up}
use blake.Hasher.Serialize.RoundTrip.{AllRows}
use blake.Stream.{
  num_chunks, depth_loop, tree_depth, hash_chunk, hash_parent, chunk_hashes, build_loop, build_tree,
  path_loop, extract_merkle_path, no_sibling,
}
use blake.Base.{==→eq, sym, ◌∙◌, ap}
use blake.Stream.Paths.{get_or-chunk_hashes, only_chunk}
use blake.Stream.Paths.Steps.{EachLevel, EachLevel-first}
use blake.Stream.Levels.{build_loop-Built, length-chunk_hashes, num_chunks-positive}

get_or-AllRows :
    (rows : List (List ℕ)) (i : ℕ) (d : List ℕ)
    → AllRows rows
    → length d ≡ 64
    → length (get_or rows i d) ≡ 64
get_or-AllRows [] i d h e = e
get_or-AllRows (r ∷ rows) zero d h e = h.0
get_or-AllRows (r ∷ rows) (suc i) d h e = get_or-AllRows rows i d h.1 e

depth_loop_le : (fuel n depth : ℕ) → depth + fuel < 256 → depth_loop fuel n depth ≤ depth + fuel
unfolding depth_loop
depth_loop_le zero n depth h = omega arith
depth_loop_le (suc fuel) n depth h =
    let byte : u8 (depth + 1) ≡ depth + 1 = omega arith in
    if-cases (λ (d : ℕ). d ≤ depth + suc fuel) (n == 0) depth
      (depth_loop fuel (n / 2) (u8 (depth + 1))) (λ _. omega arith)
      (λ _. omega (
        arith,
        ap (depth_loop fuel (n / 2)) byte,
        depth_loop_le fuel (n / 2) (depth + 1) (omega arith),
      ))

pub tree_depth_le : (n : ℕ) → tree_depth n ≤ 64
unfolding tree_depth
tree_depth_le n =
    if-cases (λ (d : ℕ). d ≤ 64) (leb n 1) 0 (depth_loop 64 (n - 1) 0) (λ _. omega arith)
      (λ _. depth_loop_le 64 (n - 1) 0 (omega arith))

module _ (hash : List ℕ → List ℕ) where
  -- Every hash of the tree of an input, from its leaves up, has 64 bytes.
  abbrev pub FullTree : List ℕ → Type 0
  FullTree input =
      let n = num_chunks (length input) in EachLevel hash AllRows n (chunk_hashes hash input 0 n)

  path_loop-AllRows :
      (fuel : ℕ) (level : List (List ℕ)) (k : ℕ)
      → EachLevel hash AllRows fuel level
      → AllRows (path_loop hash fuel level k)
  unfolding path_loop
  path_loop-AllRows zero level k h = tt
  path_loop-AllRows (suc fuel) level k h =
      if-cases AllRows (leb (length level) 1) [] _ (λ _. tt)
        (λ _. (
          get_or-AllRows level _ no_sibling h.0 refl,
          path_loop-AllRows fuel (pair_up (hash_parent hash) level) (k / 2) h.1,
        ))

  pub extract-AllRows :
      (input : List ℕ) (k n : ℕ)
      → EachLevel hash AllRows n (chunk_hashes hash input 0 n)
      → AllRows (extract_merkle_path hash input k n)
  unfolding extract_merkle_path
  extract-AllRows input k n full =
      if-cases AllRows (leb n 1) [] _ (λ _. tt)
        (λ _. path_loop-AllRows n (chunk_hashes hash input 0 n) k full)

  build_loop-AllRows :
      (room fuel : ℕ) (level written : List (List ℕ))
      → EachLevel hash AllRows fuel level
      → AllRows (build_loop hash room fuel level written).0
  unfolding build_loop
  build_loop-AllRows room zero level written h = h
  build_loop-AllRows room (suc fuel) level written h =
      if-cases (λ (out : List (List ℕ) × List (List ℕ)). AllRows out.0) (leb (length level) 1) _ _
        (λ _. h.0) (λ _. build_loop-AllRows room fuel (pair_up (hash_parent hash) level) _ h.1)

  head_row :
      (rows : List (List ℕ)) → AllRows rows → 0 < length rows → length (get_or rows 0 []) ≡ 64
  head_row [] h lt = absurd (omega arith)
  head_row (r ∷ rows) h lt = h.0

  -- The root of a tree has 64 bytes.
  pub build_tree_root :
      (input : List ℕ)
      → FullTree input
      → length input < 2 ^ 63
      → length (build_tree hash input).1 ≡ 64
  unfolding build_tree
  build_tree_root input full h =
      let n = num_chunks (length input) in
      let leaves = chunk_hashes hash input 0 n in
      let size = length-chunk_hashes hash input 0 n in
      let positive = num_chunks-positive hash (length input) h in
      let first = EachLevel-first hash AllRows n leaves full in
      if-cases (λ (r : List (List ℕ) × List ℕ). length r.1 ≡ 64) (n == 1) _ _
        (λ t.
          ap length (
            sym (ap (hash_chunk hash) (only_chunk hash input h (==→eq n 1 t)))
            ∙ sym (get_or-chunk_hashes hash input 0 n 0 (omega arith)))
          ∙ get_or-AllRows leaves 0 no_sibling first refl)
        (λ _.
          let built =
            build_loop-Built hash (n - 1) n leaves [] (omega (arith, size, positive))
              (omega (arith, size)) (omega (arith, size)) in
          head_row _ (build_loop-AllRows (n - 1) n leaves [] full) (omega (arith, built.one_left)))
