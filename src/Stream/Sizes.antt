-- ===== src/Stream/Sizes.antt =====
-- The number of siblings on a path is the depth that src/blake4_stream.c computes for the proof.
use blake.Base.{ℕ, zero, suc, ◌+◌, ◌-◌, ◌/◌, ◌^◌, ◌≤◌, ◌<◌, ◌≡◌, refl, sym, ap, ◌∙◌, arith}
use blake.Base.{List, length, leb, Bool-cases, inl, inr, true}
use blake.Base.{leb→le, not_leb→lt, ne→not_==}
use native.Mathlib.Nat.{pow-suc}
use blake.Word.{u8}
use blake.Merkle.{pair_up}
use blake.Stream.{depth_loop, tree_depth, hash_parent, chunk_hashes, path_loop, extract_merkle_path}
use blake.Stream.Levels.{length-pair_up, length-chunk_hashes}

module _ (hash : List ℕ → List ℕ) where
  depth_loop-zero : (f depth : ℕ) → depth_loop (suc f) 0 depth ≡ depth
  unfolding depth_loop
  depth_loop-zero f depth = refl

  depth_loop-suc :
      (f n depth : ℕ)
      → 0 < n
      → depth + 1 < 256
      → depth_loop (suc f) n depth ≡ depth_loop f (n / 2) (depth + 1)
  unfolding depth_loop
  depth_loop-suc f n depth p h =
      let byte : u8 (depth + 1) ≡ depth + 1 = omega arith in
      rw (ne→not_== n 0 (λ e. omega (arith, e)), byte)

  path_loop-depth_loop :
      (fuel f k depth : ℕ) (level : List (List ℕ))
      → 0 < length level
      → length level ≤ fuel + 1
      → length level ≤ 2 ^ f
      → depth + f < 256
      → depth_loop (suc f) (length level - 1) depth ≡ depth + length (path_loop hash fuel level k)
  unfolding path_loop
  path_loop-depth_loop zero f k depth level some_left enough small fits =
      let none_left : length level - 1 ≡ 0 = omega arith in
      ap (λ n. depth_loop (suc f) n depth) none_left ∙ depth_loop-zero f depth ∙ omega arith
  path_loop-depth_loop (suc fuel) zero k depth level some_left enough small fits =
      let single : leb (length level) 1 ≡ true = ground arith in
      let none_left : length level - 1 ≡ 0 = omega arith in
      rw (single) (ap (λ n. depth_loop 1 n depth) none_left ∙ depth_loop-zero 0 depth ∙ omega arith)
  path_loop-depth_loop (suc fuel) (suc f) k depth level some_left enough small fits =
      elim (Bool-cases (leb (length level) 1)) [
        | inl t ↦
            let single = leb→le (length level) 1 t in
            let none_left : length level - 1 ≡ 0 = omega arith in
            rw (t) (
              ap (λ n. depth_loop (suc (suc f)) n depth) none_left
              ∙ depth_loop-zero (suc f) depth
              ∙ omega arith)
        | inr g ↦
            let many = not_leb→lt (length level) 1 g in
            let next = pair_up (hash_parent hash) level in
            let size = length-pair_up hash level in
            let half : (length level - 1) / 2 ≡ length next - 1 = omega (arith, size) in
            rw (g) (
              depth_loop-suc (suc f) (length level - 1) depth (omega arith) (omega arith)
              ∙ ap (λ n. depth_loop (suc f) n (depth + 1)) half
              ∙ path_loop-depth_loop fuel f (k / 2) (depth + 1) next (omega (arith, size))
                  (omega (arith, size)) (omega (arith, size, pow-suc 2 f)) (omega arith)
              ∙ omega arith)
      ]

  -- The path of a chunk has as many siblings as the tree depth that the size of a proof is
  -- computed from, for fewer than 2^63 chunks.
  pub length-extract_merkle_path :
      (input : List ℕ) (k n : ℕ)
      → n < 2 ^ 63
      → length (extract_merkle_path hash input k n) ≡ tree_depth n
  unfolding extract_merkle_path tree_depth
  length-extract_merkle_path input k n h = elim (Bool-cases (leb n 1)) [
    | inl t ↦ rw (t)
    | inr f ↦
        let many = not_leb→lt n 1 f in
        let leaves = chunk_hashes hash input 0 n in
        let size = length-chunk_hashes hash input 0 n in
        rw (f) (
          sym (
            ap (λ m. depth_loop 64 (m - 1) 0) (sym size)
            ∙ path_loop-depth_loop n 63 k 0 leaves (omega (arith, size)) (omega (arith, size))
                (omega (arith, size)) (omega arith)
            ∙ omega arith))
  ]
