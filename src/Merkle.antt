-- ===== src/Merkle.antt =====
-- Binary hash trees, apart from any hash: the level-by-level reduction that src/blake4_stream.c
-- runs over arrays of hashes, and the binary counter of subtrees that src/blake4.c keeps on its
-- stack. Both are over an arbitrary way to combine two children.
pub mod Forest
pub mod Counter
use blake.Base.{
  ℕ, zero, suc, ◌+◌, ◌/◌, ◌%◌, Option, none, some, List, [], ◌∷◌, ◌++◌, ◌==◌, if◌then◌else◌,
}

-- The shape of a hash tree, before anything is hashed.
pub data Tree {ℓ} (A : Type ℓ) : Type ℓ where
  leaf : A → Tree A
  node : Tree A → Tree A → Tree A

module _ {ℓ} {A : Type ℓ} (combine : A → A → A) where
  -- One level up: neighbours are combined, and an odd one at the end is promoted.
  unfoldable pub pair_up : List A → List A
  pair_up [] = []
  pair_up (x ∷ []) = x ∷ []
  pair_up (x ∷ y ∷ xs) = combine x y ∷ pair_up xs

  unfoldable pub levels : ℕ → List A → List A
  levels zero xs = xs
  levels (suc n) xs = levels n (pair_up xs)

  -- The counter: subtrees are merged while the number of leaves is even, newest first.
  unfoldable pub push : ℕ → ℕ → A → List A → Option (List A)
  push zero total x stack = none
  push (suc fuel) total x [] = if total % 2 == 0 then none else some (x ∷ [])
  push (suc fuel) total x (left ∷ stack) =
      let merged = push fuel (total / 2) (combine left x) stack in
      if total % 2 == 0 then merged else some (x ∷ left ∷ stack)

  -- What is left is merged from the newest to the oldest.
  unfoldable pub finish : A → List A → A
  finish x [] = x
  finish x (left ∷ stack) = finish (combine left x) stack
