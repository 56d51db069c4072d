-- ===== src/Tests/Saved.antt =====
-- Concrete inputs at which the theorems on saved hashers and on the stack apply.
use blake.Base.{
  ℕ, zero, suc, ◌≡◌, refl, arith, List, [], ◌∷◌, none, some, replicate, length-replicate,
}
use blake.Compress.Bounds.{portable}
use blake.Merkle.{Tree, leaf, node, push}
use blake.Merkle.Counter.{push-stop}
use blake.Hasher.{Blake4Hasher}
use blake.Hasher.Stack.{hasher_push_cv}
use blake.Hasher.Stack.Rows.{HoldsTrees, Pushed, cv_under, hasher_push_cv-Pushed}
use blake.Hasher.Tree.{Leaf}
use blake.Hasher.Tree.Words.{tree_cv-leaf-IsCv}
use blake.Hasher.Update.{hasher_update}
use blake.Hasher.Init.{hasher_init, with_key, cleared}
use blake.Hasher.Api.Correct.{iv-IsCv, hasher_init-IsFresh}
use blake.Hasher.Serialize.{serialized_size, hasher_serialize, hasher_deserialize}
use blake.Hasher.Serialize.RoundTrip.{AllRows, IsStored, hasher_deserialize-serialize}
use blake.Hasher.Serialize.Ranges.{InRange, hasher_deserialize-InRange, hasher_update-empty}

zero_rows : (n : ℕ) → AllRows (replicate n (replicate 64 0))
zero_rows zero = tt
zero_rows (suc n) = (refl, zero_rows n)

hasher_init-IsStored : IsStored hasher_init
unfolding hasher_init with_key cleared
hasher_init-IsStored = record {
  cv = iv-IsCv;
  key = iv-IsCv;
  counter = omega arith;
  buf = length-replicate {A = ℕ} 128 0;
  buf_len = omega arith;
  chunk_buf = length-replicate {A = ℕ} 2048 0;
  chunk_buf_len = omega arith;
  rows = length-replicate 54 (replicate {A = ℕ} 64 0);
  row_size = zero_rows 54;
  cv_stack_len = omega arith;
}

abbrev saved_bytes : List ℕ
saved_bytes = replicate 5781 0

hasher_deserialize-serialize_example :
    (after : List ℕ) × (hasher_serialize (some hasher_init) (some saved_bytes) 5781
      ≡ some (serialized_size, some after))
    × (hasher_deserialize (some hasher_init) (some after) 5781 ≡ (1, some hasher_init))
hasher_deserialize-serialize_example =
    hasher_deserialize-serialize hasher_init hasher_init saved_bytes 5781 hasher_init-IsStored
      (length-replicate {A = ℕ} 5781 0) (omega arith)

saved :
    (after : List ℕ) × (hasher_serialize (some hasher_init) (some saved_bytes) 5781
      ≡ some (serialized_size, some after))
    × (hasher_deserialize (some hasher_init) (some after) 5781 ≡ (1, some hasher_init))
saved =
    hasher_deserialize-serialize hasher_init hasher_init saved_bytes 5781 hasher_init-IsStored
      (length-replicate {A = ℕ} 5781 0) (omega arith)

hasher_deserialize-InRange_example : InRange hasher_init
hasher_deserialize-InRange_example =
    hasher_deserialize-InRange hasher_init hasher_init saved.0 5781 saved.2

abbrev bad_state : Blake4Hasher
bad_state = record hasher_init { chunk_counter = 1; chunk_buf_len = 2048 }

hasher_update-empty_example : hasher_update portable bad_state (97 ∷ []) ≡ none
hasher_update-empty_example =
    hasher_update-empty portable bad_state 97 [] hasher_init-IsFresh.rows
      hasher_init-IsFresh.stack_empty refl refl

abbrev first_leaf : Tree Leaf
first_leaf = leaf (0, 97 ∷ [])

no_trees : HoldsTrees portable hasher_init []
no_trees = record {
  rows = hasher_init-IsFresh.rows;
  held = hasher_init-IsFresh.stack_empty;
  words = tt;
}

first_push : push node 64 1 first_leaf [] ≡ some (first_leaf ∷ [])
first_push = push-stop node 63 1 first_leaf [] (omega arith)

hasher_push_cv-Pushed_example :
    Pushed portable hasher_init
      (first_leaf ∷ [])
      (hasher_push_cv portable hasher_init (cv_under portable hasher_init first_leaf) 1)
hasher_push_cv-Pushed_example =
    hasher_push_cv-Pushed portable hasher_init first_leaf 1 [] (first_leaf ∷ [])
      hasher_init-IsFresh.key hasher_init-IsFresh.flags_fit no_trees
      (tree_cv-leaf-IsCv portable hasher_init.key_words hasher_init.flags 0 (97 ∷ [])
        hasher_init-IsFresh.key hasher_init-IsFresh.flags_fit
        (omega arith, (omega arith, tt), omega arith))
      (omega arith) first_push
