-- ===== src/Hasher/Finalize/Correct/Merging.antt =====
-- The merge loop of blake4_hasher_finalize_seek over a stack of trees.
use blake.Hasher.Node.{output_chaining_value}
use blake.Base.{ℕ, zero, suc, ◌+◌, ◌/◌, ◌%◌, ◌^◌, ◌<◌, ◌≡◌, ◌≢◌, refl, ap, ap₂, ◌∙◌, arith}
use blake.Base.{List, [], ◌∷◌, map, length, get_elem?}
use blake.Base.{some, ne→not_==, eq→==}
use blake.Bits.Fields.{bit_or_twice}
use blake.Word.{words_from_bytes, words_to_bytes}
use blake.Compress.{Compressor}
use blake.Merkle.{Tree, node, finish}
use blake.Hasher.{Output, Blake4Hasher, root}
use blake.Hasher.Node.{wide_byte, output_root_bytes, parent_output, parent_cv}
use blake.Hasher.Node.Xof.{xof_bytes, output_root_bytes-xof}
use blake.Hasher.Stack.Rows.{Holds, AllCv}
use blake.Hasher.Tree.{Leaf, tree_cv, tree_output}
use blake.Hasher.Tree.Words.{IsCv, IsFlags, stored_cv, parent_output-IsOutput}
use blake.Hasher.Finalize.{with_root, merge_stack}

abbrev pub AllStored : Compressor → List ℕ → ℕ → List (Tree Leaf) → Type 0
AllStored c key flags [] = Unit {0}
AllStored c key flags (t ∷ ts) = IsCv (tree_cv c key flags t) × AllStored c key flags ts

pub AllCv-AllStored :
    (c : Compressor) (h : Blake4Hasher) (ts : List (Tree Leaf))
    → AllCv c h ts
    → AllStored c h.key_words h.flags ts
AllCv-AllStored c h [] w = tt
AllCv-AllStored c h (t ∷ ts) w = (w.0, AllCv-AllStored c h ts w.1)

pub get_elem?-lt :
    (rows : List (List ℕ)) (i : ℕ) {row : List ℕ} → get_elem? rows i ≡ some row → i < length rows
get_elem?-lt [] i e = cc
get_elem?-lt (r ∷ rows) zero e = omega arith
get_elem?-lt (r ∷ rows) (suc i) e = omega (arith, get_elem?-lt rows i e)

module _ (c : Compressor) (key : List ℕ) (flags : ℕ) (seek n : ℕ) (hs : seek < 2 ^ 64)
    (hn : n < 2 ^ 63) where
  pub xof_bytes-with_root :
      (o : Output) (p m : ℕ) → IsFlags o.flags → xof_bytes c (with_root o) p m ≡ xof_bytes c o p m
  unfolding wide_byte
  xof_bytes-with_root o p zero h = refl
  xof_bytes-with_root o p (suc m) h =
      let once = bit_or_twice 8 o.flags root h (omega arith) in
      ap₂ ◌∷◌
        (ap (λ (f : ℕ). wide_byte (c.compress o.input_cv o.block o.len (p / 128) f) (p % 128)) once)
        (xof_bytes-with_root o (p + 1) m h)

  -- The root bytes of a node that is marked as the root.
  pub root_bytes-xof :
      (o : Output)
      → IsFlags o.flags
      → output_root_bytes c (with_root o) seek n ≡ xof_bytes c o seek n
  root_bytes-xof o h =
      output_root_bytes-xof c (with_root o) seek n hs hn ∙ xof_bytes-with_root o seek n h

  pub merge_last :
      (rows : List (List ℕ)) (m : ℕ) (row cv : List ℕ)
      → get_elem? rows m ≡ some row
      → m ≡ 0
      → merge_stack c key flags seek n rows (suc m) cv
        ≡ some (
            output_root_bytes c
              (with_root (parent_output (words_from_bytes row) cv key flags))
              seek
              n)
  unfolding merge_stack
  merge_last rows m row cv e z = rw (e, eq→== m 0 z)

  pub merge_more :
      (rows : List (List ℕ)) (m : ℕ) (row cv : List ℕ)
      → get_elem? rows m ≡ some row
      → m ≢ 0
      → merge_stack c key flags seek n rows (suc m) cv
        ≡ merge_stack c key flags seek n rows m (parent_cv c (words_from_bytes row) cv key flags)
  unfolding merge_stack
  merge_more rows m row cv e z = rw (e, ne→not_== m 0 z)

  module _ (hk : IsCv key) (hf : IsFlags flags) where
    abbrev pub cv_of : Tree Leaf → List ℕ
    cv_of t = tree_cv c key flags t

    -- The loop over a stack of trees ends with the root bytes of the tree that they make.
    pub merge_stack-finish :
        (ts : List (Tree Leaf)) (left t : Tree Leaf) (rows : List (List ℕ)) (m : ℕ)
        → Holds rows m (map cv_of (left ∷ ts))
        → AllStored c key flags (left ∷ ts)
        → merge_stack c key flags seek n rows m (cv_of t)
          ≡ some (xof_bytes c (tree_output c key flags (finish node t (left ∷ ts))) seek n)
    unfolding finish parent_output words_to_bytes parent_cv merge_stack output_chaining_value
    merge_stack-finish [] left t rows m (m', e, row, rest) ok =
        let loaded = stored_cv (cv_of left) ok.0 in
        let o = parent_output (cv_of left) (cv_of t) key flags in
        let o_flags = (parent_output-IsOutput c (cv_of left) (cv_of t) key flags hk hf).4 in
        ap (λ k. merge_stack c key flags seek n rows k (cv_of t)) e
        ∙ merge_last rows m' (words_to_bytes (cv_of left)) (cv_of t) row rest
        ∙ ap
            (λ l.
              some (output_root_bytes c (with_root (parent_output l (cv_of t) key flags)) seek n))
            loaded
        ∙ ap some (root_bytes-xof o o_flags)
    merge_stack-finish (left' ∷ ts) left t rows m (m', e, row, rest) ok =
        let loaded = stored_cv (cv_of left) ok.0 in
        ap (λ k. merge_stack c key flags seek n rows k (cv_of t)) e
        ∙ merge_more rows m' (words_to_bytes (cv_of left)) (cv_of t) row
            (λ z. omega (arith, rest.1))
        ∙ ap (λ l. merge_stack c key flags seek n rows m' (parent_cv c l (cv_of t) key flags))
            loaded
        ∙ merge_stack-finish ts left' (node left t) rows m' rest ok.1
