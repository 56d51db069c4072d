-- ===== src/Hasher/Tree.antt =====
-- What BLAKE4_SPEC.md promises of the tree: the input cut into chunks of 2048 bytes, the chunks
-- numbered from 0, a binary tree over them, and the root output of that tree.
pub mod Words
pub mod Split
use blake.Base.{
  ℕ, zero, suc, ◌+◌, ◌^◌, ◌<◌, ◌≡◌, bit_or, List, [], ◌∷◌, take, drop, length, ltb, if◌then◌else◌,
}
use blake.Merkle.{Tree, leaf, node, levels}
use blake.Compress.{Compressor}
use blake.Hasher.{Output, chunk_len, root}
use blake.Base.{◌++◌}
use blake.Word.{words_to_bytes}
use blake.Hasher.Node.Xof.{xof_bytes}
use blake.Hasher.Chunk.Blocks.{chunk_output}

-- A chunk with its number.
abbrev pub Leaf : Type 0
Leaf = ℕ × List ℕ

abbrev pub number : ℕ → List (List ℕ) → List (Tree Leaf)
number i [] = []
number i (chunk ∷ chunks) = leaf (i, chunk) ∷ number (i + 1) chunks

-- All chunks but the last are full, and a last chunk that is full is still the last. The empty
-- input is one empty chunk.
abbrev pub split_within : ℕ → List ℕ → List (List ℕ)
split_within zero bytes = bytes ∷ []
split_within (suc fuel) bytes =
    let more = take chunk_len bytes ∷ split_within fuel (drop chunk_len bytes) in
    if ltb chunk_len (length bytes) then more else bytes ∷ []

abbrev pub split : List ℕ → List (List ℕ)
split bytes = split_within (length bytes) bytes

-- The single tree that is left of the chunks.
abbrev pub top : List (Tree Leaf) → Tree Leaf
top [] = leaf (0, [])
top (t ∷ ts) = t

-- As many levels as there are bytes are more than enough.
abbrev pub merkle_tree : List ℕ → Tree Leaf
merkle_tree bytes = top (levels node (length bytes) (number 0 (split bytes)))

module _ (c : Compressor) (key : List ℕ) (flags : ℕ) where
  -- An inner node compresses the 64 bytes of its left child and the 64 of its right one, in this
  -- order, as a full block of 128 bytes with the key, the counter 0 and the flag PARENT, which is 4.
  abbrev pub inner_output : List ℕ → List ℕ → Output
  inner_output left right = record {
    input_cv = key;
    block = words_to_bytes left ++ words_to_bytes right;
    len = 128;
    counter = 0;
    flags = bit_or flags 4;
  }

  -- The chaining value of a node: the first eight words.
  abbrev pub node_cv : Output → List ℕ
  node_cv o = take 8 (c.compress o.input_cv o.block o.len o.counter o.flags)

  abbrev pub tree_cv : Tree Leaf → List ℕ
  tree_cv (leaf (i, chunk)) = node_cv (chunk_output c key i flags chunk)
  tree_cv (node l r) = node_cv (inner_output (tree_cv l) (tree_cv r))

  abbrev pub tree_output : Tree Leaf → Output
  tree_output (leaf (i, chunk)) = chunk_output c key i flags chunk
  tree_output (node l r) = inner_output (tree_cv l) (tree_cv r)

  -- The hash of `bytes`: `n` bytes from position `seek` on of the stream of the node at the top,
  -- which is compressed with the ROOT flag.
  abbrev pub hash_spec : List ℕ → ℕ → ℕ → List ℕ
  hash_spec bytes seek n = xof_bytes c (tree_output (merkle_tree bytes)) seek n
