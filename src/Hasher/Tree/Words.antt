-- ===== src/Hasher/Tree/Words.antt =====
-- Every chaining value of the tree is eight 64-bit words, so that the stack can store it.
use blake.Base.{ℕ, zero, suc, ◌+◌, ◌-◌, ◌^◌, ◌≤◌, ◌<◌, ◌≡◌, arith, bit_or}
use blake.Base.{List, All, take, drop, length, length-take, length-drop, replicate}
use blake.Base.{ltb, if◌then◌else◌, Bool, true, false}
use blake.Word.{IsWord, IsByte, words_to_bytes, words_from_bytes}
use blake.Word.Range.{words_to_bytes-bytes, All-take, All-append, All-drop}
use blake.Word.Endian.{words_from_bytes-words_to_bytes}
use blake.Bits.Bounds.{bit_or-lt}
use blake.Compress.{Compressor}
use blake.Merkle.{Tree, leaf, node}
use blake.Hasher.{Output}
use blake.Hasher.Node.{output_chaining_value, parent_output, parent_cv}
use blake.Hasher.Chunk.Blocks.{chain, last_block, next_cv, chunk_output, start_flag}
use blake.Hasher.Tree.{Leaf, tree_cv}

-- Eight words.
abbrev pub IsCv : List ℕ → Type 0
IsCv cv = (length cv ≡ 8) × All IsWord cv

abbrev pub IsFlags : ℕ → Type 0
IsFlags flags = flags < 2 ^ 8

pub stored_cv : (cv : List ℕ) → IsCv cv → words_from_bytes (words_to_bytes cv) ≡ cv
stored_cv cv h = words_from_bytes-words_to_bytes cv h.0 h.1

-- The arguments of a compression fit their types.
abbrev pub IsOutput : Output → Type 0
IsOutput o =
    IsCv o.input_cv × All IsByte o.block × IsWord o.len × IsWord o.counter × IsFlags o.flags

module _ (c : Compressor) where
  compress-IsCv :
      (cv block : List ℕ) (len counter flags : ℕ)
      → IsCv cv
      → All IsByte block
      → IsWord len
      → IsWord counter
      → IsFlags flags
      → IsCv (take 8 (c.compress cv block len counter flags))
  compress-IsCv cv block len counter flags hv hb hl hc hf = (
    omega (
      arith,
      length-take 8 (c.compress cv block len counter flags),
      c.compress_length cv block len counter flags,
    ),
    All-take IsWord 8 (c.compress cv block len counter flags)
        (c.compress_words cv block len counter flags hv.1 hb hl hc (omega arith)),
  )

  pub output_chaining_value-IsCv : (o : Output) → IsOutput o → IsCv (output_chaining_value c o)
  unfolding output_chaining_value
  output_chaining_value-IsCv o h =
      compress-IsCv o.input_cv o.block o.len o.counter o.flags h.0 h.1 h.2 h.3 h.4

  zeros-bytes : (n : ℕ) → All IsByte (replicate n 0)
  zeros-bytes zero = tt
  zeros-bytes (suc n) = (omega arith, zeros-bytes n)

  start_flag-lt : (n : ℕ) → start_flag n < 2 ^ 8
  start_flag-lt n = ground arith

  pub parent_output-IsOutput :
      (l r key : List ℕ) (flags : ℕ)
      → IsCv key
      → IsFlags flags
      → IsOutput (parent_output l r key flags)
  unfolding parent_output
  parent_output-IsOutput l r key flags hk hf = (
    hk,
    All-append IsByte (words_to_bytes l) (words_to_bytes r) (words_to_bytes-bytes l)
        (words_to_bytes-bytes r),
    omega arith,
    omega arith,
    bit_or-lt 8 flags 4 hf (omega arith),
  )

  module _ (counter flags : ℕ) (hc : IsWord counter) (hf : IsFlags flags) where
    last_block-IsOutput :
        (n : ℕ) (cv bytes : List ℕ)
        → IsCv cv
        → All IsByte bytes
        → length bytes < 2 ^ 64
        → IsOutput (last_block c counter flags n cv bytes)
    unfolding last_block
    last_block-IsOutput n cv bytes hv hb h = (
      hv,
      All-append IsByte bytes (replicate (128 - length bytes) 0) hb
          (zeros-bytes (128 - length bytes)),
      h,
      hc,
      bit_or-lt 8 (bit_or flags (start_flag n)) 2
          (bit_or-lt 8 flags (start_flag n) hf (start_flag-lt n)) (omega arith),
    )

    next_cv-IsCv :
        (n : ℕ) (cv block : List ℕ)
        → IsCv cv
        → All IsByte block
        → IsCv (next_cv c counter flags n cv block)
    unfolding next_cv
    next_cv-IsCv n cv block hv hb =
        compress-IsCv cv block 128 counter (bit_or flags (start_flag n)) hv hb (omega arith) hc
          (bit_or-lt 8 flags (start_flag n) hf (start_flag-lt n))

    chain-IsOutput :
        (more n : ℕ) (cv bytes : List ℕ)
        → IsCv cv
        → All IsByte bytes
        → length bytes < 2 ^ 64
        → IsOutput (chain c counter flags more n cv bytes)
    unfolding chain
    chain-IsOutput zero n cv bytes hv hb h = last_block-IsOutput n cv bytes hv hb h
    chain-IsOutput (suc more) n cv bytes hv hb h =
        pick (ltb 128 (length bytes)) _ _
          (chain-IsOutput more (n + 1) (next_cv c counter flags n cv (take 128 bytes))
            (drop 128 bytes) (next_cv-IsCv n cv (take 128 bytes) hv (All-take IsByte 128 bytes hb))
            (All-drop IsByte 128 bytes hb) (omega (arith, length-drop 128 bytes)))
          (last_block-IsOutput n cv bytes hv hb h)
      where
        pick : (b : Bool) (x y : Output) → IsOutput x → IsOutput y → IsOutput (if b then x else y)
        pick true x y hx hy = hx
        pick false x y hx hy = hy

  -- A leaf of at most 2048 bytes whose number fits 64 bits.
  abbrev pub IsLeaf : Leaf → Type 0
  IsLeaf l = IsWord l.0 × All IsByte l.1 × (length l.1 ≤ 2048)

  pub chunk_output-IsOutput :
      (key : List ℕ) (flags : ℕ) (l : Leaf)
      → IsCv key
      → IsFlags flags
      → IsLeaf l
      → IsOutput (chunk_output c key l.0 flags l.1)
  unfolding chunk_output
  chunk_output-IsOutput key flags l hk hf hl =
      chain-IsOutput l.0 flags hl.0 hf 15 0 (take 8 key) l.1
        (omega (arith, length-take 8 key, hk.0), All-take IsWord 8 key hk.1) hl.1
        (omega (arith, hl.2))

  pub tree_cv-leaf-IsCv :
      (key : List ℕ) (flags i : ℕ) (chunk : List ℕ)
      → IsCv key
      → IsFlags flags
      → IsLeaf (i, chunk)
      → IsCv (tree_cv c key flags (leaf (i, chunk)))
  unfolding output_chaining_value
  tree_cv-leaf-IsCv key flags i chunk hk hf hl =
      output_chaining_value-IsCv (chunk_output c key i flags chunk)
        (chunk_output-IsOutput key flags (i, chunk) hk hf hl)

  pub tree_cv-node-IsCv :
      (key : List ℕ) (flags : ℕ) (l r : Tree Leaf)
      → IsCv key
      → IsFlags flags
      → IsCv (tree_cv c key flags (node l r))
  unfolding parent_cv output_chaining_value parent_output
  tree_cv-node-IsCv key flags l r hk hf =
      output_chaining_value-IsCv
        (parent_output (tree_cv c key flags l) (tree_cv c key flags r) key flags)
        (parent_output-IsOutput (tree_cv c key flags l) (tree_cv c key flags r) key flags hk hf)
