-- ===== src/Hasher/Api.antt =====
-- src/blake4.c: the one-call functions, those for hash-based signatures, and the shorter outputs.
-- A parameter declared as an array of `n` bytes is read as its first `n` bytes.
pub mod Correct
pub mod Pieces
pub mod Signatures
pub mod Seek
use blake.Base.{ℕ, ◌*◌, List, [], ◌∷◌, take, length, Option, none, some, ◌>>=◌}
use blake.Word.{u64}
use blake.Compress.{Compressor}
use blake.Hasher.{Blake4Hasher, out_len}
use blake.Hasher.Update.{hasher_update, update_all}
use blake.Hasher.Finalize.{hasher_finalize}
use blake.Hasher.Init.{hasher_init, hasher_init_keyed, hasher_init_derive_key}

-- The context strings, without their terminators.
abbrev pub hbs_context_prf : List ℕ
hbs_context_prf = 66 ∷ 76 ∷ 65 ∷ 75 ∷ 69 ∷ 52 ∷ 45 ∷ 72 ∷ 66 ∷ 83 ∷ 45 ∷ 80 ∷ 82 ∷ 70 ∷ []

abbrev pub hbs_context_prf_msg : List ℕ
hbs_context_prf_msg =
    66 ∷ 76 ∷ 65 ∷ 75 ∷ 69 ∷ 52 ∷ 45 ∷ 72 ∷ 66 ∷ 83 ∷ 45 ∷ 80 ∷ 82 ∷ 70 ∷ 109 ∷ 115 ∷ 103 ∷ []

abbrev pub hbs_context_h : List ℕ
hbs_context_h = 66 ∷ 76 ∷ 65 ∷ 75 ∷ 69 ∷ 52 ∷ 45 ∷ 72 ∷ 66 ∷ 83 ∷ 45 ∷ 72 ∷ []

abbrev pub hbs_context_f : List ℕ
hbs_context_f = 66 ∷ 76 ∷ 65 ∷ 75 ∷ 69 ∷ 52 ∷ 45 ∷ 72 ∷ 66 ∷ 83 ∷ 45 ∷ 70 ∷ []

abbrev pub hbs_context_t : List ℕ
hbs_context_t = 66 ∷ 76 ∷ 65 ∷ 75 ∷ 69 ∷ 52 ∷ 45 ∷ 72 ∷ 66 ∷ 83 ∷ 45 ∷ 84 ∷ []

abbrev pub hbs_context_h_msg : List ℕ
hbs_context_h_msg = 66 ∷ 76 ∷ 65 ∷ 75 ∷ 69 ∷ 52 ∷ 45 ∷ 72 ∷ 66 ∷ 83 ∷ 45 ∷ 72 ∷ 109 ∷ 115 ∷ 103 ∷ []

module _ (c : Compressor) where
  unfoldable pub blake4_hash : List ℕ → Option (List ℕ)
  blake4_hash input = do h ← hasher_update c hasher_init input; hasher_finalize c h out_len

  unfoldable pub blake4_hash_xof : List ℕ → ℕ → Option (List ℕ)
  blake4_hash_xof input n = do h ← hasher_update c hasher_init input; hasher_finalize c h n

  unfoldable pub blake4_hash_keyed : List ℕ → List ℕ → Option (List ℕ)
  blake4_hash_keyed key input = do
    h ← hasher_update c (hasher_init_keyed key) input
    hasher_finalize c h out_len

  unfoldable pub blake4_derive_key : List ℕ → List ℕ → ℕ → Option (List ℕ)
  blake4_derive_key context key_material n = do
    h0 ← hasher_init_derive_key c context
    h ← hasher_update c h0 key_material
    hasher_finalize c h n

  unfoldable pub hbs_prf : List ℕ → List ℕ → ℕ → Option (List ℕ)
  hbs_prf key addr n = do
    h ← update_all c (hasher_init_keyed key) (hbs_context_prf ∷ take 32 addr ∷ [])
    hasher_finalize c h n

  unfoldable pub hbs_prf_msg : List ℕ → List ℕ → List ℕ → ℕ → Option (List ℕ)
  hbs_prf_msg key opt_rand message n = do
    h ←
        update_all c (hasher_init_keyed key)
          (hbs_context_prf_msg ∷ take out_len opt_rand ∷ message ∷ [])
    hasher_finalize c h n

  unfoldable pub hbs_h : List ℕ → List ℕ → List ℕ → List ℕ → Option (List ℕ)
  hbs_h pub_seed addr left right = do
    h ← update_all c hasher_init (
        hbs_context_h
        ∷ take out_len pub_seed
        ∷ take 32 addr
        ∷ take out_len left
        ∷ take out_len right
        ∷ [])
    hasher_finalize c h out_len

  unfoldable pub hbs_f : List ℕ → List ℕ → List ℕ → Option (List ℕ)
  hbs_f pub_seed addr input = do
    h ←
        update_all c hasher_init
          (hbs_context_f ∷ take out_len pub_seed ∷ take 32 addr ∷ take out_len input ∷ [])
    hasher_finalize c h out_len

  -- The number of bytes is a product of two `size_t`, and wraps.
  unfoldable pub hbs_t : List ℕ → List ℕ → List ℕ → ℕ → Option (List ℕ)
  hbs_t pub_seed addr input num_blocks = do
    h ← update_all c hasher_init (
        hbs_context_t
        ∷ take out_len pub_seed
        ∷ take 32 addr
        ∷ take (u64 (num_blocks * out_len)) input
        ∷ [])
    hasher_finalize c h out_len

  unfoldable pub hbs_h_msg : List ℕ → List ℕ → List ℕ → List ℕ → ℕ → Option (List ℕ)
  hbs_h_msg r pub_seed pub_root message n = do
    h ← update_all c hasher_init (
        hbs_context_h_msg
        ∷ take out_len r
        ∷ take out_len pub_seed
        ∷ take out_len pub_root
        ∷ message
        ∷ [])
    hasher_finalize c h n

  unfoldable pub blake4_256_hash : List ℕ → Option (List ℕ)
  blake4_256_hash input = do full ← blake4_hash input; some (take 32 full)

  unfoldable pub blake4_384_hash : List ℕ → Option (List ℕ)
  blake4_384_hash input = do full ← blake4_hash input; some (take 48 full)

  unfoldable pub blake4_512_hash : List ℕ → Option (List ℕ)
  blake4_512_hash input = blake4_hash input
