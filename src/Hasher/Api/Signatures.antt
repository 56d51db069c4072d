-- ===== src/Hasher/Api/Signatures.antt =====
-- The functions for hash-based signatures hash the concatenation of a context string and their
-- arguments.
pub mod Domains
use blake.Base.{ℕ, zero, suc, ◌+◌, ◌*◌, ◌^◌, ◌≤◌, ◌<◌, ◌≡◌, refl, sym, ap, ◌∙◌, subst, arith}
use blake.Base.{List, [], ◌∷◌, ◌++◌, All, length, take, drop, Option, none, some, ◌>>=◌}
use blake.Base.{
  length-append, length-take, length-drop, take-append-drop, take_all, append_assoc, append-nil,
}
use blake.Base.{Bool, true, false, ◌&&◌, ltb, Bool-cases, ltb→lt, drop-drop, inl, inr}
use blake.Word.{u64, IsByte, words_from_bytes}
use blake.Word.Range.{All-take, All-drop}
use blake.Compress.{Compressor, iv}
use blake.Hasher.{Blake4Hasher, keyed_hash}
use blake.Hasher.Tree.{hash_spec}
use blake.Hasher.Tree.Split.{concat}
use blake.Hasher.Update.{hasher_update, update_all}
use blake.Hasher.Update.Step.{AllBytes}
use blake.Hasher.Finalize.{hasher_finalize_seek, hasher_finalize}
use blake.Hasher.Init.{cleared, with_key, hasher_init, hasher_init_keyed}
use blake.Hasher.Init.Fresh.{IsFresh}
use blake.Hasher.Api.{
  hbs_context_prf, hbs_context_prf_msg, hbs_context_h, hbs_context_f, hbs_context_t,
  hbs_context_h_msg, hbs_prf, hbs_prf_msg, hbs_h, hbs_f, hbs_t, hbs_h_msg,
}
use blake.Hasher.Api.Correct.{
  update_all-hash_spec, concat-bytes, hasher_init-IsFresh, hasher_init_keyed-IsFresh,
}
use blake.Hasher.Api.Pieces.{all_bytes_lem, fixed_size, keyed_pieces, plain_pieces}

module _ (c : Compressor) where
  pub hbs_prf-hash_spec :
      (key addr : List ℕ) (n : ℕ)
      → All IsByte key
      → All IsByte addr
      → n < 2 ^ 63
      → hbs_prf c key addr n
        ≡ some (
            hash_spec c
              (words_from_bytes key)
              keyed_hash
              (concat (hbs_context_prf ∷ take 32 addr ∷ []))
              0
              n)
  unfolding hbs_prf
  hbs_prf-hash_spec key addr n h_key h_addr hn =
      keyed_pieces c key (hbs_context_prf ∷ take 32 addr ∷ []) n h_key
        (all_bytes_lem hbs_context_prf refl, (All-take IsByte 32 addr h_addr, tt))
        (omega (arith, length-append (take 32 addr) [], length-take 32 addr)) hn

  pub hbs_prf_msg-hash_spec :
      (key opt_rand message : List ℕ) (n : ℕ)
      → All IsByte key
      → All IsByte opt_rand
      → All IsByte message
      → length (concat (hbs_context_prf_msg ∷ take 64 opt_rand ∷ message ∷ [])) < 2 ^ 64
      → n < 2 ^ 63
      → hbs_prf_msg c key opt_rand message n
        ≡ some (
            hash_spec c
              (words_from_bytes key)
              keyed_hash
              (concat (hbs_context_prf_msg ∷ take 64 opt_rand ∷ message ∷ []))
              0
              n)
  unfolding hbs_prf_msg
  hbs_prf_msg-hash_spec key opt_rand message n h_key h_opt_rand h_message lt hn =
      keyed_pieces c key (hbs_context_prf_msg ∷ take 64 opt_rand ∷ message ∷ []) n h_key
        (
          all_bytes_lem hbs_context_prf_msg refl,
          (All-take IsByte 64 opt_rand h_opt_rand, (h_message, tt)),
        )
        (lt) hn

  pub hbs_h-hash_spec :
      (pub_seed addr left right : List ℕ)
      → All IsByte pub_seed
      → All IsByte addr
      → All IsByte left
      → All IsByte right
      → hbs_h c pub_seed addr left right
        ≡ some (
            hash_spec c iv 0
              (concat (
                hbs_context_h
                ∷ take 64 pub_seed
                ∷ take 32 addr
                ∷ take 64 left
                ∷ take 64 right
                ∷ []))
              0
              64)
  unfolding hbs_h
  hbs_h-hash_spec pub_seed addr left right h_pub_seed h_addr h_left h_right =
      plain_pieces c
        (hbs_context_h ∷ take 64 pub_seed ∷ take 32 addr ∷ take 64 left ∷ take 64 right ∷ []) 64
        (
          all_bytes_lem hbs_context_h refl,
          (
            All-take IsByte 64 pub_seed h_pub_seed,
            (
              All-take IsByte 32 addr h_addr,
              (All-take IsByte 64 left h_left, (All-take IsByte 64 right h_right, tt)),
            ),
          ),
        )
        (omega (arith, fixed_size hbs_context_h pub_seed addr left right)) (omega arith)

  pub hbs_f-hash_spec :
      (pub_seed addr input : List ℕ)
      → All IsByte pub_seed
      → All IsByte addr
      → All IsByte input
      → hbs_f c pub_seed addr input
        ≡ some (
            hash_spec c iv 0
              (concat (hbs_context_f ∷ take 64 pub_seed ∷ take 32 addr ∷ take 64 input ∷ []))
              0
              64)
  unfolding hbs_f
  hbs_f-hash_spec pub_seed addr input h_pub_seed h_addr h_input =
      plain_pieces c (hbs_context_f ∷ take 64 pub_seed ∷ take 32 addr ∷ take 64 input ∷ []) 64
        (
          all_bytes_lem hbs_context_f refl,
          (
            All-take IsByte 64 pub_seed h_pub_seed,
            (All-take IsByte 32 addr h_addr, (All-take IsByte 64 input h_input, tt)),
          ),
        )
        (omega (arith, fixed_size hbs_context_f pub_seed addr input [])) (omega arith)

  -- blake4_hbs_t hashes its context string, 64 bytes of seed, 32 of address and num_blocks * 64
  -- bytes of input, the product taken modulo 2^64, as one string of fewer than 2^64 bytes.
  pub hbs_t-hash_spec :
      (pub_seed addr input : List ℕ) (num_blocks : ℕ)
      → All IsByte pub_seed
      → All IsByte addr
      → All IsByte input
      → length (
          concat (
            hbs_context_t
            ∷ take 64 pub_seed
            ∷ take 32 addr
            ∷ take (u64 (num_blocks * 64)) input
            ∷ []))
        < 2 ^ 64
      → hbs_t c pub_seed addr input num_blocks
        ≡ some (
            hash_spec c iv 0
              (concat (
                hbs_context_t
                ∷ take 64 pub_seed
                ∷ take 32 addr
                ∷ take (u64 (num_blocks * 64)) input
                ∷ []))
              0
              64)
  unfolding hbs_t
  hbs_t-hash_spec pub_seed addr input num_blocks h_pub_seed h_addr h_input lt =
      plain_pieces c
        (hbs_context_t ∷ take 64 pub_seed ∷ take 32 addr ∷ take (u64 (num_blocks * 64)) input ∷ [])
        64
        (
          all_bytes_lem hbs_context_t refl,
          (
            All-take IsByte 64 pub_seed h_pub_seed,
            (
              All-take IsByte 32 addr h_addr,
              (All-take IsByte (u64 (num_blocks * 64)) input h_input, tt),
            ),
          ),
        )
        (lt) (omega arith)

  pub hbs_h_msg-hash_spec :
      (r pub_seed pub_root message : List ℕ) (n : ℕ)
      → All IsByte r
      → All IsByte pub_seed
      → All IsByte pub_root
      → All IsByte message
      → length (
          concat
            (hbs_context_h_msg ∷ take 64 r ∷ take 64 pub_seed ∷ take 64 pub_root ∷ message ∷ []))
        < 2 ^ 64
      → n < 2 ^ 63
      → hbs_h_msg c r pub_seed pub_root message n
        ≡ some (
            hash_spec c iv 0
              (concat (
                hbs_context_h_msg ∷ take 64 r ∷ take 64 pub_seed ∷ take 64 pub_root ∷ message ∷ []))
              0
              n)
  unfolding hbs_h_msg
  hbs_h_msg-hash_spec r pub_seed pub_root message n h_r h_pub_seed h_pub_root h_message lt hn =
      plain_pieces c
        (hbs_context_h_msg ∷ take 64 r ∷ take 64 pub_seed ∷ take 64 pub_root ∷ message ∷ []) n
        (
          all_bytes_lem hbs_context_h_msg refl,
          (
            All-take IsByte 64 r h_r,
            (
              All-take IsByte 64 pub_seed h_pub_seed,
              (All-take IsByte 64 pub_root h_pub_root, (h_message, tt)),
            ),
          ),
        )
        (lt) hn
