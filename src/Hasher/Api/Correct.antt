-- ===== src/Hasher/Api/Correct.antt =====
-- The public functions compute the hash of BLAKE4_SPEC.md.
use blake.Base.{ℕ, zero, suc, ◌+◌, ◌^◌, ◌<◌, ◌≡◌, refl, ap, ◌∙◌, arith}
use blake.Base.{List, [], ◌∷◌, All, length, Option, none, some, ◌>>=◌}
use blake.Base.{append-nil}
use blake.Word.{IsByte, IsWord, words_from_bytes}
use blake.Word.Range.{load_words-words, length-load_words, All-append}
use blake.Compress.{Compressor, iv}
use blake.Hasher.{Blake4Hasher, Output, keyed_hash, derive_key_context, derive_key_material}
use blake.Hasher.Node.Xof.{xof_bytes}
use blake.Hasher.Tree.{hash_spec, tree_output, merkle_tree}
use blake.Hasher.Tree.Words.{IsCv, IsFlags}
use blake.Hasher.Tree.Split.{concat}
use blake.Hasher.Update.{hasher_update, update_all}
use blake.Hasher.Update.Step.{AllBytes, hasher_update-Absorbs, update_all-Absorbs}
use blake.Hasher.Finalize.{hasher_finalize_seek, hasher_finalize}
use blake.Hasher.Finalize.Correct.{finalize_seek-Absorbs}
use blake.Hasher.Init.{
  cleared, with_key, hasher_init, hasher_init_keyed, hasher_init_derive_key_raw,
  hasher_init_derive_key, hasher_reset, c_string,
}
use blake.Hasher.Init.Fresh.{IsFresh, with_key-IsFresh, IsFresh-Absorbs}
use blake.Hasher.Api.{blake4_hash, blake4_hash_xof, blake4_hash_keyed, blake4_derive_key}

pub words_from_bytes-IsCv : (p : List ℕ) → All IsByte p → IsCv (words_from_bytes p)
unfolding words_from_bytes
words_from_bytes-IsCv p hb = (length-load_words 8 p, load_words-words 8 p hb)

iv-words : All IsWord iv
iv-words = (
  omega arith,
  (
    omega arith,
    (omega arith, (omega arith, (omega arith, (omega arith, (omega arith, (omega arith, tt)))))),
  ),
)

pub iv-IsCv : IsCv iv
iv-IsCv = (refl, iv-words)

pub hasher_init-IsFresh : IsFresh hasher_init
unfolding hasher_init with_key cleared
hasher_init-IsFresh = with_key-IsFresh iv 0 iv-IsCv (omega arith)

pub hasher_init_keyed-IsFresh : (key : List ℕ) → All IsByte key → IsFresh (hasher_init_keyed key)
unfolding hasher_init_keyed with_key cleared
hasher_init_keyed-IsFresh key hb =
    with_key-IsFresh (words_from_bytes key) keyed_hash (words_from_bytes-IsCv key hb) (omega arith)

pub hasher_reset-IsFresh :
    (h : Blake4Hasher) → IsCv h.key_words → IsFlags h.flags → IsFresh (hasher_reset h)
unfolding hasher_reset
hasher_reset-IsFresh h hk hf = with_key-IsFresh h.key_words h.flags hk hf

xof_bytes-bytes : (c : Compressor) (o : Output) (p n : ℕ) → All IsByte (xof_bytes c o p n)
xof_bytes-bytes c o p zero = tt
xof_bytes-bytes c o p (suc n) = (omega arith, xof_bytes-bytes c o (p + 1) n)

pub hash_spec-bytes :
    (c : Compressor) (key : List ℕ) (flags : ℕ) (bytes : List ℕ) (seek n : ℕ)
    → All IsByte (hash_spec c key flags bytes seek n)
hash_spec-bytes c key flags bytes seek n =
    xof_bytes-bytes c (tree_output c key flags (merkle_tree bytes)) seek n

pub concat-bytes : (pieces : List (List ℕ)) → AllBytes pieces → All IsByte (concat pieces)
concat-bytes [] h = tt
concat-bytes (p ∷ ps) h = All-append IsByte p (concat ps) h.0 (concat-bytes ps h.1)

bind_assoc :
    {A B C : Type 0} (o : Option A) (f : A → Option B) (g : B → Option C)
    → (o >>= λ a. f a >>= g) ≡ ((o >>= f) >>= g)
bind_assoc none f g = refl
bind_assoc (some a) f g = refl

module _ (c : Compressor) where
  -- Any pieces of bytes, given one after another to a hasher that has absorbed nothing (IsFresh),
  -- and then finalized at a position below 2^64 for fewer than 2^63 bytes: no access is out of
  -- bounds, and the result is the specification of the tree hash of the concatenated pieces, which
  -- does not depend on how the input is cut. The pieces have fewer than 2^64 bytes together.
  pub update_all-hash_spec :
      (h : Blake4Hasher) (pieces : List (List ℕ)) (seek n : ℕ)
      → IsFresh h
      → AllBytes pieces
      → length (concat pieces) < 2 ^ 64
      → seek < 2 ^ 64
      → n < 2 ^ 63
      → (update_all c h pieces >>= λ h'. hasher_finalize_seek c h' seek n)
        ≡ some (hash_spec c h.key_words h.flags (concat pieces) seek n)
  update_all-hash_spec h pieces seek n f hp lt hs hn =
      let (h', updated, a) =
        update_all-Absorbs c h f.key f.flags_fit pieces [] h (IsFresh-Absorbs c h f) tt hp
          (omega arith) in
      rw updated (
        finalize_seek-Absorbs c h f.key f.flags_fit seek n hs hn (concat pieces) h' a
          (concat-bytes pieces hp) lt)

  one_piece : (p : List ℕ) → concat (p ∷ []) ≡ p
  one_piece p = append-nil p

  hash_one :
      (h : Blake4Hasher) (p : List ℕ) (n : ℕ)
      → IsFresh h
      → All IsByte p
      → length p < 2 ^ 64
      → n < 2 ^ 63
      → (hasher_update c h p >>= λ h'. hasher_finalize c h' n)
        ≡ some (hash_spec c h.key_words h.flags p 0 n)
  unfolding hasher_finalize
  hash_one h p n f hb lt hn =
      let (h', updated, a) =
        hasher_update-Absorbs c h f.key f.flags_fit [] p h (IsFresh-Absorbs c h f) tt hb
          (omega arith) in
      rw updated (finalize_seek-Absorbs c h f.key f.flags_fit 0 n (omega arith) hn p h' a hb lt)

  pub blake4_hash_xof-hash_spec :
      (input : List ℕ) (n : ℕ)
      → All IsByte input
      → length input < 2 ^ 64
      → n < 2 ^ 63
      → blake4_hash_xof c input n ≡ some (hash_spec c iv 0 input 0 n)
  unfolding blake4_hash_xof hasher_init with_key cleared
  blake4_hash_xof-hash_spec input n hb lt hn =
      hash_one hasher_init input n hasher_init-IsFresh hb lt hn

  -- blake4_hash returns the first 64 bytes of the specified hash with the initial values as key
  -- and no flags, for every input of fewer than 2^64 bytes.
  pub blake4_hash-hash_spec :
      (input : List ℕ)
      → All IsByte input
      → length input < 2 ^ 64
      → blake4_hash c input ≡ some (hash_spec c iv 0 input 0 64)
  unfolding blake4_hash hasher_init with_key cleared
  blake4_hash-hash_spec input hb lt =
      hash_one hasher_init input 64 hasher_init-IsFresh hb lt (omega arith)

  -- blake4_hash_keyed returns the first 64 bytes of the specified hash under the words of the key
  -- with the KEYED_HASH flag, for a key of bytes and every input of fewer than 2^64 bytes.
  pub blake4_hash_keyed-hash_spec :
      (key input : List ℕ)
      → All IsByte key
      → All IsByte input
      → length input < 2 ^ 64
      → blake4_hash_keyed c key input
        ≡ some (hash_spec c (words_from_bytes key) keyed_hash input 0 64)
  unfolding blake4_hash_keyed hasher_init_keyed with_key cleared
  blake4_hash_keyed-hash_spec key input hk hb lt =
      hash_one (hasher_init_keyed key) input 64 (hasher_init_keyed-IsFresh key hk) hb lt
        (omega arith)

  -- The key that a context string gives.
  abbrev pub context_key : List ℕ → List ℕ
  context_key context = words_from_bytes (hash_spec c iv derive_key_context context 0 64)

  context_key-IsCv : (context : List ℕ) → IsCv (context_key context)
  context_key-IsCv context =
      words_from_bytes-IsCv (hash_spec c iv derive_key_context context 0 64)
        (hash_spec-bytes c iv derive_key_context context 0 64)

  pub hasher_init_derive_key_raw-with_key :
      (context : List ℕ)
      → All IsByte context
      → length context < 2 ^ 64
      → hasher_init_derive_key_raw c context
        ≡ some (with_key (context_key context) derive_key_material)
  unfolding hasher_init_derive_key_raw with_key cleared
  hasher_init_derive_key_raw-with_key context hb lt =
      let h = with_key iv derive_key_context in
      let fresh = with_key-IsFresh iv derive_key_context iv-IsCv (omega arith) in
      let keyed : List ℕ → Option Blake4Hasher =
        λ k. some (with_key (words_from_bytes k) derive_key_material) in
      bind_assoc (hasher_update c h context) (λ a. hasher_finalize c a 64) keyed
      ∙ ap (λ o. o >>= keyed) (hash_one h context 64 fresh hb lt (omega arith))

  -- blake4_derive_key returns the specified hash of the key material under the key that the hash
  -- of the context string, up to its terminator and with the DERIVE_KEY_CONTEXT flag, gives.
  -- Context and material have fewer than 2^64 bytes, and fewer than 2^63 bytes are asked for.
  pub blake4_derive_key-hash_spec :
      (context key_material : List ℕ) (n : ℕ)
      → All IsByte (c_string context)
      → length (c_string context) < 2 ^ 64
      → All IsByte key_material
      → length key_material < 2 ^ 64
      → n < 2 ^ 63
      → blake4_derive_key c context key_material n
        ≡ some (hash_spec c (context_key (c_string context)) derive_key_material key_material 0 n)
  unfolding blake4_derive_key hasher_init_derive_key with_key cleared
  blake4_derive_key-hash_spec context key_material n hc lc hb lt hn =
      let h = with_key (context_key (c_string context)) derive_key_material in
      let fresh =
        with_key-IsFresh (context_key (c_string context)) derive_key_material
          (context_key-IsCv (c_string context)) (omega arith) in
      ap (λ o. o >>= λ h0. hasher_update c h0 key_material >>= λ h1. hasher_finalize c h1 n)
        (hasher_init_derive_key_raw-with_key (c_string context) hc lc)
      ∙ hash_one h key_material n fresh hb lt hn
