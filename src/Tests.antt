-- ===== src/Tests.antt =====
-- Concrete inputs at which the theorems on the hasher of src/blake4.c apply.
pub mod Saved
pub mod Selection
pub mod Streams
pub mod Workers
pub mod Branchless
pub mod Vectors
pub mod Threads
pub mod Lifetimes
pub mod Trees
use blake.Base.{
  ℕ, ◌+◌, ◌^◌, ◌<◌, ◌≡◌, refl, sym, ap, subst, arith, List, [], ◌∷◌, ◌++◌, All, length, take, drop,
  map,
}
use blake.Base.{Option, none, some, ◌>>=◌, replicate}
use blake.Word.{IsByte, IsWord, words_from_bytes, words_to_bytes}
use blake.Word.Endian.{words_from_bytes-words_to_bytes}
use blake.Compress.{Compressor, iv, compress_portable}
use blake.Compress.Bounds.{portable}
use blake.Merkle.{Tree, leaf, node, push}
use blake.Hasher.{Output, Blake4Hasher, ChunkState, keyed_hash, derive_key_material}
use blake.Hasher.Node.{output_root_bytes}
use blake.Hasher.Node.Xof.{xof_bytes, output_root_bytes-xof}
use blake.Hasher.Chunk.{chunk_state_init, chunk_state_update, chunk_state_output}
use blake.Hasher.Chunk.Blocks.{chunk_output, chunk_state-chunk_output}
use blake.Hasher.Tree.{hash_spec}
use blake.Hasher.Tree.Split.{concat}
use blake.Hasher.Update.{hasher_update, update_all}
use blake.Hasher.Update.Step.{Absorbs, AllBytes, hasher_update-Absorbs}
use blake.Hasher.Finalize.{hasher_finalize, hasher_finalize_seek}
use blake.Hasher.Init.{hasher_init, hasher_init_keyed, hasher_reset, c_string}
use blake.Hasher.Init.Fresh.{IsFresh, IsFresh-Absorbs}
use blake.Hasher.Api.{
  hbs_context_prf_msg, hbs_context_t, hbs_context_h_msg, hbs_prf_msg, hbs_t, hbs_h_msg, hbs_h,
  blake4_hash, blake4_hash_keyed, blake4_derive_key,
}
use blake.Hasher.Api.Correct.{
  update_all-hash_spec, hasher_init-IsFresh, iv-IsCv, blake4_hash-hash_spec, context_key,
  blake4_derive_key-hash_spec,
}
use blake.Hasher.Api.Seek.{finalize_seek-drop, hasher_reset-hash_spec}
use blake.Hasher.Api.Pieces.{all_bytes_lem}
use blake.Hasher.Api.Signatures.{hbs_prf_msg-hash_spec, hbs_h_msg-hash_spec}
use blake.Hasher.Api.Signatures.Domains.{h_msg_tail, hbs_h_msg-hbs_h}
use blake.Hasher.Api.Correct.{blake4_hash_keyed-hash_spec}
use blake.Hasher.Api.Signatures.{hbs_t-hash_spec}

abbrev abc : List ℕ
abc = 97 ∷ 98 ∷ 99 ∷ []

abbrev test_key : List ℕ
test_key = replicate 64 7

abbrev filler : ℕ → List ℕ
filler n = replicate n 5

abc-bytes : All IsByte abc
abc-bytes = all_bytes_lem abc refl

abbrev iv-fit : (length iv ≡ 8) × All IsWord iv
iv-fit = iv-IsCv

update_all-hash_spec_example :
    (update_all portable hasher_init (abc ∷ [] ∷ abc ∷ []) >>= λ h.
    hasher_finalize_seek portable h 100 80)
    ≡ some (hash_spec portable hasher_init.key_words hasher_init.flags (abc ++ abc) 100 80)
update_all-hash_spec_example =
    update_all-hash_spec portable hasher_init (abc ∷ [] ∷ abc ∷ []) 100 80 hasher_init-IsFresh
      (abc-bytes, (tt, (abc-bytes, tt))) (omega arith) (omega arith) (omega arith)

blake4_hash_keyed-hash_spec_example :
    blake4_hash_keyed portable test_key abc
    ≡ some (hash_spec portable (words_from_bytes test_key) keyed_hash abc 0 64)
blake4_hash_keyed-hash_spec_example =
    blake4_hash_keyed-hash_spec portable test_key abc (all_bytes_lem test_key refl) abc-bytes
      (omega arith)

abbrev context : List ℕ
context = 97 ∷ 98 ∷ 99 ∷ 0 ∷ 1 ∷ []

c_string-context : c_string context ≡ abc
unfolding c_string
c_string-context = refl

-- The context "abc", with what follows its terminator.
blake4_derive_key-hash_spec_example :
    blake4_derive_key portable context abc 32
    ≡ some
        (hash_spec portable (context_key portable (c_string context)) derive_key_material abc 0 32)
blake4_derive_key-hash_spec_example =
    blake4_derive_key-hash_spec portable context abc 32
      (subst (λ z. All IsByte z) (sym c_string-context) abc-bytes)
      (omega (arith, ap length c_string-context)) abc-bytes (omega arith) (omega arith)

hasher_update-Absorbs_example :
    (h : Blake4Hasher) × (hasher_update portable hasher_init abc ≡ some h)
    × Absorbs portable hasher_init abc h
hasher_update-Absorbs_example =
    hasher_update-Absorbs portable hasher_init hasher_init-IsFresh.key hasher_init-IsFresh.flags_fit
      [] abc hasher_init (IsFresh-Absorbs portable hasher_init hasher_init-IsFresh) tt abc-bytes
      (omega arith)

finalize_seek-drop_example :
    (long : List ℕ) × (hasher_finalize portable hasher_init 74 ≡ some long)
    × (hasher_finalize_seek portable hasher_init 10 64 ≡ some (drop 10 long))
finalize_seek-drop_example =
    finalize_seek-drop portable hasher_init [] hasher_init 10 64 hasher_init-IsFresh.key
      hasher_init-IsFresh.flags_fit (IsFresh-Absorbs portable hasher_init hasher_init-IsFresh) tt
      (omega arith) (omega arith)

hasher_reset-hash_spec_example :
    (update_all portable (hasher_reset hasher_init) (abc ∷ []) >>= λ h.
    hasher_finalize_seek portable h 0 64)
    ≡ some (hash_spec portable hasher_init.key_words hasher_init.flags abc 0 64)
hasher_reset-hash_spec_example =
    hasher_reset-hash_spec portable hasher_init (abc ∷ []) 0 64 hasher_init-IsFresh.key
      hasher_init-IsFresh.flags_fit (abc-bytes, tt) (omega arith) (omega arith) (omega arith)

chunk_state-chunk_output_example :
    (s : ChunkState) × (chunk_state_update portable (chunk_state_init iv 3 0) (filler 300) ≡ some s)
    × (chunk_state_output s ≡ chunk_output portable iv 3 0 (filler 300))
chunk_state-chunk_output_example =
    chunk_state-chunk_output portable iv 3 0 (filler 300) (omega arith)

abbrev one_block : Output
one_block = record { input_cv = iv; block = replicate 128 0; len = 0; counter = 0; flags = 3 }

output_root_bytes-xof_example :
    output_root_bytes portable one_block 120 300 ≡ xof_bytes portable one_block 120 300
output_root_bytes-xof_example =
    output_root_bytes-xof portable one_block 120 300 (omega arith) (omega arith)

words_from_bytes-words_to_bytes_example : words_from_bytes (words_to_bytes iv) ≡ iv
words_from_bytes-words_to_bytes_example = words_from_bytes-words_to_bytes iv iv-fit.0 iv-fit.1

hbs_t-hash_spec_example :
    hbs_t portable (filler 64) (filler 32) (filler 128) 2
    ≡ some (
        hash_spec portable iv 0
          (concat (hbs_context_t ∷ filler 64 ∷ filler 32 ∷ filler 128 ∷ []))
          0
          64)
hbs_t-hash_spec_example =
    hbs_t-hash_spec portable (filler 64) (filler 32) (filler 128) 2 (all_bytes_lem (filler 64) refl)
      (all_bytes_lem (filler 32) refl) (all_bytes_lem (filler 128) refl) (omega arith)

hbs_h_msg-hbs_h_example :
    (let x = h_msg_tail portable (filler 64) (filler 64) (filler 64) (filler 29) in
      hbs_h_msg portable (filler 64) (filler 64) (filler 64) (filler 29) 64
      ≡ hbs_h portable x (drop 64 x) (drop 96 x) (drop 160 x))
hbs_h_msg-hbs_h_example =
    hbs_h_msg-hbs_h portable (filler 64) (filler 64) (filler 64) (filler 29)
      (all_bytes_lem (filler 64) refl) (all_bytes_lem (filler 64) refl)
      (all_bytes_lem (filler 64) refl) (all_bytes_lem (filler 29) refl) refl refl refl refl
