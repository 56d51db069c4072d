-- ===== src/Hasher/Api/Seek.antt =====
-- Finalizing further into the output, and hashing again after a reset.
use blake.Base.{ℕ, zero, suc, ◌+◌, ◌^◌, ◌<◌, ◌≡◌, sym, ap, ◌∙◌, arith}
use blake.Base.{List, All, length, drop, some, ◌>>=◌}
use blake.Word.{IsByte}
use blake.Compress.{Compressor}
use blake.Hasher.{Blake4Hasher, Output}
use blake.Hasher.Node.Xof.{xof_bytes}
use blake.Hasher.Tree.{hash_spec, tree_output, merkle_tree}
use blake.Hasher.Tree.Words.{IsCv, IsFlags}
use blake.Hasher.Tree.Split.{concat}
use blake.Hasher.Update.{update_all}
use blake.Hasher.Update.Step.{Absorbs, AllBytes}
use blake.Hasher.Finalize.{hasher_finalize_seek, hasher_finalize}
use blake.Hasher.Finalize.Correct.{finalize_seek-Absorbs}
use blake.Hasher.Init.{with_key, cleared, hasher_reset}
use blake.Hasher.Api.Correct.{update_all-hash_spec, hasher_reset-IsFresh}

module _ (c : Compressor) where
  drop-xof_bytes :
      (o : Output) (k p n : ℕ) → drop k (xof_bytes c o p (k + n)) ≡ xof_bytes c o (p + k) n
  drop-xof_bytes o zero p n =
      ap (λ m. drop 0 (xof_bytes c o p m)) {y = n} (omega arith)
      ∙ ap (λ q. xof_bytes c o q n) (omega arith)
  drop-xof_bytes o (suc k) p n =
      ap (λ m. drop (suc k) (xof_bytes c o p m)) {y = suc (k + n)} (omega arith)
      ∙ drop-xof_bytes o k (p + 1) n
      ∙ ap (λ q. xof_bytes c o q n) (omega arith)

  -- On a hasher that has absorbed fewer than 2^64 bytes, finalizing from a position gives what
  -- finalizing from the start, for that many bytes more, gives behind that position. The position
  -- and the length are below 2^63 together.
  pub finalize_seek-drop :
      (base : Blake4Hasher) (bytes : List ℕ) (h : Blake4Hasher) (seek n : ℕ)
      → IsCv base.key_words
      → IsFlags base.flags
      → Absorbs c base bytes h
      → All IsByte bytes
      → length bytes < 2 ^ 64
      → seek + n < 2 ^ 63
      → (long : List ℕ) × (hasher_finalize c h (seek + n) ≡ some long)
        × (hasher_finalize_seek c h seek n ≡ some (drop seek long))
  unfolding hasher_finalize
  finalize_seek-drop base bytes h seek n hk hf a hb lt hs =
      let o = tree_output c base.key_words base.flags (merkle_tree bytes) in
      (
        hash_spec c base.key_words base.flags bytes 0 (seek + n),
        finalize_seek-Absorbs c base hk hf 0 (seek + n) (omega arith) hs bytes h a hb lt,
        finalize_seek-Absorbs c base hk hf seek n (omega arith) (omega arith) bytes h a hb lt
            ∙ ap some (ap (λ p. xof_bytes c o p n) (omega arith) ∙ sym (drop-xof_bytes o seek 0 n)),
      )

  -- After a reset of any hasher whose key is eight words and whose flags are a byte, updates and a
  -- finalization give the specified hash of the new input under the same key and flags: nothing is
  -- left of the earlier input.
  pub hasher_reset-hash_spec :
      (h : Blake4Hasher) (pieces : List (List ℕ)) (seek n : ℕ)
      → IsCv h.key_words
      → IsFlags h.flags
      → AllBytes pieces
      → length (concat pieces) < 2 ^ 64
      → seek < 2 ^ 64
      → n < 2 ^ 63
      → (update_all c (hasher_reset h) pieces >>= λ h'. hasher_finalize_seek c h' seek n)
        ≡ some (hash_spec c h.key_words h.flags (concat pieces) seek n)
  unfolding hasher_reset with_key cleared
  hasher_reset-hash_spec h pieces seek n hk hf hp lt hs hn =
      update_all-hash_spec c (hasher_reset h) pieces seek n (hasher_reset-IsFresh h hk hf) hp lt hs
        hn
