-- ===== src/Hasher/Api/Pieces.antt =====
-- Pieces given to a new hasher, keyed or not, and tests for what is written out.
use blake.Base.{ℕ, ◌+◌, ◌^◌, ◌≤◌, ◌<◌, ◌≡◌, sym, ap, ◌∙◌, arith}
use blake.Base.{List, [], ◌∷◌, ◌++◌, All, length, take, some, ◌>>=◌}
use blake.Base.{length-append, length-take}
use blake.Base.{Bool, true, false, ◌&&◌, ltb, Bool-cases, ltb→lt, inl, inr}
use blake.Word.{IsByte, words_from_bytes}
use blake.Compress.{Compressor, iv}
use blake.Hasher.{keyed_hash}
use blake.Hasher.Tree.{hash_spec}
use blake.Hasher.Tree.Split.{concat}
use blake.Hasher.Update.{update_all}
use blake.Hasher.Update.Step.{AllBytes}
use blake.Hasher.Finalize.{hasher_finalize}
use blake.Hasher.Init.{cleared, with_key, hasher_init, hasher_init_keyed}
use blake.Hasher.Api.{}
use blake.Hasher.Api.Correct.{update_all-hash_spec, hasher_init-IsFresh, hasher_init_keyed-IsFresh}

-- A test for lists that are written out.
abbrev pub all_bytes : List ℕ → Bool
all_bytes [] = true
all_bytes (b ∷ bs) = ltb b 256 && all_bytes bs

pub all_bytes_lem : (bs : List ℕ) → all_bytes bs ≡ true → All IsByte bs
all_bytes_lem [] e = tt
all_bytes_lem (b ∷ bs) e = elim (Bool-cases (ltb b 256)) [
  | inl t ↦ (ltb→lt b 256 t, all_bytes_lem bs (ap (λ z. z && all_bytes bs) (sym t) ∙ e))
  | inr f ↦ absurd (let e' : false ≡ true = ap (λ z. z && all_bytes bs) (sym f) ∙ e in cc)
]

-- How long the fixed-size arguments are together with a context string.
pub fixed_size :
    (ctx p q r s : List ℕ)
    → length (concat (ctx ∷ take 64 p ∷ take 32 q ∷ take 64 r ∷ take 64 s ∷ [])) ≤ length ctx + 224
fixed_size ctx p q r s = omega (
  arith,
  length-append ctx (take 64 p ++ (take 32 q ++ (take 64 r ++ (take 64 s ++ [])))),
  length-append (take 64 p) (take 32 q ++ (take 64 r ++ (take 64 s ++ []))),
  length-append (take 32 q) (take 64 r ++ (take 64 s ++ [])),
  length-append (take 64 r) (take 64 s ++ []),
  length-append (take 64 s) [],
  length-take 64 p,
  length-take 32 q,
  length-take 64 r,
  length-take 64 s,
)

module _ (c : Compressor) where
  pub keyed_pieces :
      (key : List ℕ) (pieces : List (List ℕ)) (n : ℕ)
      → All IsByte key
      → AllBytes pieces
      → length (concat pieces) < 2 ^ 64
      → n < 2 ^ 63
      → (update_all c (hasher_init_keyed key) pieces >>= λ h. hasher_finalize c h n)
        ≡ some (hash_spec c (words_from_bytes key) keyed_hash (concat pieces) 0 n)
  unfolding hasher_finalize hasher_init_keyed with_key cleared
  keyed_pieces key pieces n hk hp lt hn =
      update_all-hash_spec c (hasher_init_keyed key) pieces 0 n (hasher_init_keyed-IsFresh key hk)
        hp lt (omega arith) hn

  pub plain_pieces :
      (pieces : List (List ℕ)) (n : ℕ)
      → AllBytes pieces
      → length (concat pieces) < 2 ^ 64
      → n < 2 ^ 63
      → (update_all c hasher_init pieces >>= λ h. hasher_finalize c h n)
        ≡ some (hash_spec c iv 0 (concat pieces) 0 n)
  unfolding hasher_finalize hasher_init with_key cleared
  plain_pieces pieces n hp lt hn =
      update_all-hash_spec c hasher_init pieces 0 n hasher_init-IsFresh hp lt (omega arith) hn
