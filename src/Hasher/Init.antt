-- ===== src/Hasher/Init.antt =====
-- src/blake4.c: the init functions and blake4_hasher_reset.
pub mod Fresh
use blake.Base.{ℕ, zero, suc, List, [], ◌∷◌, replicate, take, Option, none, some, ◌>>=◌, ◌==◌}
use blake.Base.{if◌then◌else◌}
use blake.Word.{words_from_bytes}
use blake.Compress.{Compressor, iv}
use blake.Hasher.{
  Blake4Hasher, block_len, chunk_len, max_depth, out_len, keyed_hash, derive_key_context,
  derive_key_material,
}
use blake.Hasher.Update.{hasher_update}
use blake.Hasher.Finalize.{hasher_finalize}

-- `memset(self, 0, sizeof(*self))`
unfoldable pub cleared : Blake4Hasher
cleared = record {
  cv = replicate 8 0;
  key_words = replicate 8 0;
  chunk_counter = 0;
  buf = replicate block_len 0;
  buf_len = 0;
  chunk_buf = replicate chunk_len 0;
  chunk_buf_len = 0;
  cv_stack = replicate max_depth (replicate 64 0);
  cv_stack_len = 0;
  flags = 0;
}

-- What every init function leaves: all cleared but the key and the flags.
unfoldable pub with_key : List ℕ → ℕ → Blake4Hasher
with_key key_words flags = record cleared { cv = key_words; key_words = key_words; flags = flags }

unfoldable pub hasher_init : Blake4Hasher
hasher_init = record (with_key iv 0) {
  chunk_counter = 0;
  buf_len = 0;
  chunk_buf_len = 0;
  cv_stack_len = 0;
}

unfoldable pub hasher_init_keyed : List ℕ → Blake4Hasher
hasher_init_keyed key = record (with_key (words_from_bytes key) keyed_hash) {
  chunk_counter = 0;
  buf_len = 0;
  chunk_buf_len = 0;
  cv_stack_len = 0;
}

-- A C string up to its terminator, which is what `strlen` measures.
unfoldable pub c_string : List ℕ → List ℕ
c_string [] = []
c_string (b ∷ bytes) = let rest = c_string bytes in if b == 0 then [] else b ∷ rest

unfoldable pub hasher_init_derive_key_raw : Compressor → List ℕ → Option Blake4Hasher
hasher_init_derive_key_raw c context = do
  let ctx_hasher = with_key iv derive_key_context
  absorbed ← hasher_update c ctx_hasher context
  context_key ← hasher_finalize c absorbed 64
  some (with_key (words_from_bytes context_key) derive_key_material)

unfoldable pub hasher_init_derive_key : Compressor → List ℕ → Option Blake4Hasher
hasher_init_derive_key c context = hasher_init_derive_key_raw c (c_string context)

unfoldable pub hasher_reset : Blake4Hasher → Blake4Hasher
hasher_reset self = with_key self.key_words self.flags
