-- ===== src/Hasher/Init/Fresh.antt =====
-- A fresh hasher has absorbed nothing, and every init function leaves a fresh hasher.
use blake.Base.{ℕ, ◌≡◌, refl, arith}
use blake.Base.{List, [], length}
use blake.Compress.{Compressor}
use blake.Merkle.Forest.{start}
use blake.Hasher.{Blake4Hasher}
use blake.Hasher.Tree.Words.{IsCv, IsFlags}
use blake.Hasher.Update.Step.{Absorbs}
use blake.Hasher.Init.{cleared, with_key}

-- Arrays of the declared sizes, and nothing absorbed.
pub record IsFresh (h : Blake4Hasher) : Type 0 where
  pub key : IsCv h.key_words
  pub flags_fit : IsFlags h.flags
  pub no_chunks : h.chunk_counter ≡ 0
  pub buf_size : length h.chunk_buf ≡ 2048
  pub buf_empty : h.chunk_buf_len ≡ 0
  pub rows : length h.cv_stack ≡ 54
  pub stack_empty : h.cv_stack_len ≡ 0

pub with_key-IsFresh :
    (key : List ℕ) (flags : ℕ) → IsCv key → IsFlags flags → IsFresh (with_key key flags)
unfolding with_key cleared
with_key-IsFresh key flags hk hf = record {
  key = hk;
  flags_fit = hf;
  no_chunks = refl;
  buf_size = refl;
  buf_empty = refl;
  rows = refl;
  stack_empty = refl;
}

module _ (c : Compressor) where
  pub IsFresh-Absorbs : (h : Blake4Hasher) → IsFresh h → Absorbs c h [] h
  IsFresh-Absorbs h f = record {
    chunks = [];
    pending = [];
    parts = record {
      chunk_buf = h.chunk_buf;
      rows = h.cv_stack;
      row_count = h.cv_stack_len;
      trees = [];
      state = λ i. record h { chunk_counter = f.no_chunks i; chunk_buf_len = f.buf_empty i };
      buf_size = f.buf_size;
      buffered = refl;
      forest = start;
      stack = record { rows = f.rows; held = f.stack_empty; words = tt };
      full = tt;
    };
    joined = refl;
    small = omega arith;
    live = λ p. p;
  }
