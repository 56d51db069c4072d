-- ===== src/Hasher.antt =====
-- src/blake4.c: the hasher. Its parts are in the child modules; this one has the shared data and
-- the constants of include/blake4.h and src/blake4.c.
pub mod Node
pub mod Chunk
pub mod Stack
pub mod Tree
pub mod Update
pub mod Finalize
pub mod Init
pub mod Api
pub mod Serialize
use blake.Base.{ℕ, List}

abbrev pub block_len : ℕ
block_len = 128

abbrev pub chunk_len : ℕ
chunk_len = 2048

abbrev pub max_depth : ℕ
max_depth = 54

abbrev pub out_len : ℕ
out_len = 64

abbrev pub key_len : ℕ
key_len = 64

abbrev pub chunk_start : ℕ
chunk_start = 1

abbrev pub chunk_end : ℕ
chunk_end = 2

abbrev pub parent : ℕ
parent = 4

abbrev pub root : ℕ
root = 8

abbrev pub keyed_hash : ℕ
keyed_hash = 16

abbrev pub derive_key_context : ℕ
derive_key_context = 32

abbrev pub derive_key_material : ℕ
derive_key_material = 64

-- `output_t`
pub record Output : Type 0 where
  pub input_cv : List ℕ
  pub block : List ℕ
  pub len : ℕ
  pub counter : ℕ
  pub flags : ℕ

-- `chunk_state_t`
pub record ChunkState : Type 0 where
  pub cv : List ℕ
  pub chunk_counter : ℕ
  pub buf : List ℕ
  pub buf_len : ℕ
  pub blocks_compressed : ℕ
  pub flags : ℕ

-- `blake4_hasher`; `cv_stack` is a list of rows of 64 bytes.
pub record Blake4Hasher : Type 0 where
  pub cv : List ℕ
  pub key_words : List ℕ
  pub chunk_counter : ℕ
  pub buf : List ℕ
  pub buf_len : ℕ
  pub chunk_buf : List ℕ
  pub chunk_buf_len : ℕ
  pub cv_stack : List (List ℕ)
  pub cv_stack_len : ℕ
  pub flags : ℕ
