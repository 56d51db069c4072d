-- ===== src/Stream/Slices.antt =====
-- src/blake4_stream.c: proofs for slices, their extraction and their check. The lengths that a caller
-- passes are those of the lists.
use blake.Base.{ℕ, ◌+◌, ◌*◌, ◌/◌}
use blake.Base.{List, [], ◌∷◌, ◌++◌, take, drop, length, Option, none, some, sub_size}
use blake.Base.{Bool, not, ◌&&◌, ◌||◌, ltb, leb, ◌==◌, if◌then◌else◌}
use blake.Word.{u8, u64, byte_at, load64_le, store64_le}
use blake.Hasher.Serialize.{starts_with, load_rows}
use blake.Hasher.Tree.Split.{concat}
use blake.Stream.{
  num_chunks, tree_depth, hash_chunk, extract_merkle_path, verify_merkle_path, bytes_eq,
}

-- The error codes of include/blake4_stream.h.
pub data Status : Type 0 where
  ok err_invalid err_format err_version err_verify err_range err_buffer : Status

-- "BK4T" and "BK4P"
abbrev pub tree_magic : List ℕ
tree_magic = 66 ∷ 75 ∷ 52 ∷ 84 ∷ []

abbrev pub proof_magic : List ℕ
proof_magic = 66 ∷ 75 ∷ 52 ∷ 80 ∷ []

abbrev pub tree_header_len : ℕ
tree_header_len = 80

abbrev pub proof_header_len : ℕ
proof_header_len = 96

unfoldable pub proof_size : ℕ → ℕ → ℕ → ℕ
proof_size data_len first last =
    if leb last first || ltb data_len last
    then 0
    else proof_header_len + 8 + 1 + tree_depth (num_chunks data_len) * 64

-- The bytes of a proof: the header, the number of the chunk, the depth, and the siblings.
unfoldable pub proof_bytes : List ℕ → ℕ → ℕ → ℕ → ℕ → List (List ℕ) → List ℕ
proof_bytes root_hash data_len first last chunk_index siblings =
    proof_magic
    ++ 2
      ∷ 0
      ∷ 0
      ∷ 0
      ∷ (take 64 root_hash
          ++ (store64_le data_len
              ++ (store64_le first
                  ++ (store64_le last
                      ++ (store64_le chunk_index ++ u8 (length siblings) ∷ concat siblings)))))

-- The slice is one whole chunk: its offsets in the chunk, as 64-bit numbers, are those of the chunk.
unfoldable pub is_whole_chunk : ℕ → ℕ → ℕ → ℕ → Bool
is_whole_chunk first last chunk_index total =
    let chunk_start = u64 (chunk_index * 2048) in
    let full_end = u64 (chunk_start + 2048) in
    let chunk_end = if ltb total full_end then total else full_end in
    (sub_size first chunk_start == 0)
    && (sub_size last chunk_start == sub_size chunk_end chunk_start)

module _ (hash : List ℕ → List ℕ) where
  -- The status, the proof written, and the length left in `proof_len`.
  unfoldable pub extract_slice : Option (List ℕ) → Option (List ℕ) → ℕ → ℕ → ℕ → Status × List ℕ × ℕ
  extract_slice none input first last proof_len = (err_invalid, [], proof_len)
  extract_slice (some tree) none first last proof_len = (err_invalid, [], proof_len)
  extract_slice (some tree) (some input) first last proof_len =
      let size = length input in
      let n = num_chunks size in
      let start_chunk = first / 2048 in
      let required = proof_size size first last in
      let siblings = extract_merkle_path hash input start_chunk n in
      if leb last first || ltb size last
      then (err_range, [], proof_len)
      else if ltb (length tree) tree_header_len || not (starts_with tree tree_magic)
      then (err_format, [], proof_len)
      else if not (load64_le (drop 8 tree) == size)
      then (err_verify, [], proof_len)
      else if ltb proof_len required
      then (err_buffer, [], required)
      else (ok, proof_bytes (drop 16 tree) size first last start_chunk siblings, required)

  unfoldable pub check_chunk : List ℕ → List ℕ → ℕ → List ℕ → ℕ → Status
  check_chunk expected_root slice chunk_index proof depth =
      let siblings = load_rows depth (drop 105 proof) in
      if verify_merkle_path hash (hash_chunk hash slice) chunk_index siblings expected_root
      then ok
      else err_verify

  unfoldable pub verify_slice : Option (List ℕ) → ℕ → ℕ → Option (List ℕ) → Option (List ℕ) → Status
  verify_slice none first last slice proof = err_invalid
  verify_slice (some root) first last none proof = err_invalid
  verify_slice (some root) first last (some slice) none = err_invalid
  verify_slice (some root) first last (some slice) (some proof) =
      let chunk_index = load64_le (drop 96 proof) in
      let depth = byte_at proof 104 in
      let total = load64_le (drop 72 proof) in
      let checked = check_chunk root slice chunk_index proof depth in
      if ltb (length proof) 105
      then err_format
      else if not (starts_with proof proof_magic)
      then err_format
      else if not (byte_at proof 4 == 2)
      then err_version
      else if not (bytes_eq (take 64 (drop 8 proof)) (take 64 root))
      then err_verify
      else if not (load64_le (drop 80 proof) == first) || not (load64_le (drop 88 proof) == last)
      then err_range
      else if not (length slice == sub_size last first)
      then err_verify
      else if ltb (length proof) (105 + depth * 64)
      then err_format
      else if not (chunk_index == first / 2048)
      then err_verify
      else if is_whole_chunk first last chunk_index total
      then checked
      else ok
