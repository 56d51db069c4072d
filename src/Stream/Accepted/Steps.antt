-- ===== src/Stream/Accepted/Steps.antt =====
-- The steps of a proof through blake4_stream_extract_slice and blake4_stream_verify_slice: what is
-- written and read back, and when the chunk is checked.
use blake.Base.{lt→not_leb}
use blake.Base.{ℕ, ◌+◌, ◌-◌, ◌*◌, ◌/◌, ◌^◌, ◌<◌, ◌≤◌, ◌≡◌, refl, sym, ap, ap₂, ◌∙◌, arith}
use blake.Base.{List, [], take, drop, length, some, sub_size, append-nil}
use blake.Base.{true, ltb, if◌then◌else◌, if-cases}
use blake.Base.{eq→==, le→not_ltb}
use blake.Word.{load64_le}
use blake.Hasher.Serialize.{load_rows}
use blake.Hasher.Serialize.RoundTrip.{AllRows, load_rows-concat}
use blake.Hasher.Tree.Split.{concat}
use blake.Stream.{num_chunks, chunk_at, extract_merkle_path, bytes_eq}
use blake.Stream.Equal.{bytes_eq_refl}
use blake.Stream.Slices.{
  Status, ok, proof_size, proof_bytes, is_whole_chunk, extract_slice, check_chunk, verify_slice,
}
use blake.Stream.Encoder.{}
use blake.Stream.Accepted.Fields.{Reads, ReadsTree}

pub num_chunks_lt : (n : ℕ) → n < 2 ^ 63 → num_chunks n < 2 ^ 63
unfolding num_chunks
num_chunks_lt n h = ground arith

pub chunk_lt : (first n : ℕ) → n < 2 ^ 63 → first < n → first / 2048 < num_chunks n
unfolding num_chunks
chunk_lt first n h lt = ground arith

-- A whole chunk as the code tests for it, in numbers that do not wrap.
whole_chunk :
    (first last size : ℕ)
    → size < 2 ^ 63
    → first < last
    → last ≤ size
    → is_whole_chunk first last (first / 2048) size ≡ true
    → (first ≡ first / 2048 * 2048)
      × (last - first
          ≡ (if ltb size (first / 2048 * 2048 + 2048) then size - first / 2048 * 2048 else 2048))
unfolding is_whole_chunk
whole_chunk first last size small lt le e = ground (arith, e)

module _ (hash : List ℕ → List ℕ) where
  -- A proof whose fields are those of the slice is accepted if its path is, where it is checked.
  pub verify_slice-Reads :
      (root slice r rest proof : List ℕ) (n first last d : ℕ) (h : length r ≡ 64)
      → Reads r rest n first last (first / 2048) d h proof
      → r ≡ take 64 root
      → first < last
      → last < 2 ^ 64
      → length slice ≡ last - first
      → d * 64 ≤ length rest
      → (is_whole_chunk first last (first / 2048) n ≡ true
          → check_chunk hash root slice (first / 2048) proof d ≡ ok)
      → verify_slice hash (some root) first last (some slice) (some proof) ≡ ok
  unfolding verify_slice
  verify_slice-Reads root slice r rest proof n first last d h f same lt fits len room checked =
      let same_root : bytes_eq (take 64 (drop 8 proof)) (take 64 root) ≡ true =
        ap₂ bytes_eq (f.root_hash ∙ same) refl ∙ bytes_eq_refl (take 64 root) in
      let distance : length slice ≡ sub_size last first = omega (arith, len) in
      rw
        (
          f.index,
          f.depth,
          f.total,
          f.from,
          f.to,
          f.magic,
          f.version,
          same_root,
          le→not_ltb (length proof) 105 (omega (arith, f.size)),
          le→not_ltb (length proof) (105 + d * 64) (omega (arith, f.size)),
          eq→== first first refl,
          eq→== last last refl,
          eq→== (length slice) (sub_size last first) distance,
          eq→== (first / 2048) (first / 2048) refl,
        )
        (if-cases (λ (s : Status). s ≡ ok) (is_whole_chunk first last (first / 2048) n) _ ok checked
          (λ _. refl))

  -- The slice that is the whole of its chunk.
  pub slice-chunk_at :
      (input : List ℕ) (first last : ℕ)
      → length input < 2 ^ 63
      → first < last
      → last ≤ length input
      → is_whole_chunk first last (first / 2048) (length input) ≡ true
      → take (last - first) (drop first input) ≡ chunk_at hash input (first / 2048)
  unfolding chunk_at
  slice-chunk_at input first last small lt le e =
      let (start, size) = whole_chunk first last (length input) small lt le e in
      ap₂ (λ m k. take m (drop k input)) size start

  pub load_rows_all :
      (rows : List (List ℕ)) → AllRows rows → load_rows (length rows) (concat rows) ≡ rows
  load_rows_all rows h =
      ap (load_rows (length rows)) (sym (append-nil (concat rows))) ∙ load_rows-concat rows [] h

  pub extract_slice-ok :
      (input tree r : List ℕ) (first last proof_len : ℕ)
      → ReadsTree (length input) r tree
      → first < last
      → last ≤ length input
      → proof_size (length input) first last ≤ proof_len
      → extract_slice hash (some tree) (some input) first last proof_len ≡ (
        ok,
        proof_bytes
            (drop 16 tree)
            (length input)
            first
            last
            (first / 2048)
            (extract_merkle_path hash input (first / 2048) (num_chunks (length input))),
        proof_size (length input) first last,
      )
  unfolding extract_slice
  extract_slice-ok input tree r first last proof_len t lt le room = rw (
    lt→not_leb last first lt,
    le→not_ltb (length input) last le,
    le→not_ltb (length tree) 80 t.size,
    t.magic,
    eq→== (load64_le (drop 8 tree)) (length input) t.total,
    le→not_ltb proof_len (proof_size (length input) first last) room,
  )
