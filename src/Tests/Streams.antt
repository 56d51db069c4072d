-- ===== src/Tests/Streams.antt =====
-- Concrete inputs at which the theorems on src/blake4_stream.c apply.
use blake.Base.{ℕ, ◌≤◌, ◌≡◌, ◌⊎◌, refl, ap, arith, List, [], ◌∷◌, length}
use blake.Base.{replicate, length-replicate, some, true, false, take, drop}
use blake.Stream.{
  num_chunks, tree_depth, hash_chunk, chunk_at, extract_merkle_path, verify_merkle_path, build_tree,
  path_root, path_step, hash_parent, depth_loop,
}
use blake.Stream.Sizes.{length-extract_merkle_path}
use blake.Stream.Paths.{verify_merkle_path-extract_merkle_path}
use blake.Stream.Binding.{Collision, verify_merkle_path-binds}
use blake.Stream.Slices.{ok, proof_size, extract_slice, verify_slice, is_whole_chunk}
use blake.Stream.Accepted.{verify_slice-extract_slice, verify_slice-forged}
use blake.Tests.Trees.{real_hash, two_chunks, two_chunks-FullTree, two_chunks-NonzeroTree}
use blake.Stream.Encoder.{Encoder, stream_encode, encoder_update, encoder_update-appends}
use blake.Stream.Decoder.{decoder_update, new_decoder, retarget, outputs, decoder_update-retarget}

-- A hash of 64 bytes.
abbrev toy : List ℕ → List ℕ
toy x = 7 ∷ length x ∷ replicate 62 0

-- Three chunks, the last without a sibling.
abbrev file : List ℕ
file = replicate 5000 1

file-size : length file ≡ 5000
file-size = length-replicate {A = ℕ} 5000 1

file-chunks : num_chunks (length file) ≡ 3
unfolding num_chunks
file-chunks = ap num_chunks file-size

two_chunks-chunks : num_chunks (length two_chunks) ≡ 2
unfolding num_chunks
two_chunks-chunks = refl

-- The hash is the program's own.
verify_merkle_path-extract_merkle_path_example :
    verify_merkle_path real_hash
      (hash_chunk real_hash (chunk_at real_hash two_chunks 1))
      1
      (extract_merkle_path real_hash two_chunks 1 (num_chunks (length two_chunks)))
      (build_tree real_hash two_chunks).1
    ≡ true
verify_merkle_path-extract_merkle_path_example =
    verify_merkle_path-extract_merkle_path real_hash two_chunks 1 two_chunks-NonzeroTree
      (omega arith) (omega (arith, two_chunks-chunks))

length-extract_merkle_path_example : length (extract_merkle_path toy file 1 3) ≡ tree_depth 3
length-extract_merkle_path_example = length-extract_merkle_path toy file 1 3 (omega arith)

abbrev some_row : List ℕ
some_row = 9 ∷ replicate 63 0

first_accepted : verify_merkle_path toy some_row 0 (some_row ∷ []) (toy (replicate 128 0)) ≡ true
unfolding verify_merkle_path path_root path_step hash_parent
first_accepted = refl

-- Another leaf, with which the hash of the file collides.
abbrev other_row : List ℕ
other_row = 8 ∷ replicate 63 0

other_accepted : verify_merkle_path toy other_row 0 (some_row ∷ []) (toy (replicate 128 0)) ≡ true
unfolding verify_merkle_path path_root path_step hash_parent
other_accepted = refl

verify_merkle_path-binds_example : (some_row ≡ other_row) ⊎ Collision toy
verify_merkle_path-binds_example =
    verify_merkle_path-binds toy (λ x. refl) 0 (some_row ∷ []) (toy (replicate 128 0)) some_row
      other_row refl refl first_accepted other_accepted

abbrev small_buffer : Encoder
small_buffer = record { buffered = 4 ∷ 5 ∷ []; data_cap = 2 }

encoder_update-appends_example :
    (enc : Encoder) × (encoder_update small_buffer (6 ∷ 7 ∷ 8 ∷ []) ≡ some enc)
    × (enc.buffered ≡ 4 ∷ 5 ∷ 6 ∷ 7 ∷ 8 ∷ [])
    × (length enc.buffered ≤ enc.data_cap)
encoder_update-appends_example =
    encoder_update-appends small_buffer (6 ∷ 7 ∷ 8 ∷ []) (omega arith) (omega arith) (omega arith)

decoder_update-retarget_example :
    outputs some_row file
      (decoder_update (retarget some_row file (new_decoder [] [] 3)) (1 ∷ 2 ∷ 3 ∷ []) 10)
    ≡ outputs some_row file (decoder_update (new_decoder [] [] 3) (1 ∷ 2 ∷ 3 ∷ []) 10)
decoder_update-retarget_example =
    decoder_update-retarget some_row file (new_decoder [] [] 3) (1 ∷ 2 ∷ 3 ∷ []) 10

room_for_chunk : proof_size (length two_chunks) 0 2048 ≡ 169
unfolding proof_size tree_depth depth_loop num_chunks
room_for_chunk = refl

verify_slice-extract_slice_example :
    (tree : List ℕ) × (root : List ℕ) × (proof : List ℕ) × (stream_encode real_hash two_chunks
      ≡ some (tree, root))
    × (extract_slice real_hash (some tree) (some two_chunks) 0 2048 300
        ≡ (ok, proof, proof_size (length two_chunks) 0 2048))
    × (verify_slice real_hash (some root) 0 2048 (some (take 2048 (drop 0 two_chunks))) (some proof)
        ≡ ok)
verify_slice-extract_slice_example =
    verify_slice-extract_slice real_hash two_chunks 0 2048 300 two_chunks-FullTree
      two_chunks-NonzeroTree (omega arith) (omega arith) (omega arith)
      (omega (arith, room_for_chunk))

room_for_part : proof_size (length two_chunks) 2 5 ≡ 169
unfolding proof_size tree_depth depth_loop num_chunks
room_for_part = refl

no_chunk : is_whole_chunk 2 5 0 (length two_chunks) ≡ false
unfolding is_whole_chunk
no_chunk = refl

-- Every byte of the file is 7.
verify_slice-forged_example :
    (tree : List ℕ) × (root : List ℕ) × (proof : List ℕ) × (stream_encode real_hash two_chunks
      ≡ some (tree, root))
    × (extract_slice real_hash (some tree) (some two_chunks) 2 5 300
        ≡ (ok, proof, proof_size (length two_chunks) 2 5))
    × (verify_slice real_hash (some root) 2 5 (some (1 ∷ 2 ∷ 3 ∷ [])) (some proof) ≡ ok)
verify_slice-forged_example =
    verify_slice-forged real_hash two_chunks (1 ∷ 2 ∷ 3 ∷ []) 2 5 300 two_chunks-FullTree
      (omega arith) (omega arith) (omega arith) no_chunk (omega (arith, room_for_part)) refl
