-- ===== src/Tests/Workers.antt =====
-- Concrete inputs at which the theorems on src/blake4_parallel.c apply.
use blake.Base.{ℕ, ◌≡◌, ◌⊎◌, sym, ap, ◌∙◌, arith, List, [], ◌∷◌, length, true}
use blake.Base.{replicate, length-replicate, none, some, ◌>>=◌}
use blake.Word.{words_to_bytes}
use blake.Compress.Bounds.{portable}
use blake.Hasher.{Blake4Hasher}
use blake.Hasher.Update.Step.{hasher_update-Absorbs}
use blake.Hasher.Init.{hasher_init, with_key, cleared}
use blake.Hasher.Init.Fresh.{IsFresh-Absorbs}
use blake.Hasher.Api.Correct.{hasher_init-IsFresh}
use blake.Parallel.{init_for, process_chunks, parallel_hash_xof}
use blake.Parallel.Faults.{process_chunks-odd}
use blake.Parallel.Constant.{process_chunks-cv}
use blake.Parallel.Constant.Whole.{parallel_hash_xof_same}

-- Two chunks, and the number that the second of three workers has for 513 chunks.
process_chunks-odd_example : process_chunks portable none (replicate 4096 1) 171 ≡ none
process_chunks-odd_example =
    process_chunks-odd portable none (replicate 4096 1) 171 (omega arith)
      (omega (arith, length-replicate {A = ℕ} 4096 1))
      (omega (arith, length-replicate {A = ℕ} 4096 1))

small_piece :
    (h : Blake4Hasher) × (process_chunks portable none (97 ∷ []) 0 ≡ some (words_to_bytes h.cv, 1))
unfolding process_chunks init_for hasher_init with_key cleared
small_piece =
    let (h, returned, absorbed) =
      hasher_update-Absorbs portable hasher_init hasher_init-IsFresh.key
        hasher_init-IsFresh.flags_fit [] (97 ∷ []) hasher_init
        (IsFresh-Absorbs portable hasher_init hasher_init-IsFresh) tt (omega arith, tt)
        (omega arith) in
    (h, ap (λ o. o >>= λ h'. some (words_to_bytes h'.cv, 1)) returned)

process_chunks-cv_example : words_to_bytes small_piece.0.cv ≡ words_to_bytes (init_for none).cv
process_chunks-cv_example =
    process_chunks-cv portable none (97 ∷ []) 0 (words_to_bytes small_piece.0.cv, 1) small_piece.1

ones : List ℕ
ones = replicate 1048576 1

twos : List ℕ
twos = replicate 1048576 2

ones-size : length ones ≡ 1048576
unfolding ones
ones-size = length-replicate {A = ℕ} 1048576 1

twos-size : length twos ≡ 1048576
unfolding twos
twos-size = length-replicate {A = ℕ} 1048576 2

parallel_hash_xof_same_example :
    (parallel_hash_xof portable true true true ones 64 4 ≡ none)
    ⊎ ((parallel_hash_xof portable true true true twos 64 4 ≡ none)
        ⊎ (parallel_hash_xof portable true true true ones 64 4
            ≡ parallel_hash_xof portable true true true twos 64 4))
parallel_hash_xof_same_example =
    parallel_hash_xof_same portable true ones twos 64 4 (omega (arith, ones-size))
      (ones-size ∙ sym twos-size) (omega arith)
