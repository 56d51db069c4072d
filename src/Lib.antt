-- ===== src/Lib.antt =====
-- BLAKE4: a tree hash in C with incremental, keyed, key-derivation and extended-output modes.
--
-- The program. A message is cut into chunks of 2048 bytes, a chunk into blocks of 128. A chunk is a
-- chain of compressions (src/blake4.c, chunk_state_*); chunks are the leaves of a binary tree whose
-- inner nodes compress the chaining values of their children (parent_cv). The incremental hasher
-- (blake4_hasher) keeps one buffered chunk, a counter of chunks, and a stack of the chaining values
-- of finished subtrees; hasher_push_cv merges while the counter is even, and finalizing merges what
-- is left from right to left and reads the root output. The compression function is chosen at run
-- time (src/blake4_dispatch.c). src/blake4_stream.c builds a second tree, of hashes of chunks, for
-- proofs about parts of a file, and src/blake4_parallel.c gives pieces of an input to threads. A
-- hasher can be saved and loaded (blake4_hasher_serialize and
-- blake4_hasher_deserialize).
--
-- The files.
--   Base       lists, tests and copies on the native numbers; `none` is an access out of bounds.
--   Bits       laws of `&`, `|` and `^` by the lowest binary digit.
--   Word       src/blake4.c: casts, load64_le, store64_le, words_from_bytes, words_to_bytes.
--   Compress   src/blake4_dispatch.c: blake4_compress_portable; the record Compressor is what the
--              hasher needs of the function behind g_compress_fn.
--   Merkle     the binary tree by levels and by a counter with a stack, without the code's data.
--   Hasher     src/blake4.c: the data. Its children are Node (output_*, parent_*), Chunk
--              (chunk_state_*), Stack (hasher_push_cv), Update, Finalize, Init, Api (the one-call
--              functions and those for signatures) and Serialize; Tree is the specification.
--   Dispatch   src/blake4_dispatch.c: detection, registry, selection and forcing.
--   Stream     src/blake4_stream.c: the tree over chunk hashes and its rows (Levels), Merkle paths
--              (Paths, Binding, Sizes), slices and the whole way of a proof (Slices, Accepted), the
--              encoder and the decoder.
--   Parallel   src/blake4_parallel.c: the division of the work, the workers, and the merge of what
--              they return (Faults, Constant), what the whole function gives (Constant.Whole), the
--              hand-over of the units to the threads as a step relation (Handover), and what creating
--              and freeing a hasher takes and gives back (Lifetime).
--   ConstTime  src/blake4_ct.c: comparison, equality and selection without branches.
--   Simd       the vector back ends: src/blake4_avx2.c (Avx2), src/blake4_avx512.c (Avx512),
--              src/blake4_neon.c (Neon), src/blake4_simd.c (Scalar), their intrinsics (Vectors) and
--              their registration with the dispatcher (Registered) with what is then called
--              (Registered.Chosen). The tables IV and SIGMA of each file are those of src/blake4_dispatch.c.
--   Tests      runs at concrete inputs.
--
-- How the code is read. Words are numbers with their wrap-around written out, arrays are lists of
-- their declared length, a function that writes through pointers returns what it writes, and a
-- pointer that may be NULL is an Option. memcpy and indexing return `none` outside an array; the
-- theorems show that this does not happen. Loops are recursions on fuel. The loops over input take
-- its length as fuel, since every round consumes a byte. The merge loop of hasher_push_cv takes 64,
-- since a nonzero 64-bit counter is even at most 63 times. The output loop takes the number of bytes
-- asked for; the loops over the levels of a tree take the number of chunks, the one that counts
-- binary digits 64, and the one that doubles a capacity 63. The stack has 54 rows, enough for the 2^53
-- chunks of an input of fewer than 2^64 bytes.
--
-- What is a parameter. Compressor stands for the selected compression function: all that is assumed
-- is that it makes sixteen words from the right arguments, and `portable` shows that the function of
-- src/blake4_dispatch.c does. The answers of CPUID and XGETBV, and the functions that a build
-- registers, are parameters of Dispatch. The intrinsics of <immintrin.h> and <arm_neon.h> are the
-- records of Simd.Vectors, with their documented meaning on lanes as laws, and Tests.Vectors has
-- units that meet them. The assembly functions are parameters of Simd.Registered, of which nothing is
-- assumed. Stream takes the hash as a function, with what is used of it named for the hashes of one
-- tree (FullTree, NonzeroTree); Tests.Trees shows both for blake4_hash and a file of two chunks.
--
-- What is not modelled: the assembly back ends, the atomics of the dispatcher (one thread is
-- assumed), the memory model (a section under a mutex is one step), the failure of an allocation but
-- in Parallel, running time, and the tools, fuzz targets and tests.
pub mod Base
pub mod Bits
pub mod Word
pub mod Compress
pub mod Merkle
pub mod Hasher
pub mod Dispatch
pub mod Stream
pub mod Parallel
pub mod ConstTime
pub mod Simd
pub mod Tests
