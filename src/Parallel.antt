-- ===== src/Parallel.antt =====
-- src/blake4_parallel.c: hashing with several threads. Here the units of work are run one after
-- another; Handover has the threads, and what they do together, and Lifetime their creation.
pub mod Faults
pub mod Constant
pub mod Handover
pub mod Lifetime
use blake.Base.{ℕ, zero, suc, ◌+◌, ◌-◌, ◌*◌, ◌/◌, List, [], ◌∷◌, ◌++◌, take, drop, length}
use blake.Base.{
  Option, none, some, ◌>>=◌, Bool, true, false, not, ◌&&◌, ◌||◌, ltb, leb, ◌==◌, if◌then◌else◌,
}
use blake.Word.{u64, words_to_bytes}
use blake.Compress.{Compressor}
use blake.Hasher.{Blake4Hasher, chunk_len}
use blake.Hasher.Update.{hasher_update, update_all}
use blake.Hasher.Finalize.{hasher_finalize}
use blake.Hasher.Init.{hasher_init, hasher_init_keyed}
use blake.Hasher.Api.{blake4_hash, blake4_hash_xof}

abbrev pub parallel_threshold : ℕ
parallel_threshold = 1024 * 1024

-- `blake4_parallel_hasher`, without its threads; the key is there in keyed mode.
pub record ParallelHasher : Type 0 where
  pub serial : Blake4Hasher
  pub num_threads : ℕ
  pub key : Option (List ℕ)
  pub cv_stack : List (List ℕ)
  pub cv_stack_cap : ℕ
  pub total_chunks : ℕ
  pub initialized : Bool

unfoldable pub init_for : Option (List ℕ) → Blake4Hasher
init_for none = hasher_init
init_for (some key) = hasher_init_keyed key

unfoldable pub parallel_init : ℕ → Option (List ℕ) → ParallelHasher
parallel_init num_threads key = record {
  serial = init_for key;
  num_threads = num_threads;
  key = key;
  cv_stack = [];
  cv_stack_cap = 64;
  total_chunks = 0;
  initialized = true;
}

-- The pieces of the input with the number of their first chunk. `threads` workers are left.
unfoldable pub work_units : ℕ → ℕ → ℕ → ℕ → List ℕ → List (List ℕ × ℕ)
work_units zero bytes_per_thread total offset input = []
work_units (suc threads) bytes_per_thread total offset [] = []
work_units (suc threads) bytes_per_thread total offset (x ∷ input) =
    let n = if threads == 0 then length (x ∷ input) else bytes_per_thread in
    let piece = take n (x ∷ input) in
    let more =
      work_units threads bytes_per_thread total (offset + length piece) (drop n (x ∷ input)) in
    (piece, u64 (total + offset / chunk_len)) ∷ more

-- The number of threads that blake4_parallel_hasher_new starts, on a machine of `cpu_count`.
unfoldable pub thread_count : ℕ → ℕ → ℕ
thread_count cpu_count num_threads =
    let asked = if num_threads == 0 then cpu_count else num_threads in
    let capped = if ltb 64 asked then 64 else asked in if ltb capped 1 then 1 else capped

module _ (c : Compressor) where
  -- The chaining value field as it lies in memory on a little-endian machine, and the number of chunks.
  unfoldable pub process_chunks : Option (List ℕ) → List ℕ → ℕ → Option (List ℕ × ℕ)
  process_chunks key input chunk_start = do
    h ← hasher_update c (record (init_for key) { chunk_counter = chunk_start }) input
    let chunks = u64 (length input + chunk_len - 1) / chunk_len
    some (words_to_bytes h.cv, if chunks == 0 then 1 else chunks)

  unfoldable pub run_units : Option (List ℕ) → List (List ℕ × ℕ) → Option (List (List ℕ × ℕ))
  run_units key [] = some []
  run_units key ((piece, chunk_start) ∷ units) = do
    done ← process_chunks key piece chunk_start
    rest ← run_units key units
    some (done ∷ rest)

  -- The loop that collects the results. The room for them is doubled when it is used up; `grows`
  -- says whether there is memory for that, and without it the results that are left are dropped.
  unfoldable pub collect : Bool → ParallelHasher → List (List ℕ × ℕ) → ParallelHasher
  collect grows self [] = self
  collect grows self (r ∷ results) =
      let full = leb self.cv_stack_cap (length self.cv_stack) in
      let more =
        collect grows
          (record self {
            cv_stack = self.cv_stack ++ r.0 ∷ [];
            cv_stack_cap = if full then self.cv_stack_cap * 2 else self.cv_stack_cap;
            total_chunks = u64 (self.total_chunks + r.1);
          })
          results in
      if full && not grows then self else more

  -- `allocated` says that there is memory for the units of work, and `grows` that there is some for
  -- their results. `none` is an access out of bounds,
  -- in the serial hasher or in a worker.
  unfoldable pub parallel_update : Bool → Bool → ParallelHasher → List ℕ → Option ParallelHasher
  parallel_update allocated grows self [] = some self
  parallel_update allocated grows self (x ∷ input) =
      let size = length (x ∷ input) in
      let per_thread = size / chunk_len / self.num_threads in
      let chunks_per_thread = if ltb per_thread 1 then 1 else per_thread in
      let units =
        work_units self.num_threads (chunks_per_thread * chunk_len) self.total_chunks 0
          (x ∷ input) in
      let serially : Option ParallelHasher =
        hasher_update c self.serial (x ∷ input) >>= λ h. some (record self { serial = h }) in
      let parallel : Option ParallelHasher =
        run_units self.key units >>= λ results. some (collect grows self results) in
      if not self.initialized
      then some self
      else if ltb size parallel_threshold || (leb self.num_threads 1 || not allocated)
      then serially
      else parallel

  -- A parent of two chaining values, as a hash of their bytes.
  unfoldable pub merge_two : Option (List ℕ) → List ℕ → List ℕ → Option (List ℕ)
  merge_two key left right = do
    h ← update_all c (init_for key) (left ∷ right ∷ [])
    hasher_finalize c h 64

  unfoldable pub merge_level : Option (List ℕ) → List (List ℕ) → Option (List (List ℕ))
  merge_level key [] = some []
  merge_level key (x ∷ []) = some (x ∷ [])
  merge_level key (x ∷ y ∷ cvs) = do
    cv ← merge_two key x y
    rest ← merge_level key cvs
    some (cv ∷ rest)

  -- `while (cv_stack_len > 1)`, with a bound on its rounds.
  unfoldable pub merge_cvs : ℕ → Option (List ℕ) → List (List ℕ) → Option (List (List ℕ))
  merge_cvs zero key cvs = if leb (length cvs) 1 then some cvs else none
  merge_cvs (suc fuel) key cvs =
      let more = merge_level key cvs >>= λ next. merge_cvs fuel key next in
      if leb (length cvs) 1 then some cvs else more

  -- The bytes of `out`.
  unfoldable pub last_output : Option (List ℕ) → List (List ℕ) → ℕ → Option (List ℕ)
  last_output key [] out_len = some []
  last_output key (cv ∷ cvs) out_len =
      let long : Option (List ℕ) =
        hasher_update c (init_for key) (take 64 cv) >>= λ h. hasher_finalize c h out_len in
      if ltb 64 out_len then long else some (take out_len cv)

  -- The bytes of `out`, and the hasher with the chaining values merged.
  unfoldable pub parallel_finalize : ParallelHasher → ℕ → Option (List ℕ × ParallelHasher)
  parallel_finalize self out_len =
      let merged : Option (List ℕ × ParallelHasher) =
        merge_cvs (length self.cv_stack) self.key self.cv_stack >>= λ cvs.
        last_output self.key cvs out_len >>= λ out. some (out, record self { cv_stack = cvs }) in
      let serially : Option (List ℕ × ParallelHasher) =
        hasher_finalize c self.serial out_len >>= λ out. some (out, self) in
      if not self.initialized || out_len == 0
      then some ([], self)
      else if length self.cv_stack == 0
      then serially
      else merged

  -- With a new hasher, where there is one: `made` is false when blake4_parallel_hasher_new gives
  -- NULL. The number of processors does not matter here, since `num_threads` is not 0.
  unfoldable pub hash_in_parallel : Bool → Bool → List ℕ → ℕ → ℕ → Option (List ℕ)
  hash_in_parallel allocated grows input out_len num_threads = do
    let h = parallel_init (thread_count 1 num_threads) none
    h' ← parallel_update allocated grows h input
    finalized ← parallel_finalize h' out_len
    some finalized.0

  unfoldable pub parallel_hash_xof : Bool → Bool → Bool → List ℕ → ℕ → ℕ → Option (List ℕ)
  parallel_hash_xof made allocated grows input out_len num_threads =
      let parallel = hash_in_parallel allocated grows input out_len num_threads in
      let serially = blake4_hash_xof c input out_len in
      if ltb (length input) parallel_threshold || (leb num_threads 1 || not made)
      then serially
      else parallel

  unfoldable pub parallel_hash : Bool → Bool → Bool → List ℕ → ℕ → Option (List ℕ)
  parallel_hash made allocated grows input num_threads =
      let parallel = hash_in_parallel allocated grows input 64 num_threads in
      let serially = blake4_hash c input in
      if ltb (length input) parallel_threshold || (leb num_threads 1 || not made)
      then serially
      else parallel

unfoldable pub parallel_reset : ParallelHasher → ParallelHasher
parallel_reset self = record self { serial = init_for self.key; cv_stack = []; total_chunks = 0 }
