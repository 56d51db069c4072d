-- ===== src/Parallel/Lifetime.antt =====
-- src/blake4_parallel.c: blake4_parallel_hasher_new and blake4_parallel_hasher_free, as what they
-- take from the system and give back: memory, mutexes, condition variables and threads. `none` is
-- the use or the return of something that is not held, or a join that waits for ever.
pub mod Balance
use blake.Base.{ℕ, zero, suc, ◌+◌, Option, none, some, ◌>>=◌}
use blake.Base.{Bool, true, false, not, ◌&&◌, ◌||◌, ◌==◌, if◌then◌else◌}
use blake.Parallel.{thread_count}

-- What is held, and the flag `shutdown` of each worker.
pub record Held : Type 0 where
  pub self_memory : Bool
  pub workers_memory : Bool
  pub stack_memory : Bool
  pub mutexes : ℕ → Bool
  pub work_avail : ℕ → Bool
  pub work_done : ℕ → Bool
  pub threads : ℕ → Bool
  pub shutdown : ℕ → Bool

abbrev pub nowhere : ℕ → Bool
nowhere j = false

abbrev pub nothing : Held
nothing = record {
  self_memory = false;
  workers_memory = false;
  stack_memory = false;
  mutexes = nowhere;
  work_avail = nowhere;
  work_done = nowhere;
  threads = nowhere;
  shutdown = nowhere;
}

-- Which allocations succeed, and which threads start.
pub record Supply : Type 0 where
  pub cpu_count : ℕ
  pub gives_self : Bool
  pub gives_workers : Bool
  pub gives_stack : Bool
  pub starts : ℕ → Bool

abbrev pub acquire : ℕ → (ℕ → Bool) → ℕ → Bool
acquire i held j = (j == i) || held j

abbrev pub without_one : ℕ → (ℕ → Bool) → ℕ → Bool
without_one i held j = not (j == i) && held j

abbrev pub give_back : ℕ → (ℕ → Bool) → Option (ℕ → Bool)
give_back i held = if held i then some (without_one i held) else none

abbrev pub free_memory : Bool → Option Bool
free_memory true = some false
free_memory false = none

-- A worker with its mutex and its condition variables, before its thread.
unfoldable pub init_worker : ℕ → Held → Held
init_worker i h = record h {
  mutexes = acquire i h.mutexes;
  work_avail = acquire i h.work_avail;
  work_done = acquire i h.work_done;
  shutdown = without_one i h.shutdown;
}

-- `wj->shutdown = 1;` and the signal, under the mutex.
unfoldable pub ask_shutdown : ℕ → Held → Option Held
ask_shutdown i h =
    if h.workers_memory && (h.mutexes i && h.work_avail i)
    then some (record h { shutdown = acquire i h.shutdown })
    else none

-- The join, which ends when the thread has been asked to, and the destruction of the mutex and of
-- the condition variables.
unfoldable pub join_worker : ℕ → Held → Option Held
join_worker i h = do
  threads ← if h.workers_memory && h.shutdown i then give_back i h.threads else none
  mutexes ← give_back i h.mutexes
  work_avail ← give_back i h.work_avail
  work_done ← give_back i h.work_done
  some (record h {
    threads = threads;
    mutexes = mutexes;
    work_avail = work_avail;
    work_done = work_done;
  })

-- Workers `i`, `i + 1`, ..., asked and joined one after another.
unfoldable pub stop_each : ℕ → ℕ → Held → Option Held
stop_each zero i h = some h
stop_each (suc left) i h = do
  asked ← ask_shutdown i h
  joined ← join_worker i asked
  stop_each left (i + 1) joined

unfoldable pub ask_all : ℕ → ℕ → Held → Option Held
ask_all zero i h = some h
ask_all (suc left) i h = do asked ← ask_shutdown i h; ask_all left (i + 1) asked

unfoldable pub join_all : ℕ → ℕ → Held → Option Held
join_all zero i h = some h
join_all (suc left) i h = do joined ← join_worker i h; join_all left (i + 1) joined

-- The three calls of free.
unfoldable pub free_all : Held → Option Held
free_all h = do
  stack ← free_memory h.stack_memory
  workers ← free_memory h.workers_memory
  own ← free_memory h.self_memory
  some (record h { stack_memory = stack; workers_memory = workers; self_memory = own })

-- The loop over the workers; the flag says whether the caller gets a hasher or NULL.
unfoldable pub start_workers : Supply → ℕ → ℕ → Held → Option (Bool × Held)
start_workers m zero i h = some (true, h)
start_workers m (suc left) i h =
    let ready = init_worker i h in
    let failed : Option (Bool × Held) =
      stop_each i 0 ready >>= λ stopped. free_all stopped >>= λ freed. some (false, freed) in
    let more = start_workers m left (i + 1) (record ready { threads = acquire i ready.threads }) in
    if m.starts i then more else failed

unfoldable pub parallel_hasher_new : Supply → ℕ → Option (Bool × Held)
parallel_hasher_new m num_threads =
    let workers = thread_count m.cpu_count num_threads in
    let own : Held = record nothing { self_memory = true } in
    let both : Held = record own { workers_memory = true } in
    let all : Held = record both { stack_memory = true } in
    let started = start_workers m workers 0 all in
    let without_workers : Option (Bool × Held) =
      free_memory own.self_memory >>= λ b. some (false, record own { self_memory = b }) in
    let without_stack : Option (Bool × Held) = free_memory both.workers_memory >>= λ w.
    free_memory both.self_memory >>= λ b.
    some (false, record both { workers_memory = w; self_memory = b }) in
    if not m.gives_self
    then some (false, nothing)
    else if not m.gives_workers
    then without_workers
    else if not m.gives_stack
    then without_stack
    else started

-- The first argument is false for NULL.
unfoldable pub parallel_hasher_free : Bool → ℕ → Held → Option Held
parallel_hasher_free false workers h = some h
parallel_hasher_free true workers h = do
  asked ← ask_all workers 0 h
  joined ← join_all workers 0 asked
  free_all joined
