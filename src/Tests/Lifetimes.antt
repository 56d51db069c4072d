-- ===== src/Tests/Lifetimes.antt =====
-- Parallel hashers of src/blake4_parallel.c on machines on which a thread does not start.
use blake.Base.{◌≡◌, ◌⊎◌, refl, Option, none, some, Bool, true, false, ltb}
use blake.Parallel.{thread_count}
use blake.Parallel.Lifetime.{
  Held, Supply, nothing, parallel_hasher_new, start_workers, stop_each, init_worker, ask_shutdown,
  join_worker, free_all,
}
use blake.Parallel.Lifetime.Balance.{Balanced, Stuck, parallel_hasher_new-parallel_hasher_free}

-- Two threads start, and the third does not.
abbrev two_threads : Supply
two_threads = record {
  cpu_count = 4;
  gives_self = true;
  gives_workers = true;
  gives_stack = true;
  starts = λ i. ltb i 2;
}

abbrev mutex_of_third : Option (Bool × Held) → Bool
mutex_of_third none = false
mutex_of_third (some (made, h)) = h.mutexes 2

third_mutex_left : mutex_of_third (parallel_hasher_new two_threads 3) ≡ true
unfolding parallel_hasher_new start_workers stop_each init_worker ask_shutdown join_worker free_all
    thread_count
third_mutex_left = refl

parallel_hasher_new-parallel_hasher_free_example :
    (h : Held) × (((parallel_hasher_new two_threads 3 ≡ some (true, h))
        × Balanced (thread_count 4 3) h)
      ⊎ ((parallel_hasher_new two_threads 3 ≡ some (false, h))
          × ((h ≡ nothing) ⊎ Stuck two_threads (thread_count 4 3) h)))
parallel_hasher_new-parallel_hasher_free_example =
    parallel_hasher_new-parallel_hasher_free two_threads 3
