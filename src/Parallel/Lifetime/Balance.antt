-- ===== src/Parallel/Lifetime/Balance.antt =====
-- What is held after blake4_parallel_hasher_new and blake4_parallel_hasher_free.
use blake.Base.{
  ℕ, zero, suc, ◌+◌, ◌<◌, ◌≤◌, ◌≡◌, ◌⊎◌, inl, inr, refl, sym, ap, ◌∙◌, arith, Option, some,
}
use blake.Base.{Bool, true, false, ◌&&◌, ltb, leb}
use blake.Base.{Bool-cases}
use blake.Parallel.{thread_count}
use mathlib.Core.Path.{fun_ext}
use blake.Parallel.Lifetime.{
  Held, Supply, nowhere, nothing, acquire, without_one, init_worker, ask_shutdown, join_worker,
  stop_each, ask_all, join_all, free_all, start_workers, parallel_hasher_new, parallel_hasher_free,
}

-- From `lo` on and below `hi`.
abbrev pub range : ℕ → ℕ → ℕ → Bool
range lo hi j = leb lo j && ltb j hi

acquire-range : (lo hi : ℕ) → lo ≤ hi → acquire hi (range lo hi) ≡ range lo (hi + 1)
acquire-range lo hi h = fun_ext (λ j. ground arith)

without_one-range : (lo hi : ℕ) → without_one lo (range lo hi) ≡ range (lo + 1) hi
without_one-range lo hi = fun_ext (λ j. ground arith)

without_one-above : (lo hi : ℕ) → without_one hi (range lo hi) ≡ range lo hi
without_one-above lo hi = fun_ext (λ j. ground arith)

range_empty : (n : ℕ) → range n n ≡ nowhere
range_empty n = fun_ext (λ j. ground arith)

range_first : (lo hi : ℕ) → lo < hi → range lo hi lo ≡ true
range_first lo hi h = ground arith

without_one-nowhere : (i : ℕ) → without_one i nowhere ≡ nowhere
without_one-nowhere i = fun_ext (λ j. ground arith)

range_in : (lo hi j : ℕ) → lo ≤ j → j < hi → range lo hi j ≡ true
range_in lo hi j h lt = ground arith

-- The workers below `lo` are gone, those below `top` have a thread, and those below `hi` have a
-- mutex and condition variables.
abbrev state : ℕ → ℕ → ℕ → (ℕ → Bool) → Held
state lo hi top asked = record {
  self_memory = true;
  workers_memory = true;
  stack_memory = true;
  mutexes = range lo hi;
  work_avail = range lo hi;
  work_done = range lo hi;
  threads = range lo top;
  shutdown = asked;
}

init_worker-state : (i : ℕ) → init_worker i (state 0 i i nowhere) ≡ state 0 (i + 1) i nowhere
unfolding init_worker
init_worker-state i = rw (acquire-range 0 i (omega arith), without_one-nowhere i) refl

ask_shutdown-state :
    (lo hi top j : ℕ)
    → lo ≤ j
    → j < hi
    → ask_shutdown j (state lo hi top (range 0 j)) ≡ some (state lo hi top (range 0 (j + 1)))
unfolding ask_shutdown
ask_shutdown-state lo hi top j h lt =
    rw (range_in lo hi j h lt, acquire-range 0 j (omega arith)) refl

join_worker-state :
    (j hi top asked : ℕ)
    → j < hi
    → j < top
    → j < asked
    → join_worker j (state j hi top (range 0 asked)) ≡ some (state (j + 1) hi top (range 0 asked))
unfolding join_worker
join_worker-state j hi top asked below started told =
    rw
      (
        range_in 0 asked j (omega arith) told,
        range_first j hi below,
        range_first j top started,
        without_one-range j hi,
        without_one-range j top,
      )
      refl

-- What the failure path does when the thread of worker `i` does not start.
stop_each-state :
    (left j i : ℕ)
    → j + left ≡ i
    → stop_each left j (state j (i + 1) i (range 0 j)) ≡ some (state i (i + 1) i (range 0 i))
unfolding stop_each
stop_each-state zero j i e =
    let same : j ≡ i = omega arith in ap (λ k. some (state k (i + 1) i (range 0 k))) same
stop_each-state (suc left) j i e =
    rw
      (
        ask_shutdown-state j (i + 1) i j (omega arith) (omega arith),
        join_worker-state j (i + 1) i (j + 1) (omega arith) (omega arith) (omega arith),
      )
      (stop_each-state left (j + 1) i (omega arith))

ask_all-state :
    (left j n : ℕ)
    → j + left ≡ n
    → ask_all left j (state 0 n n (range 0 j)) ≡ some (state 0 n n (range 0 n))
unfolding ask_all
ask_all-state zero j n e =
    let same : j ≡ n = omega arith in ap (λ k. some (state 0 n n (range 0 k))) same
ask_all-state (suc left) j n e =
    rw (ask_shutdown-state 0 n n j (omega arith) (omega arith))
      (ask_all-state left (j + 1) n (omega arith))

join_all-state :
    (left j n : ℕ)
    → j + left ≡ n
    → join_all left j (state j n n (range 0 n)) ≡ some (state n n n (range 0 n))
unfolding join_all
join_all-state zero j n e =
    let same : j ≡ n = omega arith in ap (λ k. some (state k n n (range 0 n))) same
join_all-state (suc left) j n e =
    rw (join_worker-state j n n n (omega arith) (omega arith) (omega arith))
      (join_all-state left (j + 1) n (omega arith))

-- The mutex and the condition variables of worker `i`, and nothing else.
abbrev pub unstarted : ℕ → Held
unstarted i = record nothing {
  mutexes = range i (i + 1);
  work_avail = range i (i + 1);
  work_done = range i (i + 1);
  shutdown = range 0 i;
}

-- The thread of one of `n` workers does not start, and what its worker had is left.
pub record Stuck (m : Supply) (n : ℕ) (h : Held) : Type 0 where
  pub worker : ℕ
  pub below : worker < n
  pub fails : m.starts worker ≡ false
  pub left_over : h ≡ unstarted worker

abbrev Outcome : Supply → ℕ → Option (Bool × Held) → Type 0
Outcome m n out =
    (out ≡ some (true, state 0 n n nowhere)) ⊎ ((h : Held) × (out ≡ some (false, h)) × Stuck m n h)

start_workers-Outcome :
    (m : Supply) (left i n : ℕ)
    → i + left ≡ n
    → Outcome m n (start_workers m left i (state 0 i i nowhere))
unfolding start_workers free_all
start_workers-Outcome m zero i n e =
    let same : i ≡ n = omega arith in inl (ap (λ k. some (true, state 0 k k nowhere)) same)
start_workers-Outcome m (suc left) i n e = elim (Bool-cases (m.starts i)) [
  | inl t ↦
      rw (t, init_worker-state i, acquire-range 0 i (omega arith))
        (start_workers-Outcome m left (i + 1) n (omega arith))
  | inr f ↦
      let stopped = stop_each-state i 0 i (omega arith) in
      rw (f, init_worker-state i, sym (range_empty 0), stopped, range_empty i)
        (inr (
          unstarted i,
          refl,
          record { worker = i; below = omega arith; fails = f; left_over = refl },
        ))
]

free-all_started :
    (n : ℕ)
    → parallel_hasher_free true n (state 0 n n nowhere)
      ≡ some (record nothing { shutdown = range 0 n })
unfolding parallel_hasher_free free_all
free-all_started n =
    rw
      (
        sym (range_empty 0),
        ask_all-state n 0 n (omega arith),
        join_all-state n 0 n (omega arith),
        range_empty n,
        range_empty 0,
      )
      refl

-- A hasher whose workers all have a thread, and what is left when it is freed.
pub record Balanced (n : ℕ) (h : Held) : Type 0 where
  pub all_started : h.threads ≡ range 0 n
  pub freed : parallel_hasher_free true n h ≡ some (record nothing { shutdown = range 0 n })

abbrev Ends : Supply → ℕ → Option (Bool × Held) → Type 0
Ends m n out =
    (h : Held) × (((out ≡ some (true, h)) × Balanced n h)
      ⊎ ((out ≡ some (false, h)) × ((h ≡ nothing) ⊎ Stuck m n h)))

-- Before the loop over the workers.
start : Held
start = record nothing { self_memory = true; workers_memory = true; stack_memory = true }

start-state : start ≡ state 0 0 0 nowhere
unfolding start
start-state = rw (range_empty 0) refl

Outcome-Ends : (m : Supply) (n : ℕ) (out : Option (Bool × Held)) → Outcome m n out → Ends m n out
Outcome-Ends m n out (inl e) =
    (state 0 n n nowhere, inl (e, record { all_started = refl; freed = free-all_started n }))
Outcome-Ends m n out (inr (h, e, stuck)) = (h, inr (e, inr stuck))

parallel_hasher_new-loop :
    (m : Supply) (num_threads : ℕ)
    → m.gives_self ≡ true
    → m.gives_workers ≡ true
    → m.gives_stack ≡ true
    → parallel_hasher_new m num_threads
      ≡ start_workers m (thread_count m.cpu_count num_threads) 0 (state 0 0 0 nowhere)
unfolding parallel_hasher_new start
parallel_hasher_new-loop m num_threads s w t =
    let loop : parallel_hasher_new m num_threads
        ≡ start_workers m (thread_count m.cpu_count num_threads) 0 start =
      rw (s, w, t) refl in
    loop ∙ ap (start_workers m (thread_count m.cpu_count num_threads) 0) start-state

-- Whatever allocations fail and whatever threads do not start, blake4_parallel_hasher_new returns
-- and uses and gives back only what is held: it gives a hasher with a thread for each worker,
-- which blake4_parallel_hasher_free ends and gives back in full, or NULL with nothing held but,
-- perhaps, the mutex and the condition variables of a worker whose thread did not start.
pub parallel_hasher_new-parallel_hasher_free :
    (m : Supply) (num_threads : ℕ)
    → (h : Held) × (((parallel_hasher_new m num_threads ≡ some (true, h))
          × Balanced (thread_count m.cpu_count num_threads) h)
        ⊎ ((parallel_hasher_new m num_threads ≡ some (false, h))
            × ((h ≡ nothing) ⊎ Stuck m (thread_count m.cpu_count num_threads) h)))
unfolding parallel_hasher_new
parallel_hasher_new-parallel_hasher_free m num_threads =
    let n = thread_count m.cpu_count num_threads in
    elim (Bool-cases m.gives_self) [
      | inr f ↦ (nothing, inr (rw f refl, inl refl))
      | inl s ↦ elim (Bool-cases m.gives_workers) [
        | inr f ↦ (nothing, inr (rw (s, f) refl, inl refl))
        | inl w ↦ elim (Bool-cases m.gives_stack) [
          | inr f ↦ (nothing, inr (rw (s, w, f) refl, inl refl))
          | inl t ↦
              let loop = parallel_hasher_new-loop m num_threads s w t in
              rw (loop) (Outcome-Ends m n _ (start_workers-Outcome m n 0 n (omega arith)))
        ]
      ]
    ]
