-- ===== src/Parallel/Handover.antt =====
-- src/blake4_parallel.c: how blake4_parallel_hasher_update hands work to its threads and waits for
-- them. A step is what a thread does between two points at which it may be interrupted: a section
-- under a worker's mutex, up to its unlock or its wait, or the work on a unit. A thread that waits
-- on a condition variable goes on when it is signalled, or for no reason at all (Wake).
pub mod Stages
pub mod Invariant
pub mod Kept
pub mod Measure
pub mod Runs
pub mod Ends
use blake.Base.{
  ℕ, zero, suc, ◌+◌, ◌<◌, ◌≡◌, Option, none, some, Bool, true, false, ltb, ◌==◌, if◌then◌else◌,
}

-- Where a worker is: before its test for work, in its wait for work, at work on a unit, before it
-- reports the end of a unit, or out of its function.
pub data Place (U : Type 0) : Type 0 where
  looping : Place U
  waiting_work : Place U
  working : U → Place U
  finishing : Place U
  exited : Place U

-- `blake4_worker` with the result of its unit.
pub record Worker (U R : Type 0) : Type 0 where
  pub at : Place U
  pub work : Option U
  pub done : Bool
  pub shutdown : Bool
  pub result : Option R

-- Where the caller is: before it hands out unit `k`, before its test of worker `k`, in its wait
-- for worker `k`, or past all waits.
pub data Caller : Type 0 where
  assigning : ℕ → Caller
  testing : ℕ → Caller
  blocked : ℕ → Caller
  collecting : Caller

pub record System (U R : Type 0) : Type 0 where
  pub workers : ℕ → Worker U R
  pub caller : Caller

abbrev pub put : {A : Type 0} → ℕ → A → (ℕ → A) → ℕ → A
put i a f j = if j == i then a else f j

-- `blake4_cond_signal(&worker->work_done)` of worker `i`.
abbrev pub work_done : ℕ → Caller → Caller
work_done i (assigning k) = assigning k
work_done i (testing k) = testing k
work_done i (blocked k) = if k == i then testing k else blocked k
work_done i collecting = collecting

-- The caller may go on unless it waits or is past its waits.
abbrev pub CanMove : Caller → Type 0
CanMove (assigning k) = Unit {0}
CanMove (testing k) = Unit {0}
CanMove (blocked k) = ⊥
CanMove collecting = ⊥

module _ {U : Type 0} where
  -- `blake4_cond_signal(&w->work_avail)`
  abbrev pub signalled : Place U → Place U
  signalled looping = looping
  signalled waiting_work = looping
  signalled (working u) = working u
  signalled finishing = finishing
  signalled exited = exited

  -- A worker may go on unless it waits or has left.
  abbrev pub CanRun : Place U → Type 0
  CanRun looping = Unit {0}
  CanRun waiting_work = ⊥
  CanRun (working u) = Unit {0}
  CanRun finishing = Unit {0}
  CanRun exited = ⊥

  -- What the step of worker `i` from its place does to the caller.
  abbrev pub reported : Place U → ℕ → Caller → Caller
  reported looping i c = c
  reported waiting_work i c = c
  reported (working u) i c = c
  reported finishing i c = work_done i c
  reported exited i c = c

module _ {U R : Type 0} where
  -- `w->work = &work[i]; w->done = 0;` and the signal.
  unfoldable pub assigned : U → Worker U R → Worker U R
  assigned u w = record w { work = some u; done = false; at = signalled w.at }

  -- A worker as blake4_parallel_hasher_new leaves it, its thread started.
  abbrev pub new_worker : Worker U R
  new_worker = record { at = looping; work = none; done = false; shutdown = false; result = none }

  -- `w->shutdown = 1;` and the signal, in blake4_parallel_hasher_free.
  unfoldable pub shut_down : Worker U R → Worker U R
  shut_down w = record w { shutdown = true; at = signalled w.at }

  -- The test for work when there is no shutdown.
  abbrev pub take_work : Option U → Worker U R → Worker U R
  take_work none w = record w { at = waiting_work }
  take_work (some u) w = record w { work = none; at = working u }

  -- `process` is the work on a unit.
  module _ (process : U → R) where
    unfoldable pub step_from : Place U → Worker U R → Worker U R
    step_from looping w = if w.shutdown then record w { at = exited } else take_work w.work w
    step_from waiting_work w = w
    step_from (working u) w = record w { result = some (process u); at = finishing }
    step_from finishing w = record w { done = true; at = looping }
    step_from exited w = w

    unfoldable pub worker_step : Worker U R → Worker U R
    unfolding step_from
    worker_step w = step_from w.at w

    unfoldable pub run_worker : ℕ → System U R → System U R
    run_worker i s = record s {
      workers = put i (worker_step (s.workers i)) s.workers;
      caller = reported (s.workers i).at i s.caller;
    }

  -- `count` units are handed out, the unit of worker `k` is `unit k`.
  module _ (count : ℕ) (unit : ℕ → U) where
    unfoldable pub caller_from : Caller → System U R → System U R
    caller_from (assigning k) s =
        if ltb k count
        then record s {
          workers = put k (assigned (unit k) (s.workers k)) s.workers;
          caller = assigning (k + 1);
        }
        else record s { caller = testing 0 }
    caller_from (testing k) s =
        if ltb k count
        then (if (s.workers k).done
            then record s { caller = testing (k + 1) }
            else record s { caller = blocked k })
        else record s { caller = collecting }
    caller_from (blocked k) s = s
    caller_from collecting s = s

    -- One step of one of the threads.
    pub data Step (process : U → R) (s t : System U R) : Type 0 where
      caller_moves : CanMove s.caller → t ≡ caller_from s.caller s → Step process s t
      worker_moves :
          (i : ℕ)
          → i < count
          → CanRun (s.workers i).at
          → t ≡ run_worker process i s
          → Step process s t

    -- A wait that ends without a signal.
    pub data Wake (s t : System U R) : Type 0 where
      caller_wakes : (k : ℕ) → s.caller ≡ blocked k → t ≡ record s { caller = testing k } → Wake s t
      worker_wakes :
          (i : ℕ)
          → i < count
          → (s.workers i).at ≡ waiting_work
          → t ≡ record s { workers = put i (record (s.workers i) { at = looping }) s.workers }
          → Wake s t

    -- A run with its number of steps and of wake-ups for no reason.
    pub data Run (process : U → R) (s : System U R) : ℕ → ℕ → System U R → Type 0 where
      begin : Run process s 0 0 s
      stepped :
          {steps wakes : ℕ} {t u : System U R}
          → Run process s steps wakes t
          → Step process t u
          → Run process s (suc steps) wakes u
      woken :
          {steps wakes : ℕ} {t u : System U R}
          → Run process s steps wakes t
          → Wake t u
          → Run process s steps (suc wakes) u
