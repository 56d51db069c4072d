-- ===== src/Tests/Threads.antt =====
-- A run of the hand-over of src/blake4_parallel.c with one unit, in which the caller blocks and
-- the worker wakes it.
use blake.Base.{false, ℕ, ◌+◌, ◌*◌, ◌≤◌, ◌≡◌, ◌≢◌, refl, arith, List, [], ◌∷◌, Option, none}
use blake.Compress.Bounds.{portable}
use blake.Parallel.{run_units}
use blake.Parallel.Handover.{
  System, assigning, collecting, new_worker, caller_from, run_worker, worker_step, assigned, Step,
  caller_moves, worker_moves, Run, begin, stepped,
}
use blake.Parallel.Handover.Stages.{fresh_looping}
use blake.Parallel.Handover.Runs.{IsStart}
use blake.Parallel.Handover.Ends.{work_on, unit_of, gathered, gathered-Run, Run-bound, Run-progress}

abbrev Piece : Type 0
Piece = List ℕ × ℕ

abbrev units : List Piece
units = (1 ∷ 2 ∷ 3 ∷ [], 0) ∷ []

abbrev job : Piece → Option Piece
job = work_on portable none

abbrev State : Type 0
State = System Piece (Option Piece)

abbrev state0 : State
state0 = record { workers = λ i. new_worker; caller = assigning 0 }

abbrev called : State → State
unfolding caller_from assigned
called s = caller_from 1 (unit_of portable none units) s.caller s

abbrev worked : State → State
unfolding run_worker worker_step
worked s = run_worker job 0 s

abbrev blocked_state : State
blocked_state = called (called (called state0))

abbrev collected_state : State
collected_state = called (called (worked (worked (worked blocked_state))))

state0-IsStart : IsStart job 1 (unit_of portable none units) state0
state0-IsStart = record { at_start = refl; fresh = λ i lt. fresh_looping false none }

blocked-Run : Run 1 (unit_of portable none units) job state0 3 0 blocked_state
unfolding caller_from assigned
blocked-Run =
    stepped (stepped (stepped begin (caller_moves tt refl)) (caller_moves tt refl))
      (caller_moves tt refl)

collected-Run : Run 1 (unit_of portable none units) job state0 8 0 collected_state
unfolding caller_from assigned run_worker worker_step
collected-Run =
    stepped
      (stepped
        (stepped
          (stepped (stepped blocked-Run (worker_moves 0 (omega arith) tt refl))
            (worker_moves 0 (omega arith) tt refl))
          (worker_moves 0 (omega arith) tt refl))
        (caller_moves tt refl))
      (caller_moves tt refl)

Run-bound_example : 8 ≤ 9 * 1 + 2 + 0
Run-bound_example =
    Run-bound job 1 (unit_of portable none units) state0 collected_state 8 0 state0-IsStart
      collected-Run

not_collecting : blocked_state.caller ≢ collecting
unfolding caller_from assigned
not_collecting e = absurd (cc)

Run-progress_example : (u : State) × Step 1 (unit_of portable none units) job blocked_state u
Run-progress_example =
    Run-progress job 1 (unit_of portable none units) state0 blocked_state 3 0 state0-IsStart
      blocked-Run not_collecting

collected : collected_state.caller ≡ collecting
unfolding caller_from assigned run_worker worker_step
collected = refl

gathered-Run_example : gathered 1 0 collected_state.workers ≡ run_units portable none units
gathered-Run_example =
    gathered-Run portable none units state0 collected_state 8 0 state0-IsStart collected-Run
      collected
