-- ===== src/Parallel/Handover/Ends.antt =====
-- The runs of the hand-over never get stuck, they end, and the caller then finds every result, in
-- whatever order the threads run.
use native.Mathlib.Decide.{dec_lt}
use blake.Base.{
  ℕ, zero, suc, ◌+◌, ◌*◌, ◌<◌, ◌≤◌, ◌≡◌, ◌≢◌, refl, sym, ap, subst, arith, Option, some,
}
use blake.Base.{List, [], ◌∷◌, length, get_or, ◌>>=◌}
use blake.Compress.{Compressor}
use blake.Parallel.{process_chunks, run_units}
use blake.Parallel.Handover.{
  looping, Worker, Caller, assigning, testing, blocked, collecting, System, Step, Wake,
  caller_moves, worker_moves, caller_wakes, worker_wakes, Run, begin, stepped, woken,
}
use blake.Parallel.Handover.Stages.{
  Fresh, fresh_looping, fresh_waiting, done-result, done-Fresh, not_done-CanRun,
}
use blake.Parallel.Handover.Invariant.{Inv, handed}
use blake.Parallel.Handover.Measure.{
  rank, ranks, ranks-put, caller_rank, Assigned-woken, Fresh-woken,
}
use blake.Parallel.Handover.Runs.{IsStart, start-Inv, Run-Inv, total, caller-down, worker-down}

module _ {U R : Type 0} (process : U → R) (count : ℕ) (unit : ℕ → U) where
  Step-down :
      (s t : System U R)
      → Step count unit process s t
      → Inv process count unit s.caller s.workers
      → total process count unit t < total process count unit s
  Step-down s t (caller_moves m e) v =
      subst (λ (x : System U R). total process count unit x < total process count unit s) (sym e)
        (caller-down process count unit s.caller s.workers v m)
  Step-down s t (worker_moves i lt m e) v =
      subst (λ (x : System U R). total process count unit x < total process count unit s) (sym e)
        (worker-down process count unit s.caller s.workers i lt v m)

  Wake-up :
      (s t : System U R)
      → Wake count unit s t
      → Inv process count unit s.caller s.workers
      → total process count unit t ≤ total process count unit s + 1
  unfolding total
  Wake-up s t (caller_wakes k e q) v = omega (
    arith,
    ap (λ (x : System U R). ranks count x.workers) q,
    ap (λ (x : System U R). caller_rank count x.caller) q,
    ap (caller_rank count) e,
  )
  Wake-up s t (worker_wakes i lt e q) v =
      let woken : Worker U R = record (s.workers i) { at = looping } in
      let one : rank woken ≤ 1 = elim (dec_lt i (handed process count unit s.caller)) [
        | yes p ↦ Assigned-woken process count i s.caller (v.given i p) e
        | no p ↦ Fresh-woken process count i s.caller (v.ready i lt (omega (arith, p)))
      ] in
      omega (
        arith,
        ap (λ (x : System U R). ranks count x.workers) q,
        ap (λ (x : System U R). caller_rank count x.caller) q,
        ranks-put count i woken s.workers lt,
        one,
      )

  Run-total :
      {s t : System U R} {m k : ℕ}
      → Run count unit process s m k t
      → Inv process count unit s.caller s.workers
      → total process count unit t + m ≤ total process count unit s + k
  Run-total begin v = omega arith
  Run-total (stepped {t = t} {u = u} r st) v =
      omega (arith, Run-total r v, Step-down t u st (Run-Inv process count unit r v))
  Run-total (woken {t = t} {u = u} r st) v =
      omega (arith, Run-total r v, Wake-up t u st (Run-Inv process count unit r v))

  Fresh-rank : {w : Worker U R} → Fresh w → rank w ≤ 1
  Fresh-rank (fresh_looping d r) = omega arith
  Fresh-rank (fresh_waiting d r) = omega arith

  ranks-le : (n : ℕ) (ws : ℕ → Worker U R) → ((i : ℕ) → i < n → Fresh (ws i)) → ranks n ws ≤ n
  unfolding ranks
  ranks-le zero ws h = omega arith
  ranks-le (suc n) ws h =
      omega (arith, Fresh-rank (h n (omega arith)), ranks-le n ws (λ i lt. h i (omega arith)))

  -- A run of the hand-over of `count` units from workers that have no unit (IsStart) has at most 9
  -- * count + 2 steps and one more for each wake-up for no reason.
  pub Run-bound :
      (s t : System U R) (steps wakes : ℕ)
      → IsStart process count unit s
      → Run count unit process s steps wakes t
      → steps ≤ 9 * count + 2 + wakes
  unfolding total
  Run-bound s t m k b r = omega (
    arith,
    Run-total r (start-Inv process count unit s b),
    ranks-le count s.workers b.fresh,
    ap (caller_rank count) b.at_start,
  )

  progress :
      (c : Caller) (ws : ℕ → Worker U R)
      → Inv process count unit c ws
      → c ≢ collecting
      → (u : System U R) × Step count unit process (record { workers = ws; caller = c }) u
  progress (assigning k) ws v n = (_, caller_moves tt refl)
  progress (testing k) ws v n = (_, caller_moves tt refl)
  progress (blocked k) ws v n =
      (_, worker_moves k v.fits (not_done-CanRun process (v.given k v.fits) v.waits) refl)
  progress collecting ws v n = absurd (n refl)

  -- No wake-up is lost: in every state that a run of the hand-over reaches from workers that have
  -- no unit (IsStart), a step is possible that is no wake-up for no reason, unless the caller is
  -- past its waits.
  pub Run-progress :
      (s t : System U R) (steps wakes : ℕ)
      → IsStart process count unit s
      → Run count unit process s steps wakes t
      → t.caller ≢ collecting
      → (u : System U R) × Step count unit process t u
  Run-progress s t m k b r n =
      progress t.caller t.workers (Run-Inv process count unit r (start-Inv process count unit s b))
        n

  -- When the caller is past its waits every worker has its result, and may be given a unit again.
  pub results :
      (s t : System U R) (steps wakes : ℕ)
      → IsStart process count unit s
      → Run count unit process s steps wakes t
      → t.caller ≡ collecting
      → (i : ℕ) → i < count
      → ((t.workers i).result ≡ some (process (unit i))) × Fresh (t.workers i)
  results s t m k b r e i lt =
      let v =
        subst (λ c. Inv process count unit c t.workers) e
          (Run-Inv process count unit r (start-Inv process count unit s b)) in
      (
        done-result process (v.given i lt) (v.seen i lt),
        done-Fresh process (v.given i lt) (v.seen i lt),
      )

-- The results that the caller collects, from worker `i` on.
unfoldable pub gathered : {U R : Type 0} → ℕ → ℕ → (ℕ → Worker U (Option R)) → Option (List R)
gathered zero i ws = some []
gathered (suc n) i ws = do
  written ← (ws i).result
  r ← written
  rest ← gathered n (i + 1) ws
  some (r ∷ rest)

module _ (c : Compressor) (key : Option (List ℕ)) where
  -- The work on a unit, and the unit of worker `i`.
  abbrev pub work_on : List ℕ × ℕ → Option (List ℕ × ℕ)
  work_on u = process_chunks c key u.0 u.1

  abbrev pub unit_of : List (List ℕ × ℕ) → ℕ → List ℕ × ℕ
  unit_of units i = get_or units i ([], 0)

  gathered-run_units :
      (units : List (List ℕ × ℕ)) (i : ℕ) (ws : ℕ → Worker (List ℕ × ℕ) (Option (List ℕ × ℕ)))
      → ((j : ℕ) → j < length units → (ws (i + j)).result ≡ some (work_on (unit_of units j)))
      → gathered (length units) i ws ≡ run_units c key units
  unfolding gathered run_units
  gathered-run_units [] i ws h = refl
  gathered-run_units ((piece, chunk_start) ∷ units) i ws h =
      let first : (ws i).result ≡ some (process_chunks c key piece chunk_start) =
        subst (λ j. (ws j).result ≡ some (process_chunks c key piece chunk_start)) (omega arith)
          (h 0 (omega arith)) in
      let rest = gathered-run_units units (i + 1) ws (λ j lt.
        subst (λ k. (ws k).result ≡ some (work_on (unit_of units j))) (omega arith)
          (h (suc j) (omega arith))) in
      rw (first, rest)

  -- For any units of work, any key and any interleaving of the caller and the workers, with wake-
  -- ups for no reason: from workers that have no unit (IsStart), when the caller is past its
  -- waits, the results that it collects are those of running the units one after another, faults
  -- included.
  pub gathered-Run :
      (units : List (List ℕ × ℕ)) (s t : System (List ℕ × ℕ) (Option (List ℕ × ℕ)))
      (steps wakes : ℕ)
      → IsStart work_on (length units) (unit_of units) s
      → Run (length units) (unit_of units) work_on s steps wakes t
      → t.caller ≡ collecting
      → gathered (length units) 0 t.workers ≡ run_units c key units
  gathered-Run units s t m k b r e = gathered-run_units units 0 t.workers (λ j lt.
      subst (λ i. (t.workers i).result ≡ some (work_on (unit_of units j))) (omega arith)
        (results work_on (length units) (unit_of units) s t m k b r e j lt).0)
