-- ===== src/Parallel/Handover/Runs.antt =====
-- The runs of the hand-over: they never get stuck, they end, and the caller then finds every
-- result, in whatever order the threads run.
use native.Mathlib.Decide.{dec_lt}
use blake.Base.{ℕ, ◌+◌, ◌<◌, ◌≡◌, sym, subst, arith}
use blake.Base.{true, false, ltb, if-cases}
use blake.Base.{ltb→lt, not_ltb→le}
use blake.Parallel.Handover.{
  looping, waiting_work, Worker, Caller, assigning, testing, blocked, collecting, System, put,
  assigned, worker_step, CanRun, CanMove, reported, run_worker, caller_from, Step, Wake,
  caller_moves, worker_moves, caller_wakes, worker_wakes, Run, begin, stepped, woken,
}
use blake.Parallel.Handover.Stages.{Fresh, Assigned, woken-Assigned, woken-Fresh}
use blake.Parallel.Handover.Invariant.{Inv, Waits, handed, put_all, caller_from-Inv}
use blake.Parallel.Handover.Kept.{run_worker-Inv}
use blake.Parallel.Handover.Measure.{
  rank, ranks, ranks-put, caller_rank, Assigned-down, Fresh-down, assigned-rank,
}

module _ {U R : Type 0} (process : U → R) (count : ℕ) (unit : ℕ → U) where
  -- The state when an update begins to hand out its units: no worker has one.
  pub record IsStart (s : System U R) : Type 0 where
    pub at_start : s.caller ≡ assigning 0
    pub fresh : (i : ℕ) → i < count → Fresh (s.workers i)

  pub start-Inv : (s : System U R) → IsStart s → Inv process count unit s.caller s.workers
  start-Inv s b =
      subst (λ c. Inv process count unit c s.workers) (sym b.at_start)
        (record {
          fits = omega arith;
          ready = λ i hi h. b.fresh i hi;
          given = λ i h. absurd (omega arith);
          seen = λ i h. absurd (omega arith);
          waits = tt;
        })

  pub Step-Inv :
      (s t : System U R)
      → Step count unit process s t
      → Inv process count unit s.caller s.workers
      → Inv process count unit t.caller t.workers
  unfolding run_worker
  Step-Inv s t (caller_moves m e) v =
      subst (λ (x : System U R). Inv process count unit x.caller x.workers) (sym e)
        (caller_from-Inv process count unit s.caller s.workers v)
  Step-Inv s t (worker_moves i lt m e) v =
      subst (λ (x : System U R). Inv process count unit x.caller x.workers) (sym e)
        (run_worker-Inv process count unit s.caller s.workers i lt v)

  wake_caller-Inv :
      (c : Caller) (ws : ℕ → Worker U R) (k : ℕ)
      → c ≡ blocked k
      → Inv process count unit c ws
      → Inv process count unit (testing k) ws
  wake_caller-Inv c ws k e v =
      let w = subst (λ d. Inv process count unit d ws) e v in
      record {
        fits = omega (arith, w.fits);
        ready = w.ready;
        given = w.given;
        seen = w.seen;
        waits = tt;
      }

  wake_worker-Inv :
      (c : Caller) (ws : ℕ → Worker U R) (i : ℕ)
      → i < count
      → (ws i).at ≡ waiting_work
      → Inv process count unit c ws
      → Inv process count unit c (put i (record (ws i) { at = looping }) ws)
  wake_worker-Inv c ws i lt e v = record {
    fits = v.fits;
    ready = λ j hj h.
        put_all (λ _ w. Fresh w) i _ ws j
          (λ q. woken-Fresh process (v.ready i lt (omega (arith, q, h)))) (λ n. v.ready j hj h);
    given = λ j h.
        put_all (λ k w. Assigned process (unit k) w) i _ ws j
          (λ q. woken-Assigned process (v.given i (omega (arith, q, h))) e) (λ n. v.given j h);
    seen = λ j h.
        put_all (λ _ (w : Worker U R). w.done ≡ true) i _ ws j
          (λ q. subst (λ k. (ws k).done ≡ true) q (v.seen j h)) (λ n. v.seen j h);
    waits = woken_waits c v.waits;
  }
    where
      woken_waits :
          (d : Caller)
          → Waits process count unit d ws
          → Waits process count unit d (put i (record (ws i) { at = looping }) ws)
      woken_waits (assigning k) h = tt
      woken_waits (testing k) h = tt
      woken_waits collecting h = tt
      woken_waits (blocked k) h =
          put_all (λ _ (w : Worker U R). w.done ≡ false) i _ ws k
            (λ q. subst (λ j. (ws j).done ≡ false) q h) (λ n. h)

  pub Wake-Inv :
      (s t : System U R)
      → Wake count unit s t
      → Inv process count unit s.caller s.workers
      → Inv process count unit t.caller t.workers
  Wake-Inv s t (caller_wakes k e q) v =
      subst (λ (x : System U R). Inv process count unit x.caller x.workers) (sym q)
        (wake_caller-Inv s.caller s.workers k e v)
  Wake-Inv s t (worker_wakes i lt e q) v =
      subst (λ (x : System U R). Inv process count unit x.caller x.workers) (sym q)
        (wake_worker-Inv s.caller s.workers i lt e v)

  pub Run-Inv :
      {s t : System U R} {m k : ℕ}
      → Run count unit process s m k t
      → Inv process count unit s.caller s.workers
      → Inv process count unit t.caller t.workers
  Run-Inv begin v = v
  Run-Inv (stepped {t = t} {u = u} r st) v = Step-Inv t u st (Run-Inv r v)
  Run-Inv (woken {t = t} {u = u} r st) v = Wake-Inv t u st (Run-Inv r v)

  -- What is left to do.
  unfoldable pub total : System U R → ℕ
  total s = ranks count s.workers + caller_rank count s.caller

  pub caller-down :
      (c : Caller) (ws : ℕ → Worker U R)
      → Inv process count unit c ws
      → CanMove c
      → total (caller_from count unit c (record { workers = ws; caller = c }))
        < total (record { workers = ws; caller = c })
  unfolding total caller_from
  caller-down (assigning k) ws v m =
      if-cases (λ (t : System U R). total t < total (record { workers = ws; caller = assigning k }))
        (ltb k count) _ _
        (λ e.
          let lt = ltb→lt k count e in
          omega (
            arith,
            ranks-put count k (assigned (unit k) (ws k)) ws lt,
            assigned-rank (unit k) (v.ready k lt (omega arith)),
            lt,
          ))
        (λ e. omega (arith, not_ltb→le k count e, v.fits))
  caller-down (testing k) ws v m =
      if-cases (λ (t : System U R). total t < total (record { workers = ws; caller = testing k }))
        (ltb k count) _ _
        (λ e.
          let lt = ltb→lt k count e in
          if-cases
            (λ (t : System U R). total t < total (record { workers = ws; caller = testing k }))
            (ws k).done _ _ (λ d. omega (arith, lt)) (λ d. omega (arith, lt)))
        (λ e. omega arith)
  caller-down (blocked k) ws v m = absurd m
  caller-down collecting ws v m = absurd m

  pub worker-down :
      (c : Caller) (ws : ℕ → Worker U R) (i : ℕ)
      → i < count
      → Inv process count unit c ws
      → CanRun (ws i).at
      → total (run_worker process i (record { workers = ws; caller = c }))
        < total (record { workers = ws; caller = c })
  unfolding total run_worker
  worker-down c ws i lt v m =
      let moved = ranks-put count i (worker_step process (ws i)) ws lt in
      let lower : rank (worker_step process (ws i)) + caller_rank count (reported (ws i).at i c)
          < rank (ws i) + caller_rank count c =
        elim (dec_lt i (handed process count unit c)) [
          | yes p ↦ Assigned-down process count i c (v.given i p) m
          | no p ↦ Fresh-down process count i c (v.ready i lt (omega (arith, p))) m
        ] in
      omega (arith, moved, lower)
