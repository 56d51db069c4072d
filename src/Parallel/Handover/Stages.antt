-- ===== src/Parallel/Handover/Stages.antt =====
-- What a worker goes through from the moment that it is given a unit, and before.
use blake.Base.{◌≡◌, refl, Option, none, some, Bool, true, false}
use blake.Parallel.Handover.{
  looping, waiting_work, working, finishing, exited, Worker, assigned, worker_step, CanRun,
  shut_down,
}

module _ {U R : Type 0} where
  -- No unit: before its test for work, or waiting for it.
  pub data Fresh : Worker U R → Type 0 where
    fresh_looping :
        (d : Bool) (r : Option R)
        → Fresh (record { at = looping; work = none; done = d; shutdown = false; result = r })
    fresh_waiting :
        (d : Bool) (r : Option R)
        → Fresh (record { at = waiting_work; work = none; done = d; shutdown = false; result = r })

  module _ (process : U → R) where
    -- The stages of a unit `u` from its assignment on.
    pub data Assigned (u : U) : Worker U R → Type 0 where
      pending :
          (r : Option R)
          → Assigned u
              (record { at = looping; work = some u; done = false; shutdown = false; result = r })
      in_work :
          (r : Option R)
          → Assigned u
              (record { at = working u; work = none; done = false; shutdown = false; result = r })
      worked : Assigned u (record {
        at = finishing;
        work = none;
        done = false;
        shutdown = false;
        result = some (process u);
      })
      done_looping : Assigned u (record {
        at = looping;
        work = none;
        done = true;
        shutdown = false;
        result = some (process u);
      })
      done_waiting : Assigned u (record {
        at = waiting_work;
        work = none;
        done = true;
        shutdown = false;
        result = some (process u);
      })

    pub assigned-Assigned : (u : U) {w : Worker U R} → Fresh w → Assigned u (assigned u w)
    unfolding assigned
    assigned-Assigned u (fresh_looping d r) = pending r
    assigned-Assigned u (fresh_waiting d r) = pending r

    pub worker_step-Assigned :
        {u : U} {w : Worker U R} → Assigned u w → Assigned u (worker_step process w)
    unfolding worker_step
    worker_step-Assigned (pending r) = in_work r
    worker_step-Assigned (in_work r) = worked
    worker_step-Assigned worked = done_looping
    worker_step-Assigned done_looping = done_waiting
    worker_step-Assigned done_waiting = done_waiting

    pub worker_step-Fresh : {w : Worker U R} → Fresh w → Fresh (worker_step process w)
    unfolding worker_step
    worker_step-Fresh (fresh_looping d r) = fresh_waiting d r
    worker_step-Fresh (fresh_waiting d r) = fresh_waiting d r

    pub woken-Assigned :
        {u : U} {w : Worker U R}
        → Assigned u w
        → w.at ≡ waiting_work
        → Assigned u (record w { at = looping })
    woken-Assigned (pending r) e = pending r
    woken-Assigned (in_work r) e = absurd (cc)
    woken-Assigned worked e = absurd (cc)
    woken-Assigned done_looping e = done_looping
    woken-Assigned done_waiting e = done_looping

    pub woken-Fresh : {w : Worker U R} → Fresh w → Fresh (record w { at = looping })
    woken-Fresh (fresh_looping d r) = fresh_looping d r
    woken-Fresh (fresh_waiting d r) = fresh_looping d r

    -- A unit that is reported done has its result, and stays done.
    pub done-result :
        {u : U} {w : Worker U R} → Assigned u w → w.done ≡ true → w.result ≡ some (process u)
    done-result (pending r) e = absurd (cc)
    done-result (in_work r) e = absurd (cc)
    done-result worked e = refl
    done-result done_looping e = refl
    done-result done_waiting e = refl

    pub worker_step-done :
        {u : U} {w : Worker U R}
        → Assigned u w
        → w.done ≡ true
        → (worker_step process w).done ≡ true
    unfolding worker_step
    worker_step-done (pending r) e = e
    worker_step-done (in_work r) e = e
    worker_step-done worked e = refl
    worker_step-done done_looping e = refl
    worker_step-done done_waiting e = refl

    -- A unit that is not done is at a place from which its worker goes on.
    pub not_done-CanRun : {u : U} {w : Worker U R} → Assigned u w → w.done ≡ false → CanRun w.at
    not_done-CanRun (pending r) e = tt
    not_done-CanRun (in_work r) e = tt
    not_done-CanRun worked e = tt
    not_done-CanRun done_looping e = absurd (cc)
    not_done-CanRun done_waiting e = absurd (cc)

    -- A worker whose unit is done may be given another.
    pub done-Fresh : {u : U} {w : Worker U R} → Assigned u w → w.done ≡ true → Fresh w
    done-Fresh (pending r) e = absurd (cc)
    done-Fresh (in_work r) e = absurd (cc)
    done-Fresh worked e = absurd (cc)
    done-Fresh done_looping e = fresh_looping true (some _)
    done-Fresh done_waiting e = fresh_waiting true (some _)

    -- A worker without a unit leaves its function in its first step after a shutdown, so that the
    -- caller's join ends.
    pub shut_down-exited :
        {w : Worker U R} → Fresh w → (worker_step process (shut_down w)).at ≡ exited
    unfolding worker_step shut_down
    shut_down-exited (fresh_looping d r) = refl
    shut_down-exited (fresh_waiting d r) = refl
