-- ===== src/Parallel/Handover/Measure.antt =====
-- A number that every step of the hand-over lowers, and a wake-up for no reason raises by one at
-- most.
use blake.Base.{
  ℕ, zero, suc, ◌+◌, ◌-◌, ◌*◌, ◌<◌, ◌≤◌, ◌≡◌, refl, ap, ap₂, arith, Option, none, some,
}
use blake.Base.{◌==◌, if-cases, Bool-cases, inl, inr}
use blake.Base.{==→eq, not_==→ne}
use blake.Parallel.Handover.{
  Place, looping, waiting_work, working, finishing, exited, Worker, Caller, assigning, testing,
  blocked, collecting, put, assigned, worker_step, CanRun, work_done, reported,
}
use blake.Parallel.Handover.Stages.{
  Fresh, fresh_looping, fresh_waiting, Assigned, pending, in_work, worked, done_looping,
  done_waiting,
}
use blake.Parallel.Handover.Invariant.{put_same, put_other}

-- The steps that are left to a worker at a place, with or without a unit to take.
abbrev pub rank_at : {U : Type 0} → Place U → Option U → ℕ
rank_at looping none = 1
rank_at looping (some u) = 5
rank_at waiting_work o = 0
rank_at (working u) o = 4
rank_at finishing o = 3
rank_at exited o = 0

module _ {U R : Type 0} where
  abbrev pub rank : Worker U R → ℕ
  rank w = rank_at w.at w.work

  unfoldable pub ranks : ℕ → (ℕ → Worker U R) → ℕ
  ranks zero ws = 0
  ranks (suc n) ws = rank (ws n) + ranks n ws

  ranks-put_outside :
      (n i : ℕ) (w : Worker U R) (ws : ℕ → Worker U R) → n ≤ i → ranks n (put i w ws) ≡ ranks n ws
  unfolding ranks
  ranks-put_outside zero i w ws h = refl
  ranks-put_outside (suc n) i w ws h =
      ap₂ ◌+◌ (ap rank (put_other i n w ws (λ e. omega (arith, e))))
        (ranks-put_outside n i w ws (omega arith))

  -- One entry changes the sum by the difference of its ranks.
  pub ranks-put :
      (n i : ℕ) (w : Worker U R) (ws : ℕ → Worker U R)
      → i < n
      → ranks n (put i w ws) + rank (ws i) ≡ ranks n ws + rank w
  unfolding ranks
  ranks-put zero i w ws h = absurd (omega arith)
  ranks-put (suc n) i w ws h = elim (Bool-cases (n == i)) [
    | inl t ↦
        let e = ==→eq n i t in
        omega (
          arith,
          ap rank (put_same i n w ws e),
          ap (λ j. rank (ws j)) e,
          ranks-put_outside n i w ws (omega (arith, e)),
        )
    | inr t ↦
        let d = not_==→ne n i t in
        omega (arith, ap rank (put_other i n w ws d), ranks-put n i w ws (omega (arith, d)))
  ]

-- The steps that are left to the caller, at a price that pays for those of the workers.
abbrev pub caller_rank : ℕ → Caller → ℕ
caller_rank count (assigning k) = 6 * (count - k) + (2 * count + 2)
caller_rank count (testing k) = 2 * (count - k) + 1
caller_rank count (blocked k) = 2 * (count - k)
caller_rank count collecting = 0

work_done-rank :
    (count i : ℕ) (c : Caller) → caller_rank count (work_done i c) ≤ caller_rank count c + 1
work_done-rank count i (assigning k) = omega arith
work_done-rank count i (testing k) = omega arith
work_done-rank count i (blocked k) =
    if-cases (λ (d : Caller). caller_rank count d ≤ 2 * (count - k) + 1) (k == i) _ _
      (λ _. omega arith) (λ _. omega arith)
work_done-rank count i collecting = omega arith

module _ {U R : Type 0} (process : U → R) (count i : ℕ) (c : Caller) where
  pub Assigned-down :
      {u : U} {w : Worker U R}
      → Assigned process u w
      → CanRun w.at
      → rank (worker_step process w) + caller_rank count (reported w.at i c)
        < rank w + caller_rank count c
  unfolding worker_step
  Assigned-down (pending r) h = omega arith
  Assigned-down (in_work r) h = omega arith
  Assigned-down worked h = omega (arith, work_done-rank count i c)
  Assigned-down done_looping h = omega arith
  Assigned-down done_waiting h = absurd h

  pub Assigned-woken :
      {u : U} {w : Worker U R}
      → Assigned process u w
      → w.at ≡ waiting_work
      → rank (record w { at = looping }) ≤ 1
  Assigned-woken (pending r) e = absurd (cc)
  Assigned-woken (in_work r) e = absurd (cc)
  Assigned-woken worked e = absurd (cc)
  Assigned-woken done_looping e = omega arith
  Assigned-woken done_waiting e = omega arith

  pub Fresh-woken : {w : Worker U R} → Fresh w → rank (record w { at = looping }) ≤ 1
  Fresh-woken (fresh_looping d r) = omega arith
  Fresh-woken (fresh_waiting d r) = omega arith

  pub Fresh-down :
      {w : Worker U R}
      → Fresh w
      → CanRun w.at
      → rank (worker_step process w) + caller_rank count (reported w.at i c)
        < rank w + caller_rank count c
  unfolding worker_step
  Fresh-down (fresh_looping d r) h = omega arith
  Fresh-down (fresh_waiting d r) h = absurd h

pub assigned-rank : {U R : Type 0} (u : U) {w : Worker U R} → Fresh w → rank (assigned u w) ≡ 5
unfolding assigned
assigned-rank u (fresh_looping d r) = refl
assigned-rank u (fresh_waiting d r) = refl
