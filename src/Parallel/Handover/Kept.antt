-- ===== src/Parallel/Handover/Kept.antt =====
-- Every step of a worker, and every wake-up, keeps the invariant of the hand-over.
use blake.Base.{ℕ, ◌<◌, ◌≡◌, ◌≢◌, refl, ap, ◌∙◌, subst, arith}
use blake.Base.{true, false, ◌==◌, if-cases, Bool-cases, inl, inr}
use blake.Base.{eq→==, ne→not_==, ==→eq, not_==→ne}
use blake.Parallel.Handover.{
  Place, looping, waiting_work, working, finishing, exited, Worker, Caller, assigning, testing,
  blocked, collecting, put, worker_step, reported,
}
use blake.Parallel.Handover.Stages.{
  Fresh, Assigned, pending, in_work, worked, done_looping, done_waiting, worker_step-Assigned,
  worker_step-Fresh, worker_step-done,
}
use blake.Parallel.Handover.Invariant.{
  Inv, handed, passed, Fits, Waits, put_all, put_same, put_other, passed-le-handed,
}

module _ {U R : Type 0} (process : U → R) (count : ℕ) (unit : ℕ → U) where
  reported-handed :
      (p : Place U) (i : ℕ) (c : Caller)
      → handed process count unit (reported p i c) ≡ handed process count unit c
  reported-handed finishing i (blocked k) =
      if-cases (λ (d : Caller). handed process count unit d ≡ count) (k == i) _ _ (λ _. refl)
        (λ _. refl)
  reported-handed finishing i (assigning k) = refl
  reported-handed finishing i (testing k) = refl
  reported-handed finishing i collecting = refl
  reported-handed looping i c = refl
  reported-handed waiting_work i c = refl
  reported-handed (working u) i c = refl
  reported-handed exited i c = refl

  reported-passed :
      (p : Place U) (i : ℕ) (c : Caller)
      → passed process count unit (reported p i c) ≡ passed process count unit c
  reported-passed finishing i (blocked k) =
      if-cases (λ (d : Caller). passed process count unit d ≡ k) (k == i) _ _ (λ _. refl)
        (λ _. refl)
  reported-passed finishing i (assigning k) = refl
  reported-passed finishing i (testing k) = refl
  reported-passed finishing i collecting = refl
  reported-passed looping i c = refl
  reported-passed waiting_work i c = refl
  reported-passed (working u) i c = refl
  reported-passed exited i c = refl

  reported-Fits :
      (p : Place U) (i : ℕ) (c : Caller)
      → Fits process count unit c
      → Fits process count unit (reported p i c)
  reported-Fits finishing i (blocked k) h =
      if-cases (λ (d : Caller). Fits process count unit d) (k == i) _ _ (λ _. omega arith) (λ _. h)
  reported-Fits finishing i (assigning k) h = h
  reported-Fits finishing i (testing k) h = h
  reported-Fits finishing i collecting h = h
  reported-Fits looping i c h = h
  reported-Fits waiting_work i c h = h
  reported-Fits (working u) i c h = h
  reported-Fits exited i c h = h

  -- The worker that the caller waits for reports the end of its unit, or is still not done.
  own_step :
      {u : U} {w : Worker U R}
      → Assigned process u w
      → w.done ≡ false
      → (k i : ℕ) (ws : ℕ → Worker U R) → k ≡ i
      → Waits process count unit (reported w.at i (blocked k)) (put i (worker_step process w) ws)
  unfolding worker_step
  own_step (pending r) d k i ws e = ap (λ (w : Worker U R). w.done) (put_same i k _ ws e)
  own_step (in_work r) d k i ws e = ap (λ (w : Worker U R). w.done) (put_same i k _ ws e)
  own_step worked d k i ws e = rw (eq→== k i e) tt
  own_step done_looping d k i ws e = absurd (cc)
  own_step done_waiting d k i ws e = absurd (cc)

  other_step :
      (p : Place U) (k i : ℕ) (w : Worker U R) (ws : ℕ → Worker U R)
      → k ≢ i
      → (ws k).done ≡ false
      → Waits process count unit (reported p i (blocked k)) (put i w ws)
  other_step finishing k i w ws n d =
      rw (ne→not_== k i n) (ap (λ (w : Worker U R). w.done) (put_other i k w ws n) ∙ d)
  other_step looping k i w ws n d = ap (λ (w : Worker U R). w.done) (put_other i k w ws n) ∙ d
  other_step waiting_work k i w ws n d = ap (λ (w : Worker U R). w.done) (put_other i k w ws n) ∙ d
  other_step (working u) k i w ws n d = ap (λ (w : Worker U R). w.done) (put_other i k w ws n) ∙ d
  other_step exited k i w ws n d = ap (λ (w : Worker U R). w.done) (put_other i k w ws n) ∙ d

  quiet-Waits :
      (p : Place U) (i : ℕ) (c : Caller) (ws : ℕ → Worker U R)
      → ((k : ℕ) → c ≢ blocked k)
      → Waits process count unit (reported p i c) ws
  quiet-Waits p i (blocked k) ws n = absurd (n k refl)
  quiet-Waits finishing i (assigning k) ws n = tt
  quiet-Waits finishing i (testing k) ws n = tt
  quiet-Waits finishing i collecting ws n = tt
  quiet-Waits looping i (assigning k) ws n = tt
  quiet-Waits looping i (testing k) ws n = tt
  quiet-Waits looping i collecting ws n = tt
  quiet-Waits waiting_work i (assigning k) ws n = tt
  quiet-Waits waiting_work i (testing k) ws n = tt
  quiet-Waits waiting_work i collecting ws n = tt
  quiet-Waits (working u) i (assigning k) ws n = tt
  quiet-Waits (working u) i (testing k) ws n = tt
  quiet-Waits (working u) i collecting ws n = tt
  quiet-Waits exited i (assigning k) ws n = tt
  quiet-Waits exited i (testing k) ws n = tt
  quiet-Waits exited i collecting ws n = tt

  worker-Waits :
      (c : Caller) (ws : ℕ → Worker U R) (i : ℕ)
      → Inv process count unit c ws
      → Waits process count unit (reported (ws i).at i c) (put i (worker_step process (ws i)) ws)
  worker-Waits (assigning k) ws i v = quiet-Waits _ i (assigning k) _ (λ k' e. absurd (cc))
  worker-Waits (testing k) ws i v = quiet-Waits _ i (testing k) _ (λ k' e. absurd (cc))
  worker-Waits collecting ws i v = quiet-Waits _ i collecting _ (λ k' e. absurd (cc))
  worker-Waits (blocked k) ws i v = elim (Bool-cases (k == i)) [
    | inl t ↦
        let e = ==→eq k i t in
        let own = subst (λ j. Assigned process (unit j) (ws j)) e (v.given k v.fits) in
        own_step own (subst (λ j. (ws j).done ≡ false) e v.waits) k i ws e
    | inr t ↦ other_step (ws i).at k i _ ws (not_==→ne k i t) v.waits
  ]

  pub run_worker-Inv :
      (c : Caller) (ws : ℕ → Worker U R) (i : ℕ)
      → i < count
      → Inv process count unit c ws
      → Inv process count unit (reported (ws i).at i c) (put i (worker_step process (ws i)) ws)
  run_worker-Inv c ws i lt v =
      let same_handed = reported-handed (ws i).at i c in
      let same_passed = reported-passed (ws i).at i c in
      record {
        fits = reported-Fits (ws i).at i c v.fits;
        ready = λ j hj h.
            put_all (λ _ w. Fresh w) i _ ws j
              (λ e. worker_step-Fresh process (v.ready i lt (omega (arith, e, h, same_handed))))
              (λ n. v.ready j hj (omega (arith, h, same_handed)));
        given = λ j h.
            put_all (λ k w. Assigned process (unit k) w) i _ ws j
              (λ e. worker_step-Assigned process (v.given i (omega (arith, e, h, same_handed))))
              (λ n. v.given j (omega (arith, h, same_handed)));
        seen = λ j h.
            put_all (λ _ (w : Worker U R). w.done ≡ true) i _ ws j
              (λ e.
                let before : i < passed process count unit c = omega (arith, e, h, same_passed) in
                worker_step-done process
                  (v.given i (omega (arith, before, passed-le-handed process count unit c v.fits)))
                  (v.seen i before))
              (λ n. v.seen j (omega (arith, h, same_passed)));
        waits = worker-Waits c ws i v;
      }
