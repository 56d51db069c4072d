-- ===== src/Parallel/Handover/Invariant.antt =====
-- The invariant of the hand-over: who has been given a unit, who is done, and that the caller
-- waits only for a worker that is not done.
use native.Mathlib.Decide.{dec_lt}
use blake.Base.{ℕ, ◌<◌, ◌≤◌, ◌≡◌, ◌≢◌, sym, subst, arith}
use blake.Base.{true, false, ltb, ◌==◌, if-cases, Bool-cases, inl, inr}
use blake.Base.{eq→==, ne→not_==, ==→eq, not_==→ne, ltb→lt, not_ltb→le}
use blake.Parallel.Handover.{
  Worker, Caller, assigning, testing, blocked, collecting, System, put, caller_from,
}
use blake.Parallel.Handover.Stages.{Fresh, Assigned, assigned-Assigned}

pub put_same : {A : Type 0} (i j : ℕ) (a : A) (f : ℕ → A) → j ≡ i → put i a f j ≡ a
put_same i j a f e = rw (eq→== j i e)

pub put_other : {A : Type 0} (i j : ℕ) (a : A) (f : ℕ → A) → j ≢ i → put i a f j ≡ f j
put_other i j a f n = rw (ne→not_== j i n)

-- A predicate of every entry after a write.
pub put_all :
    {A : Type 0} (P : ℕ → A → Type 0) (i : ℕ) (a : A) (f : ℕ → A) (j : ℕ)
    → (j ≡ i → P i a)
    → (j ≢ i → P j (f j))
    → P j (put i a f j)
put_all P i a f j here there = elim (Bool-cases (j == i)) [
  | inl t ↦
      let e = ==→eq j i t in
      subst (P j) (sym (put_same i j a f e)) (subst (λ k. P k a) (sym e) (here e))
  | inr t ↦ let n = not_==→ne j i t in subst (P j) (sym (put_other i j a f n)) (there n)
]

module _ {U R : Type 0} (process : U → R) (count : ℕ) (unit : ℕ → U) where
  -- The number of workers that have a unit, and of those that the caller has seen done.
  abbrev pub handed : Caller → ℕ
  handed (assigning k) = k
  handed (testing k) = count
  handed (blocked k) = count
  handed collecting = count

  abbrev pub passed : Caller → ℕ
  passed (assigning k) = 0
  passed (testing k) = k
  passed (blocked k) = k
  passed collecting = count

  abbrev pub Fits : Caller → Type 0
  Fits (assigning k) = k ≤ count
  Fits (testing k) = k ≤ count
  Fits (blocked k) = k < count
  Fits collecting = Unit {0}

  -- No wake-up is lost: the worker that the caller waits for is not done.
  abbrev pub Waits : Caller → (ℕ → Worker U R) → Type 0
  Waits (assigning k) ws = Unit {0}
  Waits (testing k) ws = Unit {0}
  Waits (blocked k) ws = (ws k).done ≡ false
  Waits collecting ws = Unit {0}

  pub record Inv (c : Caller) (ws : ℕ → Worker U R) : Type 0 where
    pub fits : Fits c
    pub ready : (i : ℕ) → i < count → handed c ≤ i → Fresh (ws i)
    pub given : (i : ℕ) → i < handed c → Assigned process (unit i) (ws i)
    pub seen : (i : ℕ) → i < passed c → (ws i).done ≡ true
    pub waits : Waits c ws

  pub passed-le-handed : (c : Caller) → Fits c → passed c ≤ handed c
  passed-le-handed (assigning k) h = omega arith
  passed-le-handed (testing k) h = h
  passed-le-handed (blocked k) h = omega arith
  passed-le-handed collecting h = omega arith

  pub handed-le-count : (c : Caller) → Fits c → handed c ≤ count
  handed-le-count (assigning k) h = h
  handed-le-count (testing k) h = omega arith
  handed-le-count (blocked k) h = omega arith
  handed-le-count collecting h = omega arith

  -- The caller's steps.
  pub caller_from-Inv :
      (c : Caller) (ws : ℕ → Worker U R)
      → Inv c ws
      → (let t = caller_from count unit c (record { workers = ws; caller = c }) in
          Inv t.caller t.workers)
  unfolding caller_from
  caller_from-Inv (assigning k) ws v =
      if-cases (λ (t : System U R). Inv t.caller t.workers) (ltb k count) _ _
        (λ e.
          let lt = ltb→lt k count e in
          record {
            fits = omega arith;
            ready = λ i hi h.
                put_all (λ _ w. Fresh w) k _ ws i (λ e'. absurd (omega arith))
                  (λ n. v.ready i hi (omega arith));
            given = λ i h.
                put_all (λ j w. Assigned process (unit j) w) k _ ws i
                  (λ e'. assigned-Assigned process (unit k) (v.ready k lt (omega arith)))
                  (λ n. v.given i (omega arith));
            seen = λ i h. absurd (omega arith);
            waits = tt;
          })
        (λ e.
          let ge = not_ltb→le k count e in
          record {
            fits = omega arith;
            ready = λ i hi h. absurd (omega arith);
            given = λ i h. v.given i (omega (arith, v.fits));
            seen = λ i h. absurd (omega arith);
            waits = tt;
          })
  caller_from-Inv (testing k) ws v =
      if-cases (λ (t : System U R). Inv t.caller t.workers) (ltb k count) _ _
        (λ e.
          let lt = ltb→lt k count e in
          if-cases (λ (t : System U R). Inv t.caller t.workers) (ws k).done _ _
            (λ d. record {
              fits = omega arith;
              ready = v.ready;
              given = v.given;
              seen = λ i h. elim (dec_lt i k) [
                | yes p ↦ v.seen i p
                | no p ↦ let e' : k ≡ i = omega (arith, p) in subst (λ j. (ws j).done ≡ true) e' d
              ];
              waits = tt;
            })
            (λ d. record { fits = lt; ready = v.ready; given = v.given; seen = v.seen; waits = d }))
        (λ e.
          let ge = not_ltb→le k count e in
          record {
            fits = tt;
            ready = v.ready;
            given = v.given;
            seen = λ i h. v.seen i (omega arith);
            waits = tt;
          })
  caller_from-Inv (blocked k) ws v = v
  caller_from-Inv collecting ws v = v
