-- ===== src/Workers/Outbox/Runs.antt =====
-- Runs of an outbox worker, for any delivery of one job that does not throw.
use ctrl_alt_ship.Prelude.{
  ℕ, true, false, List, [], ◌∷◌, ◌≡◌, refl, ap, ◌∙◌, Result, ok, err, Result-cases, Bool-cases,
  length, Act, perform, ◌>>◌, ◌⊎◌, inl, inr,
}
use ctrl_alt_ship.Workers.Outbox.{OutboxError, deliver_all, run_batch, run_once, Worker}

-- The last call of an action that has ended well.
pub then_perform-last :
    {C A : Type 0} (m : Act OutboxError C (Unit {0})) (c : C)
    (answer : List C → Result OutboxError A) (log : List C) (a : A)
    → ((m >> perform c answer) log).0 ≡ ok a
    → (rest : List C) × (((m >> perform c answer) log).1 ≡ c ∷ rest) × (answer (c ∷ rest) ≡ ok a)
then_perform-last m c answer log a = elim (Result-cases (m log).0) [
  | inl (x, e) ↦ rw e (λ fine. ((m log).1, refl, fine))
  | inr (error, e) ↦ rw e (λ fine. cc fine)
]

-- The jobs in order, each of them changing what was there.
abbrev pub after_all : {Job A : Type 0} → (Job → A → A) → List Job → A → A
after_all w [] a = a
after_all w (job ∷ jobs) a = after_all w jobs (w job a)

module _ {Job C A : Type 0} (view : List C → A) (w : Job → A → A) (claim : C)
    (answer : List C → Result OutboxError (List Job)) (worker : Worker C) where
  -- What became of a run: the claim failed, or all of the claimed jobs were delivered in order.
  abbrev pub Ran : Result OutboxError ℕ × Worker C → Type 0
  Ran (r, after) =
      ((e : OutboxError) × (answer (claim ∷ worker.log) ≡ err e)
        × (r ≡ err e)
        × (after.log ≡ claim ∷ worker.log))
      ⊎ ((jobs : List Job) × (answer (claim ∷ worker.log) ≡ ok jobs)
          × (r ≡ ok (length jobs))
          × (view after.log ≡ after_all w jobs (view worker.log)))

  abbrev pub Runs : Result OutboxError ℕ × Worker C → Type 0
  Runs (r, after) =
      ((worker.running ≡ true) × (r ≡ ok 0) × (after ≡ worker))
      ⊎ ((worker.running ≡ false) × (after.running ≡ false) × Ran (r, after))

module _ {Job C : Type 0} (deliver : Job → Act OutboxError C (Unit {0}))
    (calm : (job : Job) (log : List C) → (deliver job log).0 ≡ ok tt) where
  pub deliver_all-calm : (jobs : List Job) (log : List C) → (deliver_all deliver jobs log).0 ≡ ok tt
  unfolding deliver_all
  deliver_all-calm [] log = refl
  deliver_all-calm (job ∷ jobs) log = rw (calm job log) (deliver_all-calm jobs (deliver job log).1)

  module _ {A : Type 0} (view : List C → A) (w : Job → A → A)
      (one : (job : Job) (log : List C) → view (deliver job log).1 ≡ w job (view log)) where
    pub deliver_all-view :
        (jobs : List Job) (log : List C)
        → view (deliver_all deliver jobs log).1 ≡ after_all w jobs (view log)
    unfolding deliver_all
    deliver_all-view [] log = refl
    deliver_all-view (job ∷ jobs) log =
        rw (calm job log)
          (deliver_all-view jobs (deliver job log).1 ∙ ap (after_all w jobs) (one job log))

    module _ (claim : C) (answer : List C → Result OutboxError (List Job)) (worker : Worker C)
        (silent : (log : List C) → view (claim ∷ log) ≡ view log) where
      pub run_once-Runs :
          Runs view w claim answer worker (run_once 0 (run_batch claim answer deliver) worker)
      unfolding run_once run_batch
      run_once-Runs =
          let called = claim ∷ worker.log in
          elim (Bool-cases worker.running) [
            | inl e ↦ rw e (inl (refl, refl, refl))
            | inr e ↦ elim (Result-cases (answer called)) [
              | inr (error, f) ↦ rw (e, f) (inr (refl, refl, inl (error, refl, refl, refl)))
              | inl (jobs, f) ↦
                  let view_after =
                    deliver_all-view jobs called ∙ ap (after_all w jobs) (silent worker.log) in
                  rw (e, f, deliver_all-calm jobs called)
                    (inr (refl, refl, inr (jobs, refl, refl, view_after)))
            ]
          ]
