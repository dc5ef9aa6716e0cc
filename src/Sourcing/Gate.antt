-- ===== src/Sourcing/Gate.antt =====
-- What stands before the finalization of a round, and before a request to the judge.
use ctrl_alt_ship.Prelude.{
  ℕ, suc, String, ◌≡◌, ◌≢◌, refl, ◌&&◌, eq_iff, arith, ◌⊎◌, inl, inr, true, false, List, [], ◌∷◌,
  Option, none, some, Result, ok, err, Result-cases, Bool-cases, ◌==◌,
}
use ctrl_alt_ship.Js.{Runtime, Value}
use ctrl_alt_ship.ToolError.{Thrown}
use ctrl_alt_ship.Sourcing.{
  Prepared, Retry, ReviewCall, prepare, find_review, judge, record_review, finalize_sourcing,
  ReviewDependencies, Reviews, Outcome, member, is_true, truthy, pending, find_retry,
  parse_prepared, is_pending, conclude, ask_judge, finalize, prepared_with, reviewed, cached_with,
  judged_with, saved_with,
}

module _ {Num : Type 0} where
  abbrev finalizations : List (ReviewCall Num) → ℕ
  finalizations [] = 0
  finalizations (finalize_sourcing id ∷ log) = suc (finalizations log)
  finalizations (prepare id ∷ log) = finalizations log
  finalizations (find_review id hash ∷ log) = finalizations log
  finalizations (judge context ∷ log) = finalizations log
  finalizations (record_review id hash review ∷ log) = finalizations log

  abbrev judgements : List (ReviewCall Num) → ℕ
  judgements [] = 0
  judgements (judge context ∷ log) = suc (judgements log)
  judgements (prepare id ∷ log) = judgements log
  judgements (find_review id hash ∷ log) = judgements log
  judgements (record_review id hash review ∷ log) = judgements log
  judgements (finalize_sourcing id ∷ log) = judgements log

module _ (js : Runtime) (d : ReviewDependencies js) (operation_id : String)
    (s : Reviews js.Num) where
  abbrev prepared_log : List (ReviewCall js.Num)
  prepared_log = prepare operation_id ∷ s.log

  abbrev found_log : Prepared js.Num → List (ReviewCall js.Num)
  found_log p = find_review operation_id p.input_hash ∷ prepared_log

  abbrev judged_log : Prepared js.Num → List (ReviewCall js.Num)
  judged_log p = judge p.context ∷ found_log p

  -- The database holds a valid preparation of this operation.
  abbrev IsFor : Prepared js.Num → Type 0
  IsFor p =
      (v : Value js.Num) × (d.prepare prepared_log ≡ ok v)
      × (parse_prepared d.is_uuid v ≡ ok p)
      × (p.operation_id == operation_id ≡ true)

  -- A review of this very input is stored, or has just been given and saved.
  abbrev Reviewed : Prepared js.Num → Type 0
  Reviewed p =
      ((id : String) × (d.find_review (found_log p) ≡ ok (some id)))
      ⊎ ((review : Value js.Num) × (answer : Value js.Num) × (d.judge (judged_log p) ≡ ok review)
          × (d.record_review (record_review operation_id p.input_hash review ∷ judged_log p)
              ≡ ok answer)
          × (truthy js d (member answer "saved") ≡ true))

  -- The operation's entry, if there is one, is of another input or its time is over.
  abbrev pub IsFree : List (Retry js.Num) → (input_hash : String) → Type 0
  IsFree [] input_hash = Unit
  IsFree (r ∷ rs) input_hash =
      ((r.operation_id ≡ operation_id)
        × ((r.input_hash ≢ input_hash) ⊎ (js.lt d.now r.until ≡ false)))
      ⊎ ((r.operation_id ≢ operation_id) × IsFree rs input_hash)

  -- The first entry bars this input until a minute from now.
  abbrev pub IsBarred : List (Retry js.Num) → (input_hash : String) → Type 0
  IsBarred [] input_hash = ⊥
  IsBarred (r ∷ rs) input_hash =
      (r.operation_id ≡ operation_id) × (r.input_hash ≡ input_hash) × (r.until ≡ d.retry_at)

  -- No review of this input is stored, and the judge has not just failed at it.
  abbrev Unreviewed : Prepared js.Num → Type 0
  Unreviewed p = (d.find_review (found_log p) ≡ ok none) × IsFree s.retries p.input_hash

  -- Where the judge has failed, the input is barred.
  abbrev Remembers : List (Retry js.Num) → Prepared js.Num → Type 0
  Remembers retries p =
      ((review : Value js.Num) × (d.judge (judged_log p) ≡ ok review))
      ⊎ ((e : Thrown) × (d.judge (judged_log p) ≡ err e) × IsBarred retries p.input_hash)

  pending-IsFree :
      (retries : List (Retry js.Num)) (input_hash : String)
      → pending js d (find_retry retries operation_id) input_hash ≡ false
      → IsFree retries input_hash
  pending-IsFree [] input_hash h = tt
  pending-IsFree (r ∷ rs) input_hash h = elim (Bool-cases (r.operation_id == operation_id)) [
    | inl same ↦
        let h' : (r.input_hash == input_hash && js.lt d.now r.until) ≡ false = rw same at h in
        inl (
          (eq_iff r.operation_id operation_id).0 same,
          ground (arith, eq_iff r.input_hash input_hash),
        )
    | inr other ↦
        let h' = rw other at h in
        inr (
          λ e. cc (other, (eq_iff r.operation_id operation_id).1 e),
          pending-IsFree rs input_hash h',
        )
  ]

  abbrev OnceWhere : (before after : ℕ) → (Prepared js.Num → Type 0) → Type 0
  OnceWhere before after P =
      (after ≡ before) ⊎ ((after ≡ suc before) × (p : Prepared js.Num) × IsFor p × P p)

  pub record IsGated (o : Outcome js d) : Type 0 where
    pub finalized : OnceWhere (finalizations s.log) (finalizations o.1.log) Reviewed
    pub judged :
        OnceWhere
          (judgements s.log)
          (judgements o.1.log)
          (λ p. Unreviewed p × Remembers o.1.retries p)

  conclude-log :
      (t : Reviews js.Num)
      → (conclude js d operation_id t).1.log ≡ finalize_sourcing operation_id ∷ t.log
  unfolding conclude
  conclude-log t =
      elim (Result-cases (d.finalize_sourcing (finalize_sourcing operation_id ∷ t.log))) [
        | inl (v, e) ↦ rw e
        | inr (error, e) ↦ rw e
      ]

  module _ (p : Prepared js.Num) (fits : IsFor p) where
    saved_with-IsGated :
        (review : Value js.Num) (retries : List (Retry js.Num)) (r : Result Thrown (Value js.Num))
        → d.record_review (record_review operation_id p.input_hash review ∷ judged_log p) ≡ r
        → d.judge (judged_log p) ≡ ok review
        → Unreviewed p
        → IsGated (
            saved_with js d operation_id
              (record {
                retries = retries;
                log = record_review operation_id p.input_hash review ∷ judged_log p;
              })
              r)
    saved_with-IsGated review retries (err error) e given_review new = record {
      finalized = inl refl;
      judged = inr (refl, p, fits, (new, inl (review, given_review)));
    }
    saved_with-IsGated review retries (ok answer) e given_review new =
        elim (Bool-cases (truthy js d (member answer "saved"))) [
          | inl saved ↦
              rw (saved, conclude-log)
                (record {
                  finalized = inr (refl, p, fits, inr (review, answer, given_review, e, saved));
                  judged = inr (refl, p, fits, (new, inl (review, given_review)));
                })
          | inr stale ↦ rw stale (record {
            finalized = inl refl;
            judged = inr (refl, p, fits, (new, inl (review, given_review)));
          })
        ]

    judged_with-IsGated :
        (r : Result Thrown (Value js.Num))
        → d.judge (judged_log p) ≡ r
        → Unreviewed p
        → IsGated
            (judged_with js d operation_id p (record { retries = s.retries; log = judged_log p }) r)
    judged_with-IsGated (err error) e new = record {
      finalized = inl refl;
      judged = inr (refl, p, fits, (new, inr (error, e, (refl, refl, refl))));
    }
    judged_with-IsGated (ok review) e new = saved_with-IsGated review _ _ refl e new

    cached_with-IsGated :
        (r : Result Thrown (Option String))
        → d.find_review (found_log p) ≡ r
        → IsGated
            (cached_with js d operation_id p (record { retries = s.retries; log = found_log p }) r)
    unfolding ask_judge
    cached_with-IsGated (err error) e = record { finalized = inl refl; judged = inl refl }
    cached_with-IsGated (ok (some id)) e = record {
      finalized = rw conclude-log (inr (refl, p, fits, inl (id, e)));
      judged = rw conclude-log (inl refl);
    }
    cached_with-IsGated (ok none) e =
        elim (Bool-cases
          (is_pending js d operation_id p (record { retries = s.retries; log = found_log p }))) [
            | inl wait ↦ rw wait (record { finalized = inl refl; judged = inl refl })
            | inr free ↦
                rw free (judged_with-IsGated _ refl (e, pending-IsFree s.retries p.input_hash free))
          ]

  reviewed-IsGated :
      (v : Value js.Num) (r : Result Thrown (Prepared js.Num))
      → d.prepare prepared_log ≡ ok v
      → parse_prepared d.is_uuid v ≡ r
      → IsGated (reviewed js d operation_id (record { retries = s.retries; log = prepared_log }) r)
  reviewed-IsGated v (err error) e parsed = record { finalized = inl refl; judged = inl refl }
  reviewed-IsGated v (ok p) e parsed = elim (Bool-cases (p.operation_id == operation_id)) [
    | inl same ↦ rw same (cached_with-IsGated p (v, e, parsed, same) _ refl)
    | inr other ↦ rw other (record { finalized = inl refl; judged = inl refl })
  ]

  prepared_with-IsGated :
      (r : Result Thrown (Value js.Num))
      → d.prepare prepared_log ≡ r
      → IsGated
          (prepared_with js d operation_id (record { retries = s.retries; log = prepared_log }) r)
  prepared_with-IsGated (err error) e = record { finalized = inl refl; judged = inl refl }
  prepared_with-IsGated (ok v) e = elim (Bool-cases (is_true (member v "ready"))) [
    | inl ready ↦ rw ready (reviewed-IsGated v _ e refl)
    | inr wait ↦ rw wait (record { finalized = inl refl; judged = inl refl })
  ]

  -- A run asks the database to finalize at most once, and only behind a valid preparation of this
  -- operation whose input has a stored review or one that was just given and saved. It asks the judge
  -- at most once, and only about an input with no stored review for which the operation's entry in
  -- the map is not in force; where he fails, the entry is then this input's, with the time to wait for.
  pub finalize-IsGated : IsGated (finalize js d operation_id s)
  unfolding finalize
  finalize-IsGated = prepared_with-IsGated _ refl
