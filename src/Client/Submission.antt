-- ===== src/Client/Submission.antt =====
-- What reaches the repository: exactly the commands whose arguments the service accepts.
use ctrl_alt_ship.Prelude.{
  String, ◌≡◌, ◌⊎◌, inl, inr, true, false, not, none, some, List, [], ◌∷◌, arith, err, eqb, ◌||◌,
  ◌&&◌, Bool-cases, Option-cases,
}
use ctrl_alt_ship.Js.{
  Runtime, Value, Fields, entries, get, has, only_keys, key_count, plain_object, is_blank,
}
use ctrl_alt_ship.CallFlow.{is_client}
use ctrl_alt_ship.Client.Types.{ClientCall, ClientRepository, ClientService}
use ctrl_alt_ship.Client.Fields.{is_reference, is_text, create, update, cancel, fields_ok}
use ctrl_alt_ship.Client.Mandate.{terms_ok, window_list, confirm}
use ctrl_alt_ship.Client.Accepted.{fields_ok_iff}
use ctrl_alt_ship.Checks.{Object, Object-at, invalid}
use ctrl_alt_ship.Client.Windows.{windows-decides}
use ctrl_alt_ship.Client.Commands.{
  ChangedFields, TermFields, arguments, Accepted, Reaches, Refuses, SubmitsAt,
}
use ctrl_alt_ship.Client.Authorization.{
  ClientRequest, create_with, update_with, cancel_with, confirm_with, handle,
}

module _ (js : Runtime) (repository : ClientRepository js.Num) (service : ClientService js.Num)
    (is_clients : is_client service.scope.flow ≡ true) (id : String) (given : is_blank id ≡ false)
    (log : List (ClientCall js.Num)) (v : Value js.Num) (fs : Fields js.Num)
    (e : plain_object v ≡ some fs) where
  create-submits : SubmitsAt js repository service (create_with v) id log fs
  unfolding create
  create-submits = elim (Bool-cases (fields_ok js false (entries fs))) [
    | inl passed ↦
        inl ((fields_ok_iff js false (entries fs)).0 passed, rw (is_clients, given, e, passed))
    | inr failed ↦ inr (
      λ d. let p = (fields_ok_iff js false (entries fs)).1 d in cc,
      (invalid, rw (is_clients, given, e, failed)),
    )
  ]

  cancel-submits : SubmitsAt js repository service (cancel_with v) id log fs
  unfolding cancel
  cancel-submits =
      elim (Bool-cases (
        eqb (key_count fs) 2
        && is_reference (get fs "operation_reference")
        && is_text (get fs "reason"))) [
          | inl passed ↦ inl (
            record { two = ground arith; reference = ground arith; reason = ground arith },
            rw (is_clients, given, e, passed),
          )
          | inr failed ↦ inr (
            λ d. ground (arith, d.two, d.reference, d.reason),
            (invalid, rw (is_clients, given, e, failed)),
          )
        ]

  update-submits : SubmitsAt js repository service (update_with v) id log fs
  unfolding update
  update-submits =
      elim (Bool-cases (
        only_keys ("operation_reference" ∷ "changes" ∷ []) fs
        && (not (has fs "operation_reference") || is_reference (get fs "operation_reference")))) [
          | inr failed ↦ inr (λ d. ground (arith, d.known, d.reference), (invalid, ground arith))
          | inl passed ↦ elim (Option-cases (plain_object (get fs "changes"))) [
            | inl missing ↦ inr (λ d. cc (d.changes.1), (invalid, ground arith))
            | inr (changes, found) ↦
                elim (Bool-cases
                  (fields_ok js true (entries changes) && not (eqb (key_count changes) 0))) [
                    | inr failed ↦ inr (
                      λ d.
                          let c =
                            Object-at (ChangedFields js) (get fs "changes") changes found
                              d.changes in
                          ground (
                            arith,
                            (fields_ok_iff js true (entries changes)).1 c.accepted,
                            c.some_change,
                          ),
                      (invalid, ground arith),
                    )
                    | inl ok_changes ↦ inl (
                      record {
                        known = ground arith;
                        reference = ground arith;
                        changes = (
                          changes,
                          found,
                          record {
                            accepted = (fields_ok_iff js true (entries changes)).0 (ground arith);
                            some_change = ground arith;
                          },
                        );
                      },
                      ground arith,
                    )
                  ]
          ]
        ]

  terms_ok_sound : terms_ok js service.state fs ≡ true → TermFields js service.state fs
  unfolding terms_ok
  terms_ok_sound h = record {
    complete = ground arith;
    known = ground arith;
    price = ground arith;
    currency = ground arith;
    days = ground arith;
    listed = ground arith;
  }

  terms_ok_complete : TermFields js service.state fs → terms_ok js service.state fs ≡ true
  unfolding terms_ok
  terms_ok_complete t = ground (arith, t.complete, t.known, t.price, t.currency, t.days, t.listed)

  confirm-submits : SubmitsAt js repository service (confirm_with v) id log fs
  unfolding confirm
  confirm-submits = elim (Bool-cases (terms_ok js service.state fs)) [
    | inr failed ↦
        inr (λ d. let h = terms_ok_complete d.0 in cc, (invalid, rw (is_clients, given, e, failed)))
    | inl passed ↦ elim (windows-decides js log (window_list js (get fs "action_windows"))) [
      | inr (other, (thrown, h)) ↦
          inr (λ d. other d.1, (thrown, rw (is_clients, given, e, passed, h)))
      | inl (windows, h) ↦
          inl ((terms_ok_sound passed, windows), rw (is_clients, given, e, passed, h))
    ]
  ]

module _ (js : Runtime) (repository : ClientRepository js.Num)
    (service : ClientService js.Num) where
  refuses_no_object :
      (request : ClientRequest js.Num) (id : String) (log : List (ClientCall js.Num))
      → is_client service.scope.flow ≡ true
      → is_blank id ≡ false
      → plain_object (arguments js repository service request) ≡ none
      → Refuses js repository service request id log
  unfolding create update cancel confirm
  refuses_no_object (create_with v) id log c given e = (invalid, rw (c, given, e))
  refuses_no_object (update_with v) id log c given e = (invalid, rw (c, given, e))
  refuses_no_object (cancel_with v) id log c given e = (invalid, rw (c, given, e))
  refuses_no_object (confirm_with v) id log c given e = (invalid, rw (c, given, e))

  submits-at :
      (request : ClientRequest js.Num) (id : String) (log : List (ClientCall js.Num))
      (fs : Fields js.Num)
      → is_client service.scope.flow ≡ true
      → is_blank id ≡ false
      → plain_object (arguments js repository service request) ≡ some fs
      → SubmitsAt js repository service request id log fs
  submits-at (create_with v) id log fs c given e =
      create-submits js repository service c id given log v fs e
  submits-at (update_with v) id log fs c given e =
      update-submits js repository service c id given log v fs e
  submits-at (cancel_with v) id log fs c given e =
      cancel-submits js repository service c id given log v fs e
  submits-at (confirm_with v) id log fs c given e =
      confirm-submits js repository service c id given log v fs e

  -- The arguments are accepted and the command reaches the repository, or neither.
  abbrev pub Submits : ClientRequest js.Num → String → List (ClientCall js.Num) → Type 0
  Submits request id log =
      ((fs : Fields js.Num) × (plain_object (arguments js repository service request) ≡ some fs)
        × Accepted js repository service request fs
        × Reaches js repository service request id log fs)
      ⊎ (¬ Object (Accepted js repository service request) (arguments js repository service request)
          × Refuses js repository service request id log)

  -- For a client's call and a tool call id that is not blank: a command whose arguments are of the
  -- accepted form, field by field, makes the one repository call that it stands for, whose answer is
  -- its own; any other throws and calls nothing.
  pub handle-Submits :
      (request : ClientRequest js.Num) (id : String) (log : List (ClientCall js.Num))
      → is_client service.scope.flow ≡ true
      → is_blank id ≡ false
      → Submits request id log
  handle-Submits request id log c given =
      elim (Option-cases (plain_object (arguments js repository service request))) [
        | inl missing ↦ inr (λ d. cc (d.1), refuses_no_object request id log c given missing)
        | inr (fs, e) ↦ elim (submits-at request id log fs c given e) [
          | inl (d, reaches) ↦ inl (fs, e, d, reaches)
          | inr (other, refuses) ↦
              inr
                (λ d. other (Object-at (Accepted js repository service request) _ fs e d), refuses)
        ]
      ]

  -- With a blank tool call id every command of a client is refused, and calls nothing.
  pub handle_blank_id :
      (request : ClientRequest js.Num) (id : String) (log : List (ClientCall js.Num))
      → is_client service.scope.flow ≡ true
      → is_blank id ≡ true
      → handle js repository service request id log ≡ (err invalid, log)
  unfolding create update cancel confirm
  handle_blank_id (create_with v) id log c h = rw (c, h)
  handle_blank_id (update_with v) id log c h = rw (c, h)
  handle_blank_id (cancel_with v) id log c h = rw (c, h)
  handle_blank_id (confirm_with v) id log c h = rw (c, h)
