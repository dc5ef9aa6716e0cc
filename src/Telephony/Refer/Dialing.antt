-- ===== src/Telephony/Refer/Dialing.antt =====
-- When a callback dials a person.
use mathlib.Core.Path.{subst}
use ctrl_alt_ship.Prelude.{
  String, ◌≡◌, refl, ◌∙◌, ap, inl, inr, Bool, true, false, not, ◌&&◌, Option, some, List, ◌∷◌,
  arith, ok, err, Result-cases, Bool-cases, check-ok, check, given, given-ok, includes, &&-eq-true,
}
use ctrl_alt_ship.Telephony.Formats.{is_uuid, is_phone, transfer_target_phone}
use ctrl_alt_ship.Telephony.CallStatus.{forbidden, FormBody, form_field, is_same}
use ctrl_alt_ship.Telephony.Refer.{
  HandoffContext, dial, ReferCall, find, ReferDependencies, ReferRequest, form, or_empty,
  open_statuses, signed_call, durable, finish, reachable, target_is_authorized, reject, transfer,
  answer, handle,
}

module _ {Num : Type 0} (d : ReferDependencies) (request : ReferRequest Num) where
  -- The form and the call record are those of a signed request of the expected account.
  pub record Signed (body : FormBody) (call_id : String) : Type 0 where
    pub formed : form request.body ≡ some body
    pub account : is_same (form_field body "AccountSid") d.account_sid ≡ true
    pub signature : d.verify_signature request.url body request.signature ≡ true
    pub record_id :
        (parameter : Option String) × (d.url_parameter request.url ≡ some parameter)
        × (or_empty parameter ≡ call_id)
    pub record_form : is_uuid call_id ≡ true

  signed_call-ok :
      (body : FormBody) (call_id : String)
      → signed_call d request ≡ ok (body, call_id)
      → Signed body call_id
  unfolding signed_call
  signed_call-ok body call_id h =
      let (given_body, e, h₁) = given-ok _ h in
      let (trusted, h₂) = check-ok _ h₁ in
      let (parameter, f, h₃) = given-ok _ h₂ in
      let (formed, final) = check-ok _ h₃ in
      let (account, signature) = (&&-eq-true _ _).0 trusted in
      let signed : Signed given_body (or_empty parameter) = record {
        formed = e;
        account = account;
        signature = signature;
        record_id = (parameter, f, refl);
        record_form = formed;
      } in
      let same_body : given_body ≡ body = cc final in
      let same_id : or_empty parameter ≡ call_id = cc final in
      subst (λ b. Signed b call_id) same_body (subst (Signed given_body) same_id signed)

  signed_call-accepts :
      (body : FormBody) (call_id : String)
      → Signed body call_id
      → signed_call d request ≡ ok (body, call_id)
  unfolding signed_call check given
  signed_call-accepts body call_id s =
      let (parameter, e, f) = s.record_id in
      rw (s.formed, s.account, s.signature, e, f, s.record_form) refl

  module _ (log : List ReferCall) where
    -- The person who may be dialed: the recipient of the durable handoff of the call that the request is
    -- about, who is active, has a valid phone, which is the target asked for, and is not dialed yet.
    pub record MayDial (phone call_id : String) : Type 0 where
      pub body : FormBody
      pub context : HandoffContext
      pub signed : Signed body call_id
      pub known : d.find (find call_id ∷ log) ≡ ok (some context)
      pub call : is_same (form_field body "CallSid") context.twilio_call_sid ≡ true
      pub unfinished : request.finished ≡ false
      pub active : context.active ≡ true
      pub phone_form : is_phone context.phone ≡ true
      pub status : includes open_statuses context.handoff_status ≡ true
      pub target :
          is_same
            (transfer_target_phone (or_empty (form_field body "ReferTransferTarget")))
            context.phone
          ≡ true
      pub recipient : context.phone ≡ phone

    -- What the handler answers, and all that it has called.
    abbrev pub Dials : String → String → Type 0
    Dials phone call_id = handle d request log ≡ (ok (dial phone call_id), find call_id ∷ log)

    durable-accepts :
        (body : FormBody) (context : HandoffContext)
        → is_same (form_field body "CallSid") context.twilio_call_sid ≡ true
        → durable d request body (some context) ≡ ok context
    unfolding durable check given
    durable-accepts body context same = rw same refl

    MayDial-Dials : (phone call_id : String) → MayDial phone call_id → Dials phone call_id
    unfolding handle transfer
    MayDial-Dials phone call_id m =
        rw
          (
            signed_call-accepts m.body call_id m.signed,
            m.known,
            durable-accepts m.body m.context m.call,
            m.unfinished,
            m.active,
            m.phone_form,
            m.status,
            m.target,
            m.recipient,
          )
          refl

    durable-ok :
        (body : FormBody) (found : Option HandoffContext) (context : HandoffContext)
        → durable d request body found ≡ ok context
        → (found ≡ some context)
          × (is_same (form_field body "CallSid") context.twilio_call_sid ≡ true)
    unfolding durable
    durable-ok body found context h =
        let (given_context, e, h₁) = given-ok _ h in
        let (same, final) = check-ok _ h₁ in
        let path : given_context ≡ context = cc final in
        (
          e ∙ ap some path,
          subst (λ c. is_same (form_field body "CallSid") c.twilio_call_sid ≡ true) path same,
        )

    finish-dials-nobody :
        (body : FormBody) (context : HandoffContext) (calls : List ReferCall)
        (phone call_id : String)
        → ¬ ((finish d request body context calls).0 ≡ ok (dial phone call_id))
    unfolding finish check given
    finish-dials-nobody body context calls phone call_id h = ground arith

    reject-throws :
        (misdirected : Bool) (context : HandoffContext) (calls : List ReferCall)
        → (reject d request misdirected context calls).0 ≡ err forbidden
    unfolding reject
    reject-throws misdirected context calls = ground arith

    transfer-dials :
        (body : FormBody) (id : String) (context : HandoffContext) (calls : List ReferCall)
        (phone call_id : String)
        → (transfer d request body id context calls).0 ≡ ok (dial phone call_id)
        → (reachable d request context ≡ true)
          × (target_is_authorized d request body context ≡ true)
          × (context.phone ≡ phone)
          × (id ≡ call_id)
    unfolding transfer
    transfer-dials body id context calls phone call_id =
        elim (Bool-cases
          (reachable d request context && target_is_authorized d request body context)) [
            | inl e ↦ let (r, t) = (&&-eq-true _ _).0 e in rw e (λ h. (r, t, cc h, cc h))
            | inr e ↦ rw e (λ h. cc (
                reject-throws
                  (not (target_is_authorized d request body context) && reachable d request context)
                  context calls))
          ]

    answer-dials :
        (body : FormBody) (id : String) (context : HandoffContext) (calls : List ReferCall)
        (phone call_id : String) (finished : Bool)
        → (answer d request body id context finished calls).0 ≡ ok (dial phone call_id)
        → (finished ≡ false)
          × (reachable d request context ≡ true)
          × (target_is_authorized d request body context ≡ true)
          × (context.phone ≡ phone)
          × (id ≡ call_id)
    answer-dials body id context calls phone call_id true h =
        absurd (finish-dials-nobody body context calls phone call_id h)
    answer-dials body id context calls phone call_id false h =
        let (r, t, p, i) = transfer-dials body id context calls phone call_id h in
        (refl, r, t, p, i)

    handle-MayDial :
        (phone call_id : String)
        → (handle d request log).0 ≡ ok (dial phone call_id)
        → MayDial phone call_id
    unfolding handle
    handle-MayDial phone call_id = elim (Result-cases (signed_call d request)) [
      | inr (error, e) ↦ rw e (λ h. cc h)
      | inl ((body, id), e) ↦ elim (Result-cases (d.find (find id ∷ log))) [
        | inr (error, f) ↦ rw (e, f) (λ h. cc h)
        | inl (found, f) ↦ elim (Result-cases (durable d request body found)) [
          | inr (error, g) ↦ rw (e, f, g) (λ h. cc h)
          | inl (context, g) ↦
              rw (e, f, g)
                (λ h.
                  let (unfinished, r, target, recipient, same) =
                    answer-dials body id context (find id ∷ log) phone call_id request.finished h in
                  let (known, call) = durable-ok body found context g in
                  let (active_phone, status) = (&&-eq-true _ _).0 r in
                  let (active, phone_form) = (&&-eq-true _ _).0 active_phone in
                  subst (MayDial phone) same (record {
                    body = body;
                    context = context;
                    signed = signed_call-ok body id e;
                    known = f ∙ ap ok known;
                    call = call;
                    unfinished = unfinished;
                    active = active;
                    phone_form = phone_form;
                    status = status;
                    target = target;
                    recipient = recipient;
                  }))
        ]
      ]
    ]

    -- The handler answers with a dial just for the recipient of a durable handoff whose signed request it
    -- is and who may be dialed now, and it then has looked the handoff up and called nothing else.
    pub handle-Dials :
        (phone call_id : String)
        → ((handle d request log).0 ≡ ok (dial phone call_id) → MayDial phone call_id)
          × (MayDial phone call_id → Dials phone call_id)
    handle-Dials phone call_id = (handle-MayDial phone call_id, MayDial-Dials phone call_id)
