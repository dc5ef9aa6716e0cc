-- ===== src/Examples/Dashboard.antt =====
-- The dashboard's evidence and trace.
use ctrl_alt_ship.Prelude.{ℕ, String, refl, inl, true, List, [], ◌∷◌, Option, none, some, eqb}
use ctrl_alt_ship.Js.{num, str, end, field, codes}
use ctrl_alt_ship.CallFlow.{inbound}
use ctrl_alt_ship.Examples.Host.{arguments_of, digits_number}
use ctrl_alt_ship.Dashboard.Readers.{NumberHost}
use ctrl_alt_ship.Dashboard.Evidence.{EvidenceSegment, EvidenceEvent, caller, match_evidence_events}
use ctrl_alt_ship.Dashboard.Evidence.Nearest.{AllMatched, match_evidence_events-AllMatched}
use ctrl_alt_ship.Dashboard.Trace.{CallRow, EventRow, Names, Collation, to_operation_trace}
use ctrl_alt_ship.Dashboard.Trace.Lanes.{IsTrace, to_operation_trace-IsTrace}

abbrev segment : (id recorded_at : String) → EvidenceSegment
segment id recorded_at = record {
  id = id;
  call_id = "call-1";
  speaker = caller;
  content = some "yes";
  recorded_at = recorded_at;
  content_deleted_at = none;
}

abbrev happening : EvidenceEvent
happening = record {
  id = "e-1";
  call_id = some "call-1";
  event_type = "quote.received";
  title = "Quote received";
  detail = none;
  occurred_at = "50000";
}

abbrev clock : String → Option ℕ
clock s = some (digits_number 0 (codes s))

match_evidence_events-AllMatched_example :
    AllMatched clock (segment "s-1" "20000" ∷ segment "s-2" "60000" ∷ []) (happening ∷ []) (
      match_evidence_events clock
        (happening ∷ [])
        (segment "s-1" "20000" ∷ segment "s-2" "60000" ∷ []))
match_evidence_events-AllMatched_example =
    match_evidence_events-AllMatched clock (happening ∷ [])
      (segment "s-1" "20000" ∷ segment "s-2" "60000" ∷ [])

abbrev numbers : NumberHost ℕ
numbers = record {
  is_finite = λ n. true;
  number_of = λ s. digits_number 0 (codes s);
  text_of = λ n. "1";
  two_digits = λ n. "1";
  three_digits = λ n. "1";
  equal = eqb;
}

-- All texts are equal to a collation that looks at nothing.
abbrev any_order : Collation
any_order = record { le = λ a b. true; le_total = λ a b. inl refl; le_trans = λ a b c h k. refl }

abbrev names : Names
names = record { contacts = ("c-1", "Ana") ∷ []; providers = [] }

abbrev calls : List CallRow
calls =
    record {
      id = "call-1";
      contact_id = some "c-1";
      provider_id = none;
      direction = inbound;
      outcome = "completed";
      started_at = "1";
      ended_at = some "2";
    }
    ∷ []

abbrev events : List (EventRow ℕ)
events =
    record {
      id = "e-1";
      event_type = "quote.received";
      payload = arguments_of (field "reason" (str "fast") end);
      call_id = some "call-1";
      recording_checkpoint = num 3;
      occurred_at = "1";
    }
    ∷ []

to_operation_trace-IsTrace_example :
    IsTrace numbers
      (λ n. "1")
      any_order
      names
      calls
      events
      (to_operation_trace numbers (λ n. "1") any_order names calls events)
to_operation_trace-IsTrace_example =
    to_operation_trace-IsTrace numbers (λ n. "1") any_order names calls events
