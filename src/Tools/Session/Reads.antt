-- ===== src/Tools/Session/Reads.antt =====
-- `refresh` only reads states, and leaves the pending escalation alone.
use ctrl_alt_ship.Prelude.{◌≡◌, refl, Bool, true, false, some, List, ◌∷◌, Result, ok, err, ◌∙◌}
use ctrl_alt_ship.ToolError.{Thrown}
use ctrl_alt_ship.ProviderState.{provider_inbound, provider_outbound}
use ctrl_alt_ship.Tools.Session.Definitions.{Setup, CallToolSession, has_service}
use ctrl_alt_ship.Tools.Session.Execution.{
  SessionCall, read_client, read_quote, read_booking, invoke, Services, Method, next, perform,
  update, when, ◌>>=◌, ◌>>◌, refresh, read_client_state, read_quote_state, read_booking_state,
}

abbrev pub is_read : {Num : Type 0} → SessionCall Num → Bool
is_read (invoke name args invocation) = false
is_read _ = true

-- Only states were read since.
pub data Quiet {Num : Type 0} (log : List (SessionCall Num)) : List (SessionCall Num) → Type 0 where
  same : Quiet log log
  also_read :
      {l : List (SessionCall Num)} {c : SessionCall Num}
      → Quiet log l
      → is_read c ≡ true
      → Quiet log (c ∷ l)

-- A method that only reads states and leaves the pending escalation alone.
pub record IsRead {Num A : Type 0} (m : Method Num A) : Type 0 where
  pub at :
      (log : List (SessionCall Num)) (s : CallToolSession Num) (l : List (SessionCall Num))
      → Quiet log l
      → Quiet log (m s l).2 × ((m s l).1.pending_escalation ≡ s.pending_escalation)

module _ {Num : Type 0} where
  IsRead-perform :
      {A : Type 0} (c : SessionCall Num) (answer : List (SessionCall Num) → Result Thrown A)
      → is_read c ≡ true
      → IsRead (perform c answer)
  IsRead-perform c answer h = record { at = λ log s l q. (also_read q h, refl) }

  IsRead-update :
      (f : CallToolSession Num → CallToolSession Num)
      → ((s : CallToolSession Num) → (f s).pending_escalation ≡ s.pending_escalation)
      → IsRead (update f)
  IsRead-update f h = record { at = λ log s l q. (q, h s) }

  IsRead-when : (b : Bool) (m : Method Num Unit) → IsRead m → IsRead (when b m)
  IsRead-when true m k = record { at = λ log s l q. k.at log s l q }
  IsRead-when false m k = record { at = λ log s l q. (q, refl) }

  IsRead-next :
      {A B : Type 0} (r : Result Thrown A) (f : A → Method Num B) (log : List (SessionCall Num))
      (s : CallToolSession Num) (l : List (SessionCall Num))
      → ((a : A) → IsRead (f a))
      → Quiet log l
      → Quiet log (next r f s l).2 × ((next r f s l).1.pending_escalation ≡ s.pending_escalation)
  IsRead-next (ok a) f log s l k q = (k a).at log s l q
  IsRead-next (err e) f log s l k q = (q, refl)

  IsRead-bind :
      {A B : Type 0} (m : Method Num A) (f : A → Method Num B)
      → IsRead m
      → ((a : A) → IsRead (f a))
      → IsRead (m >>= f)
  IsRead-bind m f km kf = record {
    at = λ log s l q.
        let (q', p) = km.at log s l q in
        let (q'', p') = IsRead-next (m s l).0 f log (m s l).1 (m s l).2 kf q' in (q'', p' ∙ p);
  }

  IsRead-then :
      {A B : Type 0} (m : Method Num A) (n : Method Num B) → IsRead m → IsRead n → IsRead (m >> n)
  IsRead-then m n km kn = IsRead-bind m (λ _. n) km (λ _. kn)

module _ {Num Output : Type 0} (u : Setup) (services : Services Num Output) where
  client-IsRead : IsRead (read_client_state u services)
  client-IsRead =
      IsRead-bind (perform read_client services.client_state) _
        (IsRead-perform read_client services.client_state refl)
        (λ found. IsRead-update (λ s. record s { state = some found }) (λ s. refl))

  quote-IsRead : IsRead (read_quote_state u services)
  quote-IsRead =
      IsRead-bind (perform read_quote services.quote_state) _
        (IsRead-perform read_quote services.quote_state refl)
        (λ found.
          IsRead-update (λ s. record s { provider_state = some (provider_outbound found) })
            (λ s. refl))

  booking-IsRead : IsRead (read_booking_state u services)
  booking-IsRead =
      IsRead-bind (perform read_booking services.booking_state) _
        (IsRead-perform read_booking services.booking_state refl)
        (λ found.
          IsRead-update (λ s. record s { provider_state = some (provider_inbound found) })
            (λ s. refl))

  pub refresh-IsRead : IsRead (refresh u services)
  unfolding refresh
  refresh-IsRead = IsRead-when (has_service u) _ (
      IsRead-then (update (λ s. record s { ready = false })) _
        (IsRead-update (λ s. record s { ready = false }) (λ s. refl))
        (IsRead-then (when u.client_service (read_client_state u services)) _
          (IsRead-when u.client_service _ client-IsRead)
          (IsRead-then (when u.provider_service (read_quote_state u services)) _
            (IsRead-when u.provider_service _ quote-IsRead)
            (IsRead-then (when u.booking_service (read_booking_state u services))
              (update (λ s. record s { ready = true }))
              (IsRead-when u.booking_service _ booking-IsRead)
              (IsRead-update (λ s. record s { ready = true }) (λ s. refl))))))
