-- ===== src/Dashboard/Evidence.antt =====
-- backend/src/domain/call-evidence.ts: events beside the transcript segments that are near in time.
pub mod Order
pub mod Nearest
use ctrl_alt_ship.Prelude.{
  ℕ, ◌+◌, ◌-◌, String, Bool, true, false, ◌&&◌, ◌||◌, List, [], ◌∷◌, map, Option, none, some, ltb,
  leb, eqb, if◌then◌else◌, ◌==◌,
}
use ctrl_alt_ship.Messages.Texts.{Text, utf16}
use ctrl_alt_ship.Dashboard.Evidence.Order.{units_lt}

pub data Speaker : Type 0 where
  caller tango : Speaker

pub record EvidenceSegment : Type 0 where
  pub id : String
  pub call_id : String
  pub speaker : Speaker
  pub content : Option String
  pub recorded_at : String
  pub content_deleted_at : Option String

pub record EvidenceEvent : Type 0 where
  pub id : String
  pub call_id : Option String
  pub event_type : String
  pub title : String
  pub detail : Option String
  pub occurred_at : String

-- `{ segmentId, offsetSeconds }`, with the offset in milliseconds.
pub record EvidenceMatch : Type 0 where
  pub segment_id : String
  pub offset_ms : ℕ

abbrev pub window_ms : ℕ
window_ms = 30000

-- `left < right` of texts
abbrev pub text_lt : String → String → Bool
text_lt left right = units_lt (utf16 left) (utf16 right)

abbrev pub Near : Type 0
Near = Option (EvidenceSegment × ℕ)

abbrev pub paired : EvidenceSegment → Option ℕ → Near
paired segment none = none
paired segment (some delta) = some (segment, delta)

-- `delta < distance || (delta === distance && segment.recordedAt < nearest.recordedAt)`
unfoldable pub nearer : Near → Near → Near
nearer nearest none = nearest
nearer none (some pair) = some pair
nearer (some (s, distance)) (some (t, delta)) =
    if ltb delta distance || (eqb delta distance && text_lt t.recorded_at s.recorded_at)
    then some (t, delta)
    else some (s, distance)

abbrev pub match_of : Near → Option EvidenceMatch
match_of none = none
match_of (some (segment, distance)) =
    some (record { segment_id = segment.id; offset_ms = distance })

-- `Math.abs(a - b)`, where both are numbers
abbrev pub gap : Option ℕ → Option ℕ → Option ℕ
gap (some a) (some b) = some ((a - b) + (b - a))
gap a b = none

abbrev pub within : Option ℕ → Option ℕ
within none = none
within (some delta) = if leb delta window_ms then some delta else none

abbrev pub is_of : Option String → String → Bool
is_of none id = false
is_of (some call_id) id = id == call_id

-- `Date.parse` in milliseconds since the host's earliest date, where it is not NaN.
module _ (instant : String → Option ℕ) where
  -- The distance of a segment of the event's call that is inside the window.
  unfoldable pub candidate : EvidenceEvent → EvidenceSegment → Option ℕ
  candidate event segment =
      if is_of event.call_id segment.call_id
      then within (gap (instant segment.recorded_at) (instant event.occurred_at))
      else none

  -- The inner loop.
  unfoldable pub nearest_from : EvidenceEvent → Near → List EvidenceSegment → Near
  unfolding candidate nearer
  nearest_from event nearest [] = nearest
  nearest_from event nearest (segment ∷ segments) =
      nearest_from event (nearer nearest (paired segment (candidate event segment))) segments

  unfoldable pub match_evidence_events :
      List EvidenceEvent → List EvidenceSegment → List (EvidenceEvent × Option EvidenceMatch)
  unfolding nearest_from
  match_evidence_events events segments =
      map (λ event. (event, match_of (nearest_from event none segments))) events
