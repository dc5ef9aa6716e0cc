-- ===== src/Dashboard/Evidence/Nearest.antt =====
-- What a match is: the nearest segment of the event's call, the earliest of those.
use ctrl_alt_ship.Prelude.{
  ◌&&◌, ◌||◌, ℕ, ◌<◌, String, false, true, ◌≡◌, refl, sym, ap, ◌∙◌, ◌≤◌, ◌+◌, ◌-◌, eq_iff, ◌⊎◌, inl,
  inr, List, [], ◌∷◌, All, All-imp, Option, none, some, ltb, eqb, arith, Bool-cases,
}
use mathlib.Core.Path.{subst}
use ctrl_alt_ship.Messages.Texts.{utf16}
use ctrl_alt_ship.Dashboard.Evidence.Order.{units_lt_irrefl, units_lt_asym, units_ge_trans}
use ctrl_alt_ship.Dashboard.Evidence.{
  EvidenceSegment, EvidenceEvent, Near, text_lt, candidate, gap, within, is_of, paired, nearer,
  nearest_from, match_of, match_evidence_events, EvidenceMatch,
}

-- At least as near as the other, and not later than that where both are as near.
abbrev NoWorse : Near → Near → Type 0
NoWorse a none = Unit
NoWorse none (some t) = ⊥
NoWorse (some (s, distance)) (some (t, delta)) =
    (distance < delta) ⊎ ((distance ≡ delta) × (text_lt t.recorded_at s.recorded_at ≡ false))

NoWorse-refl : (a : Near) → NoWorse a a
NoWorse-refl none = tt
NoWorse-refl (some (s, distance)) = inr (refl, units_lt_irrefl (utf16 s.recorded_at))

NoWorse-trans : (a b c : Near) → NoWorse a b → NoWorse b c → NoWorse a c
NoWorse-trans a b none h k = tt
NoWorse-trans a none (some c) h k = absurd k
NoWorse-trans none (some b) (some c) h k = absurd h
NoWorse-trans (some (s, x)) (some (t, y)) (some (u, z)) h k =
    ground (arith, units_ge_trans (utf16 s.recorded_at) (utf16 t.recorded_at) (utf16 u.recorded_at))

nearer-NoWorse : (a b : Near) → NoWorse (nearer a b) a × NoWorse (nearer a b) b
unfolding nearer
nearer-NoWorse a none = (NoWorse-refl a, tt)
nearer-NoWorse none (some b) = (tt, NoWorse-refl (some b))
nearer-NoWorse (some (s, x)) (some (t, y)) =
    elim (Bool-cases (ltb y x || (eqb y x && text_lt t.recorded_at s.recorded_at))) [
      | inl closer ↦ rw closer (
        ground (arith, units_lt_asym (utf16 t.recorded_at) (utf16 s.recorded_at)),
        NoWorse-refl (some (t, y)),
      )
      | inr other ↦ rw other (NoWorse-refl (some (s, x)), ground arith)
    ]

nearer_either : (a b : Near) → (nearer a b ≡ a) ⊎ (nearer a b ≡ b)
unfolding nearer
nearer_either a none = inl refl
nearer_either none (some b) = inr refl
nearer_either (some (s, x)) (some (t, y)) =
    elim (Bool-cases (ltb y x || (eqb y x && text_lt t.recorded_at s.recorded_at))) [
      | inl closer ↦ inr (rw closer)
      | inr other ↦ inl (rw other)
    ]

module _ (instant : String → Option ℕ) (event : EvidenceEvent) where
  abbrev offer : EvidenceSegment → Near
  offer segment = paired segment (candidate instant event segment)

  -- It is what one of the segments offers.
  abbrev Offered : Near → List EvidenceSegment → Type 0
  Offered r [] = ⊥
  Offered r (segment ∷ segments) = (r ≡ offer segment) ⊎ Offered r segments

  pub record IsBest (segments : List EvidenceSegment) (r : Near) : Type 0 where
    pub offered : (r ≡ none) ⊎ Offered r segments
    pub best : All (λ segment. NoWorse r (offer segment)) segments

  abbrev scan : Near → List EvidenceSegment → Near
  scan = nearest_from instant event

  scan-NoWorse :
      (start : Near) (segments : List EvidenceSegment)
      → NoWorse (scan start segments) start
        × All (λ segment. NoWorse (scan start segments) (offer segment)) segments
  unfolding nearest_from
  scan-NoWorse start [] = (NoWorse-refl start, tt)
  scan-NoWorse start (segment ∷ segments) =
      let next = nearer start (offer segment) in
      let (first, rest) = scan-NoWorse next segments in
      let (over_start, over_offer) = nearer-NoWorse start (offer segment) in
      (
        NoWorse-trans (scan next segments) next start first over_start,
        (NoWorse-trans (scan next segments) next (offer segment) first over_offer, rest),
      )

  scan-Offered :
      (start : Near) (segments : List EvidenceSegment)
      → (scan start segments ≡ start) ⊎ Offered (scan start segments) segments
  unfolding nearest_from
  scan-Offered start [] = inl refl
  scan-Offered start (segment ∷ segments) =
      let next = nearer start (offer segment) in
      elim (scan-Offered next segments) [
        | inr later ↦ inr (inr later)
        | inl same ↦ elim (nearer_either start (offer segment)) [
          | inl old ↦ inl (same ∙ old)
          | inr new ↦ inr (inl (same ∙ new))
        ]
      ]

  scan-IsBest : (segments : List EvidenceSegment) → IsBest segments (scan none segments)
  scan-IsBest segments = record {
    offered = scan-Offered none segments;
    best = (scan-NoWorse none segments).1;
  }

  -- The segment is of the event's call and lies at most thirty seconds from the event, at this distance in
  -- milliseconds.
  pub record IsAt (segment : EvidenceSegment) (delta : ℕ) : Type 0 where
    pub same_call : event.call_id ≡ some segment.call_id
    pub recorded : ℕ
    pub occurred : ℕ
    pub recorded_instant : instant segment.recorded_at ≡ some recorded
    pub occurred_instant : instant event.occurred_at ≡ some occurred
    pub distance : (delta ≡ recorded - occurred + (occurred - recorded)) × (delta ≤ 30000)

  gap-within :
      (a b : Option ℕ) (delta : ℕ)
      → within (gap a b) ≡ some delta
      → (m : ℕ) × (n : ℕ) × (a ≡ some m)
        × (b ≡ some n)
        × (delta ≡ m - n + (n - m))
        × (delta ≤ 30000)
  gap-within none b delta h = cc h
  gap-within (some m) none delta h = cc h
  gap-within (some m) (some n) delta h = (m, n, refl, refl, ground arith, ground arith)

  within-gap :
      (m n delta : ℕ)
      → delta ≡ m - n + (n - m)
      → delta ≤ 30000
      → within (gap (some m) (some n)) ≡ some delta
  within-gap m n delta e bound = ground arith

  is_of-true : (o : Option String) (id : String) → is_of o id ≡ true → o ≡ some id
  is_of-true none id h = cc h
  is_of-true (some c) id h = ap some (sym ((eq_iff id c).0 h))

  candidate-IsAt :
      (segment : EvidenceSegment) (delta : ℕ)
      → candidate instant event segment ≡ some delta
      → IsAt segment delta
  unfolding candidate
  candidate-IsAt segment delta h = elim (Bool-cases (is_of event.call_id segment.call_id)) [
    | inl same ↦
        let h' : within (gap (instant segment.recorded_at) (instant event.occurred_at))
            ≡ some delta =
          rw same at h in
        let (m, n, em, en, d, bound) = gap-within _ _ delta h' in
        record {
          same_call = is_of-true event.call_id segment.call_id same;
          recorded = m;
          occurred = n;
          recorded_instant = em;
          occurred_instant = en;
          distance = (d, bound);
        }
    | inr other ↦ let h' : none ≡ some delta = rw other at h in cc h'
  ]

  IsAt-candidate :
      (segment : EvidenceSegment) (delta : ℕ)
      → IsAt segment delta
      → candidate instant event segment ≡ some delta
  unfolding candidate
  IsAt-candidate segment delta at =
      rw
        (
          at.same_call,
          (eq_iff segment.call_id segment.call_id).1 refl,
          at.recorded_instant,
          at.occurred_instant,
        )
        (within-gap at.recorded at.occurred delta (at.distance.0) (at.distance.1))

  abbrev In : EvidenceSegment → List EvidenceSegment → Type 0
  In s [] = ⊥
  In s (t ∷ ts) = (s ≡ t) ⊎ In s ts

  -- The nearest segment, of the nearest one that was recorded first; or no segment is near.
  abbrev pub IsNearest : List EvidenceSegment → Near → Type 0
  IsNearest segments none = All (λ t. (delta : ℕ) → ¬ IsAt t delta) segments
  IsNearest segments (some (s, distance)) =
      In s segments
      × IsAt s distance
      × All
          (λ t.
            (delta : ℕ)
            → IsAt t delta
            → (distance < delta)
              ⊎ ((distance ≡ delta) × (text_lt t.recorded_at s.recorded_at ≡ false)))
          segments

  offer-IsAt :
      (s t : EvidenceSegment) (distance : ℕ) (c : Option ℕ)
      → candidate instant event t ≡ c
      → some (s, distance) ≡ paired t c
      → (s ≡ t) × IsAt s distance
  offer-IsAt s t distance none e h = cc h
  offer-IsAt s t distance (some delta) e h =
      let same : t ≡ s = cc h in
      let same_distance : delta ≡ distance = cc h in
      (
        sym same,
        subst (λ u. IsAt u distance) same (subst (IsAt t) same_distance (candidate-IsAt t delta e)),
      )

  Offered-In :
      (s : EvidenceSegment) (distance : ℕ) (segments : List EvidenceSegment)
      → Offered (some (s, distance)) segments
      → In s segments × IsAt s distance
  Offered-In s distance [] h = absurd h
  Offered-In s distance (t ∷ ts) (inl h) =
      let (same, at) = offer-IsAt s t distance _ refl h in (inl same, at)
  Offered-In s distance (t ∷ ts) (inr h) =
      let (there, at) = Offered-In s distance ts h in (inr there, at)

  offer_at : (t : EvidenceSegment) (delta : ℕ) → IsAt t delta → offer t ≡ some (t, delta)
  offer_at t delta at = ap (paired t) (IsAt-candidate t delta at)

  IsBest-IsNearest :
      (segments : List EvidenceSegment) (near : Near)
      → IsBest segments near
      → IsNearest segments near
  IsBest-IsNearest segments none b =
      All-imp (λ t h delta at. subst (NoWorse none) (offer_at t delta at) h) segments b.best
  IsBest-IsNearest segments (some (s, distance)) b = elim b.offered [
    | inl nothing ↦ absurd (cc nothing)
    | inr offered ↦
        let (there, at) = Offered-In s distance segments offered in
        (
          there,
          at,
          All-imp (λ t h delta near. subst (NoWorse (some (s, distance))) (offer_at t delta near) h)
              segments b.best,
        )
  ]

-- The answer for an event, by its nearest segment.
abbrev pub MatchIs : Near → Option EvidenceMatch → Type 0
MatchIs none m = m ≡ none
MatchIs (some (segment, distance)) m =
    m ≡ some (record { segment_id = segment.id; offset_ms = distance })

match_of-MatchIs : (near : Near) → MatchIs near (match_of near)
match_of-MatchIs none = refl
match_of-MatchIs (some (segment, distance)) = refl

-- Event by event, in order, each with the match that it has.
abbrev pub AllMatched :
    (String → Option ℕ)
    → List EvidenceSegment
    → List EvidenceEvent
    → List (EvidenceEvent × Option EvidenceMatch)
    → Type 0
AllMatched instant segments [] [] = Unit
AllMatched instant segments (event ∷ events) ((e, m) ∷ matches) =
    ((e ≡ event) × (near : Near) × IsNearest instant event segments near × MatchIs near m)
    × AllMatched instant segments events matches
AllMatched instant segments events matches = ⊥

-- Every event keeps its place and is matched with the nearest segment of its call inside the window, of
-- those at the same distance with one that was recorded first, and with nothing just if there is none.
pub match_evidence_events-AllMatched :
    (instant : String → Option ℕ) (events : List EvidenceEvent) (segments : List EvidenceSegment)
    → AllMatched instant segments events (match_evidence_events instant events segments)
unfolding match_evidence_events
match_evidence_events-AllMatched instant [] segments = tt
match_evidence_events-AllMatched instant (event ∷ events) segments =
    let near = nearest_from instant event none segments in
    (
      (
        refl,
        near,
        IsBest-IsNearest instant event segments near (scan-IsBest instant event segments),
        match_of-MatchIs near,
      ),
      match_evidence_events-AllMatched instant events segments,
    )
