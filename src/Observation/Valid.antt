-- ===== src/Observation/Valid.antt =====
-- What media_engine/src/analytics/observation.c accepts, said without its loops.
use rv1126_custom_part.Base.{
  ℕ, ◌≤◌, ◌<◌, ℤ, pos, ◌≤ℤ◌, true, false, Option, none, some, List, [], ◌∷◌, ◌++◌, ◌≡◌, ◌≢◌, ◌↔◌,
  length, All, Apart, Against, Against-snoc, Against-nil, Text, text_eq-true_iff, bounded_string,
  arith, refl,
}
use rv1126_custom_part.Observation.Types.{
  ClockState, TrackClass, TrackState, RuleType, RuleDirection, TrackObservation, RuleFact,
  Observation,
}
use rv1126_custom_part.Observation.Validate.{
  check_clock, seen_track, check_track, check_tracks, seen_rule, check_rule, check_rules,
  check_keys, check_frame, validate, ◌orelse◌,
}

-- A text that fits an array of `cap` bytes with its NUL, and is not empty.
abbrev pub Fits : ℕ → Text → Type 0
Fits cap text = (0 < length text) × (length text < cap)

-- A wall-clock time belongs to the two states that have one, and to no other.
abbrev pub ClockAgrees : ClockState → ℤ → Type 0
ClockAgrees ClockState.unavailable time = time ≡ pos 0
ClockAgrees ClockState.invalid time = time ≡ pos 0
ClockAgrees ClockState.synced time = pos 1 ≤ℤ time
ClockAgrees ClockState.estimated time = pos 1 ≤ℤ time
ClockAgrees ClockState.other time = ⊥

pub record IsTrack (track : TrackObservation) : Type 0 where
  pub identified : track.track_id ≢ 0
  pub classified : track.class_id ≢ TrackClass.unknown
  pub stated : (track.state ≢ TrackState.unknown) × (track.state ≢ TrackState.other)
  pub wide : track.bbox.left < track.bbox.right
  pub high : track.bbox.top < track.bbox.bottom
  pub right_inside : track.bbox.right ≤ 10000
  pub bottom_inside : track.bbox.bottom ≤ 10000
  pub scored : track.score_q ≤ 10000

pub record IsRule (rule : RuleFact) : Type 0 where
  pub named : Fits 64 rule.rule_id
  pub typed : (rule.rule_type ≢ RuleType.unknown) × (rule.rule_type ≢ RuleType.other)
  pub directed : rule.direction ≢ RuleDirection.other
  pub scored : rule.score_q ≤ 10000

abbrev pub OtherTrack : TrackObservation → TrackObservation → Type 0
OtherTrack a b = a.track_id ≢ b.track_id

-- Two facts of one rule are about two tracks, and neither is about the rule as a whole.
abbrev pub OtherFact : RuleFact → RuleFact → Type 0
OtherFact a b =
    a.rule_id ≡ b.rule_id → (b.track_id ≢ 0) × (a.track_id ≢ 0) × (a.track_id ≢ b.track_id)

pub record IsKeyed (o : Observation) : Type 0 where
  pub version : o.contract_version ≡ 2
  pub channel : Fits 64 o.channel_id
  pub epoch_pos : 0 < o.stream_epoch
  pub frame_pos : 0 < o.frame_id
  pub timebase_num : 0 < o.source_timebase.num
  pub timebase_den : 0 < o.source_timebase.den
  pub pts_absent : o.source_pts_valid ≡ false → o.source_pts ≡ pos 0
  pub pts_nonneg : o.source_pts_valid ≡ true → pos 0 ≤ℤ o.source_pts

pub record IsFramed (o : Observation) : Type 0 where
  pub width_pos : 0 < o.frame_width
  pub height_pos : 0 < o.frame_height
  pub clock : ClockAgrees o.clock_state o.capture_time_us
  pub backend : Fits 32 o.backend_name
  pub backend_versioned : Fits 64 o.backend_version
  pub model_versioned : Fits 64 o.model_version

pub record IsValid (o : Observation) : Type 0 where
  pub keyed : IsKeyed o
  pub framed : IsFramed o
  pub tracks_few : length o.tracks ≤ 64
  pub tracks_good : All IsTrack o.tracks
  pub tracks_apart : Apart OtherTrack o.tracks
  pub rules_few : length o.rules ≤ 16
  pub rules_good : All IsRule o.rules
  pub rules_apart : Apart OtherFact o.rules

pub orelse-none {ℓ} :
    {A : Type ℓ} (a b : Option A) → ((a orelse b) ≡ none) ↔ ((a ≡ none) × (b ≡ none))
orelse-none none b = (λ h. (refl, h), λ h. h.1)
orelse-none (some err) b = (λ h. (h, cc), λ h. h.0)

check_clock_iff : (s : ClockState) (t : ℤ) → (check_clock s t ≡ none) ↔ ClockAgrees s t
unfolding check_clock
check_clock_iff ClockState.unavailable t = ground arith
check_clock_iff ClockState.invalid t = ground arith
check_clock_iff ClockState.synced t = ground arith
check_clock_iff ClockState.estimated t = ground arith
check_clock_iff ClockState.other t = (λ h. cc, λ h. absurd h)

seen_track_iff :
    (before : List TrackObservation) (track : TrackObservation)
    → (seen_track before track.track_id ≡ false) ↔ All (λ b. OtherTrack b track) before
unfolding seen_track
seen_track_iff [] track = (λ h. tt, λ h. refl)
seen_track_iff (b ∷ before) track = ground (arith, seen_track_iff before track)

check_track_iff :
    (before : List TrackObservation) (track : TrackObservation)
    → (check_track before track ≡ none) ↔ (IsTrack track × All (λ b. OtherTrack b track) before)
unfolding check_track
check_track_iff before track = ground (arith, seen_track_iff before track)

check_tracks_iff :
    (before tracks : List TrackObservation)
    → (check_tracks before tracks ≡ none)
      ↔ (All IsTrack tracks × Apart OtherTrack tracks × Against OtherTrack before tracks)
unfolding check_tracks
check_tracks_iff before [] = (λ h. (tt, tt, tt), λ h. refl)
check_tracks_iff before (track ∷ tracks) = ground (
  arith,
  check_track_iff before track,
  check_tracks_iff (before ++ track ∷ []) tracks,
  Against-snoc OtherTrack before track tracks,
  orelse-none (check_track before track) (check_tracks (before ++ track ∷ []) tracks),
)

seen_rule_iff :
    (before : List RuleFact) (rule : RuleFact)
    → (seen_rule before rule ≡ false) ↔ All (λ b. OtherFact b rule) before
unfolding seen_rule
seen_rule_iff [] rule = (λ h. tt, λ h. refl)
seen_rule_iff (b ∷ before) rule =
    ground (arith, text_eq-true_iff b.rule_id rule.rule_id, seen_rule_iff before rule)

check_rule_iff :
    (before : List RuleFact) (rule : RuleFact)
    → (check_rule before rule ≡ none) ↔ (IsRule rule × All (λ b. OtherFact b rule) before)
unfolding check_rule bounded_string
check_rule_iff before rule = ground (arith, seen_rule_iff before rule)

check_rules_iff :
    (before rules : List RuleFact)
    → (check_rules before rules ≡ none)
      ↔ (All IsRule rules × Apart OtherFact rules × Against OtherFact before rules)
unfolding check_rules
check_rules_iff before [] = (λ h. (tt, tt, tt), λ h. refl)
check_rules_iff before (rule ∷ rules) = ground (
  arith,
  check_rule_iff before rule,
  check_rules_iff (before ++ rule ∷ []) rules,
  Against-snoc OtherFact before rule rules,
  orelse-none (check_rule before rule) (check_rules (before ++ rule ∷ []) rules),
)

check_keys_iff : (o : Observation) → (check_keys o ≡ none) ↔ IsKeyed o
unfolding check_keys bounded_string
check_keys_iff o = ground arith

check_frame_iff : (o : Observation) → (check_frame o ≡ none) ↔ IsFramed o
unfolding check_frame bounded_string
check_frame_iff o = ground (arith, check_clock_iff o.clock_state o.capture_time_us)

-- An observation passes every check exactly if it is valid.
pub validate_iff : (o : Observation) → (validate o ≡ none) ↔ IsValid o
unfolding validate
validate_iff o = ground (
  arith,
  check_keys_iff o,
  check_frame_iff o,
  check_tracks_iff [] o.tracks,
  check_rules_iff [] o.rules,
  Against-nil OtherTrack o.tracks,
  Against-nil OtherFact o.rules,
  orelse-none (check_keys o) (check_frame o),
)
