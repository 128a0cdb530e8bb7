-- ===== src/Observation/Validate.antt =====
-- The checks of media_engine/src/analytics/observation.c. `none` stands for the return value 0; an
-- error stands for -1, with the message that the source writes.
use rv1126_custom_part.Base.{
  ℕ, ℤ, pos, ltb_ℤ, leb_ℤ, Bool, true, false, not, ◌&&◌, ◌||◌, ltb, leb, ◌==◌, Option, none, some,
  List, [], ◌∷◌, ◌++◌, length, text_eq, bounded_string,
}
use rv1126_custom_part.Observation.Types.{
  contract_version_current, coord_scale, channel_id_max, backend_name_max, version_max,
  model_version_max, rule_id_max, max_tracks, max_rule_facts, ClockState, TrackClass, TrackState,
  RuleType, RuleDirection, BBox, TrackObservation, RuleFact, Observation,
}

pub data ObservationError : Type 0 where
  unsupported_version bad_channel_id bad_stream_key bad_timebase stray_pts negative_pts :
      ObservationError
  bad_dimensions stray_clock_time missing_clock_time bad_clock_state bad_backend : ObservationError
  too_many_tracks bad_track_identity bad_track_bbox bad_track_score duplicate_track :
      ObservationError
  too_many_rules bad_rule duplicate_rule : ObservationError

abbrev pub valid_track_state : TrackState → Bool
valid_track_state TrackState.unknown = false
valid_track_state TrackState.other = false
valid_track_state _ = true

abbrev pub valid_rule_type : RuleType → Bool
valid_rule_type RuleType.unknown = false
valid_rule_type RuleType.other = false
valid_rule_type _ = true

abbrev pub valid_direction : RuleDirection → Bool
valid_direction RuleDirection.other = false
valid_direction _ = true

abbrev pub known_class : TrackClass → Bool
known_class TrackClass.unknown = false
known_class _ = true

-- A chain of checks stops at the first that fails.
infixr 20 ◌orelse◌
abbrev pub ◌orelse◌ {ℓ} : {A : Type ℓ} → Option A → Option A → Option A
none orelse next = next
some err orelse next = some err

-- if (bad) return err
abbrev pub reject_if {ℓ} : {A : Type ℓ} → Bool → A → Option A
reject_if true err = some err
reject_if false err = none

unfoldable pub check_clock : ClockState → ℤ → Option ObservationError
check_clock ClockState.unavailable time =
    reject_if (not (leb_ℤ time (pos 0) && leb_ℤ (pos 0) time)) stray_clock_time
check_clock ClockState.invalid time =
    reject_if (not (leb_ℤ time (pos 0) && leb_ℤ (pos 0) time)) stray_clock_time
check_clock ClockState.synced time = reject_if (leb_ℤ time (pos 0)) missing_clock_time
check_clock ClockState.estimated time = reject_if (leb_ℤ time (pos 0)) missing_clock_time
check_clock ClockState.other time = some bad_clock_state

unfoldable pub bad_bbox : BBox → Bool
bad_bbox box =
    leb box.right box.left
    || leb box.bottom box.top
    || ltb coord_scale box.right
    || ltb coord_scale box.bottom

-- One of the tracks before this one has its identity.
unfoldable pub seen_track : List TrackObservation → ℕ → Bool
seen_track [] id = false
seen_track (track ∷ tracks) id = track.track_id == id || seen_track tracks id

unfoldable pub check_track : List TrackObservation → TrackObservation → Option ObservationError
unfolding bad_bbox seen_track
check_track before track =
    reject_if
      (track.track_id == 0
        || not (known_class track.class_id)
        || not (valid_track_state track.state))
      bad_track_identity
    orelse reject_if (bad_bbox track.bbox) bad_track_bbox
    orelse reject_if (ltb coord_scale track.score_q) bad_track_score
    orelse reject_if (seen_track before track.track_id) duplicate_track

-- The loop over the tracks, with those that it has passed.
unfoldable pub check_tracks :
    List TrackObservation → List TrackObservation → Option ObservationError
unfolding check_track
check_tracks before [] = none
check_tracks before (track ∷ tracks) =
    check_track before track orelse check_tracks (before ++ track ∷ []) tracks

-- One of the facts before this one states the same rule of the same, or of no, track.
unfoldable pub seen_rule : List RuleFact → RuleFact → Bool
seen_rule [] rule = false
seen_rule (earlier ∷ facts) rule =
    text_eq earlier.rule_id rule.rule_id
      && (rule.track_id == 0 || earlier.track_id == 0 || earlier.track_id == rule.track_id)
    || seen_rule facts rule

unfoldable pub check_rule : List RuleFact → RuleFact → Option ObservationError
unfolding seen_rule
check_rule before rule =
    reject_if
      (not (bounded_string rule.rule_id rule_id_max)
        || not (valid_rule_type rule.rule_type)
        || not (valid_direction rule.direction)
        || ltb coord_scale rule.score_q)
      bad_rule
    orelse reject_if (seen_rule before rule) duplicate_rule

unfoldable pub check_rules : List RuleFact → List RuleFact → Option ObservationError
unfolding check_rule
check_rules before [] = none
check_rules before (rule ∷ rules) =
    check_rule before rule orelse check_rules (before ++ rule ∷ []) rules

-- The checks of the version, the channel and the keys of the frame.
unfoldable pub check_keys : Observation → Option ObservationError
check_keys o =
    reject_if (not (o.contract_version == contract_version_current)) unsupported_version
    orelse reject_if (not (bounded_string o.channel_id channel_id_max)) bad_channel_id
    orelse reject_if (o.stream_epoch == 0 || o.frame_id == 0) bad_stream_key
    orelse reject_if (o.source_timebase.num == 0 || o.source_timebase.den == 0) bad_timebase
    orelse reject_if
        (not o.source_pts_valid && not (leb_ℤ o.source_pts (pos 0) && leb_ℤ (pos 0) o.source_pts))
        stray_pts
    orelse reject_if (o.source_pts_valid && ltb_ℤ o.source_pts (pos 0)) negative_pts

-- The checks of the frame and of the backend that saw it.
unfoldable pub check_frame : Observation → Option ObservationError
unfolding check_clock
check_frame o =
    reject_if (o.frame_width == 0 || o.frame_height == 0) bad_dimensions
    orelse check_clock o.clock_state o.capture_time_us
    orelse reject_if
        (not (bounded_string o.backend_name backend_name_max)
          || not (bounded_string o.backend_version version_max)
          || not (bounded_string o.model_version model_version_max))
        bad_backend

-- me_observation_validate
unfoldable pub validate : Observation → Option ObservationError
unfolding check_keys check_frame check_tracks check_rules
validate o =
    check_keys o
    orelse check_frame o
    orelse reject_if (ltb max_tracks (length o.tracks)) too_many_tracks
    orelse check_tracks [] o.tracks
    orelse reject_if (ltb max_rule_facts (length o.rules)) too_many_rules
    orelse check_rules [] o.rules
