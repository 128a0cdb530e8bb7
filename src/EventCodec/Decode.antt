-- ===== src/EventCodec/Decode.antt =====
-- Reading, media_engine/src/analytics/event_codec.c: the groups of fields in the order in which the
-- code reads them, each with its own message.
use rv1126_custom_part.Base.{
  ℕ, ℤ, Bool, true, false, not, ◌||◌, ltb, ◌==◌, if◌then◌else◌, Option, none, some, ◌⊎◌, inl, inr,
  List, [], ◌∷◌, length, Text, codes, ◌>>=◌, ◌>>=◌,
}
use rv1126_custom_part.Observation.Types.{
  channel_id_max, rule_id_max, ClockState, RuleType, Timebase,
}
use rv1126_custom_part.EventEngine.Types.{event_id_max, event_max_tracks, Phase, Reason, Event}
use rv1126_custom_part.EventCodec.Json.{JsonLib}
use rv1126_custom_part.EventCodec.Parse.{
  parse_rule_type, parse_phase, parse_reason, parse_clock_state,
}
use rv1126_custom_part.EventCodec.Fields.{
  safe_ℕ, read_u64, read_i64, read_u32, read_bool, read_name, read_text,
}

abbrev pub evidence_id_max : ℕ
evidence_id_max = 96

-- sizeof (phase)
abbrev pub phase_max : ℕ
phase_max = 8

-- Which message is set.
pub data CodecError : Type 0 where
  not_object missing_identity bad_event_type bad_phase bad_reason bad_clock_state : CodecError
  bad_timing bad_payload bad_tracks bad_track_id zero_identity : CodecError

-- What the groups of fields hold.
pub record Identity : Type 0 where
  pub contract_version : ℕ
  pub event_id : Text
  pub channel_id : Text
  pub stream_epoch : ℕ
  pub rule_id : Text

pub record Kinds : Type 0 where
  pub event_type : RuleType
  pub phase : Phase
  pub reason : Reason
  pub clock_state : ClockState

pub record Timing : Type 0 where
  pub event_seq : ℕ
  pub event_time_us : ℤ
  pub source_pts_valid : Bool
  pub source_pts : ℤ

pub record Payload : Type 0 where
  pub source_timebase : Timebase
  pub frame_id : ℕ
  pub person_count : ℕ
  pub delta_in : ℕ
  pub delta_out : ℕ
  pub config_version : ℕ
  pub evidence_id : Text
  pub track_count : ℕ

abbrev or_error {ℓ} : {A : Type ℓ} → CodecError → Option A → CodecError ⊎ A
or_error err none = inl err
or_error err (some a) = inr a

-- A name that `parse` knows.
abbrev pub named {ℓ} : {A : Type ℓ} → (Text → Option A) → Option Text → Option A
named parse none = none
named parse (some t) = parse t

-- The record that the groups make up.
abbrev pub assemble : Identity → Kinds → Timing → Payload → List ℕ → Event
assemble i k t p ids = record {
  contract_version = i.contract_version;
  event_id = i.event_id;
  channel_id = i.channel_id;
  stream_epoch = i.stream_epoch;
  event_type = k.event_type;
  rule_id = i.rule_id;
  phase = k.phase;
  event_seq = t.event_seq;
  reason = k.reason;
  event_time_us = t.event_time_us;
  clock_state = k.clock_state;
  source_pts = t.source_pts;
  source_pts_valid = t.source_pts_valid;
  source_timebase = p.source_timebase;
  frame_id = p.frame_id;
  person_count = p.person_count;
  delta_in = p.delta_in;
  delta_out = p.delta_out;
  responsible_track_ids = ids;
  config_version = p.config_version;
  evidence_id = p.evidence_id;
}

abbrev is_empty : Text → Bool
is_empty [] = true
is_empty _ = false

-- An identity that is zero or empty is refused at the end.
unfoldable pub check_identity : Event → CodecError ⊎ Event
check_identity e =
    if e.contract_version == 0
      || is_empty e.event_id
      || is_empty e.channel_id
      || e.stream_epoch == 0
      || e.event_seq == 0
      || e.frame_id == 0
    then inl CodecError.zero_identity
    else inr e

module _ (J : JsonLib) where
  open J use {Json, integral, member, as_number, elements, is_object}

  unfoldable pub read_identity : Json → Option Identity
  read_identity o = do
    contract_version ← read_u32 J o (codes "contract_version")
    event_id ← read_text J o (codes "event_id") event_id_max
    channel_id ← read_text J o (codes "channel_id") channel_id_max
    stream_epoch ← read_u64 J o (codes "stream_epoch")
    rule_id ← read_text J o (codes "rule_id") rule_id_max
    _ ← read_text J o (codes "phase") phase_max
    some (record {
      contract_version = contract_version;
      event_id = event_id;
      channel_id = channel_id;
      stream_epoch = stream_epoch;
      rule_id = rule_id;
    })

  unfoldable pub read_kinds : Json → CodecError ⊎ Kinds
  read_kinds o = elim (named parse_rule_type (read_name J o (codes "event_type"))) [
    | none ↦ inl CodecError.bad_event_type
    | some event_type ↦ elim (named parse_phase (read_name J o (codes "phase"))) [
      | none ↦ inl CodecError.bad_phase
      | some phase ↦ elim (named parse_reason (read_name J o (codes "reason"))) [
        | none ↦ inl CodecError.bad_reason
        | some reason ↦ elim (named parse_clock_state (read_name J o (codes "clock_state"))) [
          | none ↦ inl CodecError.bad_clock_state
          | some clock_state ↦ inr (record {
            event_type = event_type;
            phase = phase;
            reason = reason;
            clock_state = clock_state;
          })
        ]
      ]
    ]
  ]

  unfoldable pub read_timing : Json → Option Timing
  read_timing o = do
    event_seq ← read_u64 J o (codes "event_seq")
    event_time_us ← read_i64 J o (codes "event_time_us")
    source_pts_valid ← read_bool J o (codes "source_pts_valid")
    source_pts ← read_i64 J o (codes "source_pts")
    some (record {
      event_seq = event_seq;
      event_time_us = event_time_us;
      source_pts_valid = source_pts_valid;
      source_pts = source_pts;
    })

  unfoldable pub read_ratio : Json → Option Timebase
  read_ratio o = do
    num ← read_u32 J o (codes "num")
    den ← read_u32 J o (codes "den")
    some (record { num = num; den = den })

  unfoldable pub read_timebase : Json → Option Timebase
  unfolding read_ratio
  read_timebase o = do
    timebase ← member (codes "source_timebase") o
    if is_object timebase then read_ratio timebase else none

  unfoldable pub read_payload : Json → Option Payload
  read_payload o = do
    source_timebase ← read_timebase o
    frame_id ← read_u64 J o (codes "frame_id")
    person_count ← read_u32 J o (codes "person_count")
    delta_in ← read_u32 J o (codes "delta_in")
    delta_out ← read_u32 J o (codes "delta_out")
    config_version ← read_u64 J o (codes "config_version")
    evidence_id ← read_text J o (codes "evidence_id") evidence_id_max
    track_count ← read_u32 J o (codes "responsible_track_count")
    some (record {
      source_timebase = source_timebase;
      frame_id = frame_id;
      person_count = person_count;
      delta_in = delta_in;
      delta_out = delta_out;
      config_version = config_version;
      evidence_id = evidence_id;
      track_count = track_count;
    })

  unfoldable pub read_id : Json → Option ℕ
  read_id item = do x ← as_number item; safe_ℕ (integral x)

  unfoldable pub read_ids : List Json → Option (List ℕ)
  unfolding read_id
  read_ids [] = some []
  read_ids (item ∷ items) = do id ← read_id item; ids ← read_ids items; some (id ∷ ids)

  unfoldable pub read_tracks : Json → ℕ → CodecError ⊎ List ℕ
  unfolding read_ids
  read_tracks o count = elim (member (codes "responsible_track_ids") o >>= elements) [
    | none ↦ inl CodecError.bad_tracks
    | some items ↦
        if ltb event_max_tracks count || not (length items == count)
        then inl CodecError.bad_tracks
        else or_error CodecError.bad_track_id (read_ids items)
  ]

  -- me_analytics_event_from_json
  unfoldable pub from_json : Json → CodecError ⊎ Event
  unfolding check_identity read_identity read_kinds read_timing read_payload read_tracks
  from_json o = if not (is_object o) then inl CodecError.not_object else elim (read_identity o) [
    | none ↦ inl CodecError.missing_identity
    | some i ↦ elim (read_kinds o) [
      | inl err ↦ inl err
      | inr k ↦ elim (read_timing o) [
        | none ↦ inl CodecError.bad_timing
        | some t ↦ elim (read_payload o) [
          | none ↦ inl CodecError.bad_payload
          | some p ↦ elim (read_tracks o p.track_count) [
            | inl err ↦ inl err
            | inr ids ↦ check_identity (assemble i k t p ids)
          ]
        ]
      ]
    ]
  ]
