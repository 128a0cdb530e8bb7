-- ===== src/EventEngine/Types.antt =====
-- The records of media_engine/src/analytics/event_engine.h, and those local to event_engine.c.
-- A counted array is the list of its used entries; a table of slots is the list of all its slots.
-- `Phase.unset` and `Reason.unset` are the zero of a cleared record.
use rv1126_custom_part.Base.{ℕ, ℤ, pos, Bool, false, List, [], Option, none, Text, replicate}
use rv1126_custom_part.Observation.Types.{
  max_tracks, ClockState, RuleType, RuleFact, Timebase, Observation, zero_observation,
}
use rv1126_custom_part.Observation.Order.{ObservationOrder, order_init}
use rv1126_custom_part.Observation.Validate.{ObservationError}
use rv1126_custom_part.AnalyticsConfig.Settings.{AnalyticsConfig, zero_config, ConfigError}

abbrev pub event_contract_version : ℕ
event_contract_version = 1

abbrev pub event_id_max : ℕ
event_id_max = 96

abbrev pub event_max_tracks : ℕ
event_max_tracks = 16

pub data Phase : Type 0 where
  unset start update end : Phase

pub data Reason : Type 0 where
  unset confirmed count_changed direction disappeared stream_reset reconfigured : Reason
  analytics_disabled process_restart other : Reason

pub record Event : Type 0 where
  pub contract_version : ℕ
  pub event_id : Text
  pub channel_id : Text
  pub stream_epoch : ℕ
  pub event_type : RuleType
  pub rule_id : Text
  pub phase : Phase
  pub event_seq : ℕ
  pub reason : Reason
  pub event_time_us : ℤ
  pub clock_state : ClockState
  pub source_pts : ℤ
  pub source_pts_valid : Bool
  pub source_timebase : Timebase
  pub frame_id : ℕ
  pub person_count : ℕ
  pub delta_in : ℕ
  pub delta_out : ℕ
  pub responsible_track_ids : List ℕ
  pub config_version : ℕ
  pub evidence_id : Text

abbrev pub zero_event : Event
zero_event = record {
  contract_version = 0;
  event_id = [];
  channel_id = [];
  stream_epoch = 0;
  event_type = RuleType.unknown;
  rule_id = [];
  phase = Phase.unset;
  event_seq = 0;
  reason = Reason.unset;
  event_time_us = pos 0;
  clock_state = ClockState.unavailable;
  source_pts = pos 0;
  source_pts_valid = false;
  source_timebase = record { num = 0; den = 0 };
  frame_id = 0;
  person_count = 0;
  delta_in = 0;
  delta_out = 0;
  responsible_track_ids = [];
  config_version = 0;
  evidence_id = [];
}

pub record TrackSlot : Type 0 where
  pub in_use : Bool
  pub present : Bool
  pub confirmed : Bool
  pub track_id : ℕ
  pub seen_frames : ℕ
  pub first_frame_id : ℕ
  pub first_timeline_us : ℤ
  pub first_timeline_valid : Bool
  pub last_seen_frame_id : ℕ
  pub last_timeline_us : ℤ
  pub last_timeline_valid : Bool
  pub inside : Bool
  pub inside_initialized : Bool
  pub inside_candidate : Bool
  pub inside_candidate_valid : Bool
  pub inside_candidate_since_us : ℤ

abbrev pub zero_track : TrackSlot
zero_track = record {
  in_use = false;
  present = false;
  confirmed = false;
  track_id = 0;
  seen_frames = 0;
  first_frame_id = 0;
  first_timeline_us = pos 0;
  first_timeline_valid = false;
  last_seen_frame_id = 0;
  last_timeline_us = pos 0;
  last_timeline_valid = false;
  inside = false;
  inside_initialized = false;
  inside_candidate = false;
  inside_candidate_valid = false;
  inside_candidate_since_us = pos 0;
}

-- The array `direction_present` has one field for each direction.
pub record FactSlot : Type 0 where
  pub in_use : Bool
  pub track_id : ℕ
  pub undirected_present : Bool
  pub inward_present : Bool
  pub outward_present : Bool

abbrev pub zero_fact_slot : FactSlot
zero_fact_slot = record {
  in_use = false;
  track_id = 0;
  undirected_present = false;
  inward_present = false;
  outward_present = false;
}

-- `sink` says whether a callback is installed.
pub record Engine : Type 0 where
  pub config : AnalyticsConfig
  pub config_version : ℕ
  pub order : ObservationOrder
  pub have_stream : Bool
  pub channel_id : Text
  pub stream_epoch : ℕ
  pub last_observation : Observation
  pub have_last_observation : Bool
  pub tracks : List TrackSlot
  pub rule_fact_states : List FactSlot
  pub active : Bool
  pub active_event : Event
  pub active_person_count : ℕ
  pub latest_person_count : ℕ
  pub latest_person_count_valid : Bool
  pub trigger_pending : Bool
  pub trigger_frames : ℕ
  pub trigger_since_us : ℤ
  pub trigger_since_valid : Bool
  pub absent_since_us : ℤ
  pub absent_since_valid : Bool
  pub update_pending : Bool
  pub pending_person_count : ℕ
  pub pending_delta_in : ℕ
  pub pending_delta_out : ℕ
  pub pending_track_ids : List ℕ
  pub pending_reason : Reason
  pub last_emit_timeline_us : ℤ
  pub last_emit_timeline_valid : Bool
  pub cooldown_until_us : ℤ
  pub cooldown_until_valid : Bool
  pub next_event_serial : ℕ
  pub sink : Bool

-- memset (engine, 0)
abbrev pub zero_engine : Engine
zero_engine = record {
  config = zero_config;
  config_version = 0;
  order = order_init;
  have_stream = false;
  channel_id = [];
  stream_epoch = 0;
  last_observation = zero_observation;
  have_last_observation = false;
  tracks = replicate max_tracks zero_track;
  rule_fact_states = replicate max_tracks zero_fact_slot;
  active = false;
  active_event = zero_event;
  active_person_count = 0;
  latest_person_count = 0;
  latest_person_count_valid = false;
  trigger_pending = false;
  trigger_frames = 0;
  trigger_since_us = pos 0;
  trigger_since_valid = false;
  absent_since_us = pos 0;
  absent_since_valid = false;
  update_pending = false;
  pending_person_count = 0;
  pending_delta_in = 0;
  pending_delta_out = 0;
  pending_track_ids = [];
  pending_reason = Reason.unset;
  last_emit_timeline_us = pos 0;
  last_emit_timeline_valid = false;
  cooldown_until_us = pos 0;
  cooldown_until_valid = false;
  next_event_serial = 0;
  sink = false;
}

pub record Timeline : Type 0 where
  pub us : ℤ
  pub valid : Bool

-- The rules of one observation that match. `first` is none for a null pointer.
pub record RuleSummary : Type 0 where
  pub first : Option RuleFact
  pub match_count : ℕ
  pub new_match_count : ℕ
  pub delta_in : ℕ
  pub delta_out : ℕ
  pub track_ids : List ℕ
  pub facts : List RuleFact

abbrev pub zero_summary : RuleSummary
zero_summary = record {
  first = none;
  match_count = 0;
  new_match_count = 0;
  delta_in = 0;
  delta_out = 0;
  track_ids = [];
  facts = [];
}

-- Why an operation returns -1.
pub data EngineError : Type 0 where
  invalid_observation : ObservationError → EngineError
  invalid_config : ConfigError → EngineError
  serial_exhausted sequence_exhausted facts_exhausted : EngineError
  bad_order bad_reason version_not_increasing version_exhausted : EngineError

-- The return value: a number of records, or -1.
pub data ReturnCode : Type 0 where
  count : ℕ → ReturnCode
  failed : EngineError → ReturnCode

-- What an operation leaves: the state, the records that the sink was called with, its value.
pub record Outcome : Type 0 where
  pub engine : Engine
  pub out : List Event
  pub code : ReturnCode
