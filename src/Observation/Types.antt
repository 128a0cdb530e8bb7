-- ===== src/Observation/Types.antt =====
-- The records and enumerations of media_engine/src/analytics/observation.h.
-- An enumeration has one more constructor, `other`, for an `int` outside the enumerators. A counted
-- array is the list of its used entries.
use rv1126_custom_part.Base.{ℕ, ℤ, pos, Bool, false, List, [], Text}

abbrev pub contract_version_current : ℕ
contract_version_current = 2

abbrev pub coord_scale : ℕ
coord_scale = 10000

abbrev pub channel_id_max : ℕ
channel_id_max = 64

abbrev pub backend_name_max : ℕ
backend_name_max = 32

abbrev pub version_max : ℕ
version_max = 64

abbrev pub model_version_max : ℕ
model_version_max = 64

abbrev pub rule_id_max : ℕ
rule_id_max = 64

abbrev pub max_tracks : ℕ
max_tracks = 64

abbrev pub max_rule_facts : ℕ
max_rule_facts = 16

pub data ClockState : Type 0 where
  unavailable synced estimated invalid other : ClockState

pub data TrackClass : Type 0 where
  unknown person other : TrackClass

pub data TrackState : Type 0 where
  unknown new active lost removed other : TrackState

pub data RuleType : Type 0 where
  unknown occupancy line_cross intrusion other : RuleType

pub data RuleDirection : Type 0 where
  undirected inward outward other : RuleDirection

pub record Timebase : Type 0 where
  pub num : ℕ
  pub den : ℕ

pub record BBox : Type 0 where
  pub left : ℕ
  pub top : ℕ
  pub right : ℕ
  pub bottom : ℕ

pub record TrackObservation : Type 0 where
  pub track_id : ℕ
  pub class_id : TrackClass
  pub state : TrackState
  pub bbox : BBox
  pub score_q : ℕ

-- A `track_id` of zero marks a fact about the rule as a whole.
pub record RuleFact : Type 0 where
  pub rule_id : Text
  pub rule_type : RuleType
  pub direction : RuleDirection
  pub score_q : ℕ
  pub track_id : ℕ

pub record Observation : Type 0 where
  pub contract_version : ℕ
  pub channel_id : Text
  pub stream_epoch : ℕ
  pub frame_id : ℕ
  pub source_pts : ℤ
  pub source_pts_valid : Bool
  pub source_timebase : Timebase
  pub capture_time_us : ℤ
  pub clock_state : ClockState
  pub frame_width : ℕ
  pub frame_height : ℕ
  pub backend_name : Text
  pub backend_version : Text
  pub model_version : Text
  pub tracks : List TrackObservation
  pub rules : List RuleFact

-- memset (observation, 0)
abbrev pub zero_observation : Observation
zero_observation = record {
  contract_version = 0;
  channel_id = [];
  stream_epoch = 0;
  frame_id = 0;
  source_pts = pos 0;
  source_pts_valid = false;
  source_timebase = record { num = 0; den = 0 };
  capture_time_us = pos 0;
  clock_state = ClockState.unavailable;
  frame_width = 0;
  frame_height = 0;
  backend_name = [];
  backend_version = [];
  model_version = [];
  tracks = [];
  rules = [];
}

-- me_observation_init
unfoldable pub observation_init : Observation
observation_init = record zero_observation {
  contract_version = contract_version_current;
  source_timebase = record { num = 1; den = 1000000000 };
  clock_state = ClockState.unavailable;
}
