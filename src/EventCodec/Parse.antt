-- ===== src/EventCodec/Parse.antt =====
-- The names read back, media_engine/src/analytics/event_codec.c.
use rv1126_custom_part.Base.{
  if◌then◌else◌, Option, none, some, List, [], ◌∷◌, Text, codes, text_eq, ◌≡◌, ◌≢◌, refl, arith,
  true,
}
use rv1126_custom_part.Observation.Types.{ClockState, RuleType}
use rv1126_custom_part.Observation.Names.{rule_type_name, clock_state_name}
use rv1126_custom_part.Observation.Validate.{valid_rule_type}
use rv1126_custom_part.EventEngine.Types.{Phase, Reason}
use rv1126_custom_part.EventEngine.Names.{phase_name, reason_name}

unfoldable pub parse_rule_type : Text → Option RuleType
unfolding text_eq
parse_rule_type t =
    if text_eq t (codes "occupancy")
    then some RuleType.occupancy
    else if text_eq t (codes "line_cross")
    then some RuleType.line_cross
    else if text_eq t (codes "intrusion")
    then some RuleType.intrusion
    else none

unfoldable pub parse_phase : Text → Option Phase
unfolding text_eq
parse_phase t =
    if text_eq t (codes "START")
    then some Phase.start
    else if text_eq t (codes "UPDATE")
    then some Phase.update
    else if text_eq t (codes "END")
    then some Phase.end
    else none

-- The table `names`.
abbrev reason_table : List (Text × Reason)
reason_table =
    (codes "none", Reason.unset)
    ∷ (codes "confirmed", Reason.confirmed)
    ∷ (codes "count_changed", Reason.count_changed)
    ∷ (codes "direction", Reason.direction)
    ∷ (codes "disappeared", Reason.disappeared)
    ∷ (codes "stream_reset", Reason.stream_reset)
    ∷ (codes "reconfigured", Reason.reconfigured)
    ∷ (codes "analytics_disabled", Reason.analytics_disabled)
    ∷ (codes "process_restart", Reason.process_restart)
    ∷ []

unfoldable pub look_up : Text → List (Text × Reason) → Option Reason
look_up t [] = none
look_up t ((name, reason) ∷ rows) =
    let rest = look_up t rows in if text_eq t name then some reason else rest

unfoldable pub parse_reason : Text → Option Reason
unfolding look_up
parse_reason t = look_up t reason_table

unfoldable pub parse_clock_state : Text → Option ClockState
unfolding text_eq
parse_clock_state t =
    if text_eq t (codes "unavailable")
    then some ClockState.unavailable
    else if text_eq t (codes "synced")
    then some ClockState.synced
    else if text_eq t (codes "estimated")
    then some ClockState.estimated
    else if text_eq t (codes "invalid")
    then some ClockState.invalid
    else none

pub parse_rule_type-rule_type_name :
    (r : RuleType) → valid_rule_type r ≡ true → parse_rule_type (rule_type_name r) ≡ some r
unfolding parse_rule_type rule_type_name
parse_rule_type-rule_type_name RuleType.unknown h = ground arith
parse_rule_type-rule_type_name RuleType.occupancy h = refl
parse_rule_type-rule_type_name RuleType.line_cross h = refl
parse_rule_type-rule_type_name RuleType.intrusion h = refl
parse_rule_type-rule_type_name RuleType.other h = ground arith

pub parse_phase-phase_name : (p : Phase) → p ≢ Phase.unset → parse_phase (phase_name p) ≡ some p
unfolding parse_phase phase_name
parse_phase-phase_name Phase.unset h = ground arith
parse_phase-phase_name Phase.start h = refl
parse_phase-phase_name Phase.update h = refl
parse_phase-phase_name Phase.end h = refl

pub parse_reason-reason_name :
    (r : Reason) → r ≢ Reason.other → parse_reason (reason_name r) ≡ some r
unfolding parse_reason text_eq reason_name
parse_reason-reason_name Reason.unset h = refl
parse_reason-reason_name Reason.confirmed h = refl
parse_reason-reason_name Reason.count_changed h = refl
parse_reason-reason_name Reason.direction h = refl
parse_reason-reason_name Reason.disappeared h = refl
parse_reason-reason_name Reason.stream_reset h = refl
parse_reason-reason_name Reason.reconfigured h = refl
parse_reason-reason_name Reason.analytics_disabled h = refl
parse_reason-reason_name Reason.process_restart h = refl
parse_reason-reason_name Reason.other h = ground arith

pub parse_clock_state-clock_state_name :
    (c : ClockState) → c ≢ ClockState.other → parse_clock_state (clock_state_name c) ≡ some c
unfolding parse_clock_state clock_state_name
parse_clock_state-clock_state_name ClockState.unavailable h = refl
parse_clock_state-clock_state_name ClockState.synced h = refl
parse_clock_state-clock_state_name ClockState.estimated h = refl
parse_clock_state-clock_state_name ClockState.invalid h = refl
parse_clock_state-clock_state_name ClockState.other h = ground arith
