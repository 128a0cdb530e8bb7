-- ===== src/Observation/Names.antt =====
-- The names of the enumerations, media_engine/src/analytics/observation.c.
use rv1126_custom_part.Base.{Text, codes}
use rv1126_custom_part.Observation.Types.{ClockState, TrackState, RuleType, RuleDirection}

-- me_clock_state_name
unfoldable pub clock_state_name : ClockState → Text
clock_state_name ClockState.unavailable = codes "unavailable"
clock_state_name ClockState.synced = codes "synced"
clock_state_name ClockState.estimated = codes "estimated"
clock_state_name ClockState.invalid = codes "invalid"
clock_state_name ClockState.other = codes "unknown"

-- me_track_state_name
unfoldable pub track_state_name : TrackState → Text
track_state_name TrackState.new = codes "new"
track_state_name TrackState.active = codes "active"
track_state_name TrackState.lost = codes "lost"
track_state_name TrackState.removed = codes "removed"
track_state_name _ = codes "unknown"

-- me_rule_type_name
unfoldable pub rule_type_name : RuleType → Text
rule_type_name RuleType.occupancy = codes "occupancy"
rule_type_name RuleType.line_cross = codes "line_cross"
rule_type_name RuleType.intrusion = codes "intrusion"
rule_type_name _ = codes "unknown"

-- me_rule_direction_name
unfoldable pub rule_direction_name : RuleDirection → Text
rule_direction_name RuleDirection.undirected = codes "none"
rule_direction_name RuleDirection.inward = codes "in"
rule_direction_name RuleDirection.outward = codes "out"
rule_direction_name RuleDirection.other = codes "unknown"
