-- ===== src/EventEngine/Names.antt =====
-- The names of phases and reasons, media_engine/src/analytics/event_engine.c.
use rv1126_custom_part.Base.{Text, codes}
use rv1126_custom_part.EventEngine.Types.{Phase, Reason}

-- me_event_phase_name
unfoldable pub phase_name : Phase → Text
phase_name Phase.unset = codes "UNKNOWN"
phase_name Phase.start = codes "START"
phase_name Phase.update = codes "UPDATE"
phase_name Phase.end = codes "END"

-- me_event_reason_name
unfoldable pub reason_name : Reason → Text
reason_name Reason.unset = codes "none"
reason_name Reason.confirmed = codes "confirmed"
reason_name Reason.count_changed = codes "count_changed"
reason_name Reason.direction = codes "direction"
reason_name Reason.disappeared = codes "disappeared"
reason_name Reason.stream_reset = codes "stream_reset"
reason_name Reason.reconfigured = codes "reconfigured"
reason_name Reason.analytics_disabled = codes "analytics_disabled"
reason_name Reason.process_restart = codes "process_restart"
reason_name Reason.other = codes "unknown"
