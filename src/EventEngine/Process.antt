-- ===== src/EventEngine/Process.antt =====
-- The operations of the engine, media_engine/src/analytics/event_engine.c.
use rv1126_custom_part.EventEngine.Accepted.{clear_runtime, latest_person_count, process_accepted}
use rv1126_custom_part.EventEngine.Outcomes.{quiet, refuse, ◌andthen◌}
use rv1126_custom_part.Base.{
  ℕ, ◌+◌, Bool, true, false, not, ◌&&◌, leb, ◌==◌, if◌then◌else◌, Option, none, some, ◌⊎◌, inl, inr,
  text_eq, copy_text,
}
use rv1126_custom_part.Observation.Types.{channel_id_max, Observation}
use rv1126_custom_part.Observation.Validate.{validate}
use rv1126_custom_part.Observation.Order.{ObservationOrder, OrderResult, order_init, classify}
use rv1126_custom_part.AnalyticsConfig.Settings.{AnalyticsConfig, ConfigError, config_validate}
use rv1126_custom_part.EventEngine.Types.{
  Reason, Engine, zero_engine, EngineError, invalid_observation, invalid_config, bad_order,
  bad_reason, version_not_increasing, version_exhausted, Outcome,
}
use rv1126_custom_part.EventEngine.Timeline.{uint64_max, observation_timeline}
use rv1126_custom_part.EventEngine.Emission.{emit_end}

-- The END that a reset of the engine gives to an active event.
unfoldable pub end_active : Engine → Reason → Outcome
end_active e reason =
    if e.active && e.have_last_observation
    then emit_end e e.last_observation reason (latest_person_count e)
        (observation_timeline e.config.fps e.last_observation) false
    else quiet 0 e

-- me_event_engine_init: the engine, or why it returns -1.
unfoldable pub init : AnalyticsConfig → ℕ → Bool → ConfigError ⊎ Engine
init config config_version sink = elim (config_validate config) [
  | some err ↦ inl err
  | none ↦ inr (record zero_engine {
    config = config;
    config_version = if config_version == 0 then 1 else config_version;
    sink = sink;
    order = order_init;
  })
]

-- me_event_engine_deinit
unfoldable pub deinit : Engine → Outcome
deinit e = end_active e Reason.process_restart andthen λ ended. quiet 0 zero_engine

-- The observation becomes the latest of its stream.
abbrev pub adopt : Engine → ObservationOrder → Observation → Engine
adopt e next_order o = record e {
  order = next_order;
  have_stream = true;
  channel_id = copy_text channel_id_max o.channel_id;
  stream_epoch = o.stream_epoch;
  last_observation = o;
  have_last_observation = true;
}

-- The part of me_event_engine_process behind the classification.
unfoldable pub process_classified : Engine → Observation → ObservationOrder → OrderResult → Outcome
process_classified e o next_order OrderResult.invalid = refuse bad_order e
process_classified e o next_order OrderResult.duplicate = quiet 0 e
process_classified e o next_order OrderResult.out_of_order = quiet 0 e
process_classified e o next_order OrderResult.epoch_advance =
    end_active e Reason.stream_reset andthen λ ended.
    process_accepted (adopt (clear_runtime ended) next_order o) o
process_classified e o next_order OrderResult.first = process_accepted (adopt e next_order o) o
process_classified e o next_order OrderResult.accepted = process_accepted (adopt e next_order o) o

unfoldable pub process_ordered : Engine → Observation → Outcome
unfolding process_classified
process_ordered e o =
    let (next_order, result) = classify e.order o in process_classified e o next_order result

-- Another channel starts a new stream.
unfoldable pub process_channel : Engine → Observation → Outcome
unfolding process_ordered
process_channel e o =
    if e.have_stream && not (text_eq e.channel_id o.channel_id)
    then end_active e Reason.stream_reset andthen (λ ended.
      process_ordered (record (clear_runtime ended) { have_stream = false; order = order_init }) o)
    else process_ordered e o

-- me_event_engine_process
unfoldable pub process : Engine → Observation → Outcome
unfolding process_channel
process e o = elim (validate o) [
  | some err ↦ refuse (invalid_observation err) e
  | none ↦ process_channel e o
]

abbrev pub valid_event_reason : Reason → Bool
valid_event_reason Reason.unset = false
valid_event_reason Reason.other = false
valid_event_reason _ = true

-- me_event_engine_is_active
abbrev pub is_active : Engine → Bool
is_active e = e.active

-- me_event_engine_close
unfoldable pub close : Engine → Reason → Outcome
close e reason =
    if not (valid_event_reason reason)
    then refuse bad_reason e
    else end_active e reason andthen λ ended. quiet 0 (clear_runtime ended)

-- The version that a new configuration gets.
unfoldable pub next_version : ℕ → ℕ → Option ℕ
next_version current requested =
    if not (requested == 0)
    then if leb requested current then none else some requested
    else if current == uint64_max
    then none
    else some (current + 1)

abbrev version_error : ℕ → EngineError
version_error requested = if requested == 0 then version_exhausted else version_not_increasing

abbrev pub install : Engine → AnalyticsConfig → ℕ → Engine
install e config version = record (clear_runtime e) { config = config; config_version = version }

abbrev pub reconfigure_reason : AnalyticsConfig → Reason
reconfigure_reason config =
    if config.enabled then Reason.reconfigured else Reason.analytics_disabled

unfoldable pub reconfigure_valid : Engine → AnalyticsConfig → ℕ → Outcome
unfolding next_version
reconfigure_valid e config requested = elim (next_version e.config_version requested) [
  | none ↦ refuse (version_error requested) e
  | some version ↦ end_active e (reconfigure_reason config) andthen λ ended.
      quiet 0 (install ended config version)
]

-- me_event_engine_reconfigure
unfoldable pub reconfigure : Engine → AnalyticsConfig → ℕ → Outcome
unfolding reconfigure_valid
reconfigure e config requested = elim (config_validate config) [
  | some err ↦ refuse (invalid_config err) e
  | none ↦ reconfigure_valid e config requested
]
