-- ===== src/EventEngine/Scenes.antt =====
-- A configuration, an engine and observations on which tests and witnesses run.
use rv1126_custom_part.EventEngine.Accepted.{
  process_accepted, process_enabled, process_matched, process_counted, process_idle, process_absent,
  process_present,
}
use rv1126_custom_part.EventEngine.Outcomes.{◌andthen◌}
use rv1126_custom_part.EventEngine.Naming.{event_id_text, hex_digits, channel_hash}
use rv1126_custom_part.Base.{
  ℕ, ◌*◌, pos, true, List, inr, ◌≡◌, refl, codes, text_case_eq, bounded_string,
}
use rv1126_custom_part.Base.{text_eq, copy_text}
use rv1126_custom_part.Observation.Validate.{validate}
use rv1126_custom_part.Observation.Order.{classify}
use rv1126_custom_part.EventEngine.Timeline.{
  observation_timeline, elapsed_at_least, time_add_ms, saturating_add_u32,
}
use rv1126_custom_part.EventEngine.Tracks.{
  find_slot, track_inside, update_track_inside, track_confirmed, see_track, update_tracks,
  count_tracks,
}
use rv1126_custom_part.EventEngine.Rules.{matching_rules, remember_rule_facts}
use rv1126_custom_part.EventEngine.Emission.{emit_start, maybe_emit_update, emit_end, mark_update}
use rv1126_custom_part.Observation.Types.{
  ClockState, TrackClass, TrackState, RuleType, RuleDirection, TrackObservation, RuleFact,
  Observation, zero_observation,
}
use rv1126_custom_part.AnalyticsConfig.Settings.{
  AnalyticsConfig, zero_config, config_validate, evidence_mode_valid,
}
use rv1126_custom_part.EventEngine.Types.{Engine, zero_engine}
use rv1126_custom_part.EventEngine.Process.{process, close, end_active, reconfigure, deinit, init}

-- Occupancy at 25 frames a second; one frame confirms, and there is no debounce.
abbrev pub occupancy_config : AnalyticsConfig
occupancy_config = record zero_config {
  enabled = true;
  backend = codes "rockiva";
  model = codes "person";
  width = pos 640;
  height = pos 480;
  fps = pos 25;
  confirm_frames = 1;
  confirm_ms = 300;
  disappear_grace_ms = 0;
  cooldown_ms = 5000;
  update_interval_ms = 100;
  rule_id = codes "people-flow";
  rule_type = RuleType.occupancy;
  evidence_mode = codes "stock_wvp_pull";
  evidence_max_bytes = 1000;
  evidence_retention_s = 60;
  evidence_jpeg_quality = 85;
  event_log_max_records = 16;
  event_log_max_bytes = 1000;
  event_log_path = codes "/data/events";
}

abbrev pub line_config : AnalyticsConfig
line_config = record occupancy_config { rule_type = RuleType.line_cross; rule_id = codes "gate" }

abbrev pub person_at : ℕ → TrackObservation
person_at id = record {
  track_id = id;
  class_id = TrackClass.person;
  state = TrackState.active;
  bbox = record { left = 1000; top = 1000; right = 3000; bottom = 5000 };
  score_q = 9000;
}

abbrev pub crossing : ℕ → RuleFact
crossing id = record {
  rule_id = codes "gate";
  rule_type = RuleType.line_cross;
  direction = RuleDirection.inward;
  score_q = 9000;
  track_id = id;
}

-- Frame `n` of the channel, 40 milliseconds apart.
abbrev pub frame : ℕ → List TrackObservation → List RuleFact → Observation
frame n tracks rules = record zero_observation {
  contract_version = 2;
  channel_id = codes "cam0";
  stream_epoch = 1;
  frame_id = n;
  source_pts = pos (n * 40000);
  source_pts_valid = true;
  source_timebase = record { num = 1; den = 1000000 };
  clock_state = ClockState.synced;
  capture_time_us = pos 1700000000000000;
  frame_width = 640;
  frame_height = 480;
  backend_name = codes "rockiva";
  backend_version = codes "1";
  model_version = codes "1";
  tracks = tracks;
  rules = rules;
}

-- What init makes of the configuration.
abbrev pub new_engine : AnalyticsConfig → Engine
new_engine c = record zero_engine { config = c; config_version = 1; sink = true }

pub occupancy_starts : init occupancy_config 1 true ≡ inr (new_engine occupancy_config)
unfolding init config_validate evidence_mode_valid text_case_eq bounded_string
occupancy_starts = refl

pub line_starts : init line_config 1 true ≡ inr (new_engine line_config)
unfolding init config_validate evidence_mode_valid text_case_eq bounded_string
line_starts = refl

-- To unfold this is to unfold all that a run of the engine computes with.
unfoldable pub evaluation : Unit {0}
unfolding validate bounded_string text_eq text_case_eq classify observation_timeline
    elapsed_at_least time_add_ms saturating_add_u32 update_tracks count_tracks find_slot
    update_track_inside track_inside track_confirmed see_track remember_rule_facts matching_rules
    emit_start maybe_emit_update emit_end mark_update ◌andthen◌ copy_text process process_accepted
    process_enabled process_matched process_counted process_idle process_absent process_present
    close end_active reconfigure config_validate evidence_mode_valid deinit init event_id_text
    hex_digits channel_hash
evaluation = tt
