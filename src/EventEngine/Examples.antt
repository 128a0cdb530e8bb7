-- ===== src/EventEngine/Examples.antt =====
-- Tests of the engine's parts, and the theorems at concrete inputs.
use rv1126_custom_part.Base.{
  ℕ, ◌*◌, ◌/◌, pos, ◌≤ℤ◌, true, none, some, [], ◌∷◌, inr, ltb, if◌then◌else◌, codes, ◌≡◌, ◌≢◌, ◌⊎◌,
  refl, arith,
}
use rv1126_custom_part.Observation.Types.{Observation}
use rv1126_custom_part.Observation.Validate.{validate}
use rv1126_custom_part.Observation.Valid.{IsValid, validate_iff}
use rv1126_custom_part.EventEngine.Types.{Phase, Reason, zero_event, Engine, zero_summary}
use rv1126_custom_part.EventEngine.Timeline.{int64_max, timeline_at, scale_to_us}
use rv1126_custom_part.EventEngine.Tracks.{count_tracks, update_tracks}
use rv1126_custom_part.EventEngine.Tracks.Identity.{IsTable, update_tracks-IsTable, replicate-Apart}
use rv1126_custom_part.EventEngine.Identifiers.{event_id_text-injective}
use rv1126_custom_part.EventEngine.Outcomes.{quiet}
use rv1126_custom_part.EventEngine.Emission.{maybe_emit_update}
use rv1126_custom_part.EventEngine.Accepted.{cleared_tracks, process_idle, process_absent}
use rv1126_custom_part.EventEngine.Process.{process}
use rv1126_custom_part.EventEngine.Conditions.{AbsenceElapsed, Records, UpdateDue, Stamped}
use rv1126_custom_part.EventEngine.Emitted.{SendsIf}
use rv1126_custom_part.EventEngine.Timing.{
  process_absent-ends_iff, maybe_emit_update-emits_iff, process_absent-cooldown,
}
use rv1126_custom_part.EventEngine.Failures.{CountersOnly, process-CountersOnly}
use rv1126_custom_part.EventEngine.Streams.{scale_to_us_lem, process-stale}
use rv1126_custom_part.EventEngine.Scenes.{
  occupancy_config, person_at, frame, new_engine, evaluation,
}

abbrev first_frame : Observation
first_frame = frame 1 (person_at 7 ∷ []) []

first_frame_passes : validate first_frame ≡ none
unfolding evaluation
first_frame_passes = refl

first_frame-IsValid : IsValid first_frame
first_frame-IsValid = (validate_iff first_frame).0 first_frame_passes

abbrev fresh : Engine
fresh = new_engine occupancy_config

-- An event with two records, the last at one second.
abbrev busy : Engine
busy = record (new_engine occupancy_config) {
  active = true;
  active_event = record zero_event { event_id = codes "e"; phase = Phase.update; event_seq = 2 };
  have_last_observation = true;
  last_observation = frame 1 (person_at 7 ∷ []) [];
  update_pending = true;
  last_emit_timeline_us = pos 1000000;
  last_emit_timeline_valid = true;
}

process_absent-ends_iff_example :
    SendsIf
      (AbsenceElapsed busy (timeline_at (pos 2000000)))
      (process_absent busy first_frame 0 (timeline_at (pos 2000000)))
      Phase.end
      Reason.disappeared
      (codes "e")
      3
      first_frame
      0
    × (AbsenceElapsed busy (timeline_at (pos 2000000))
        ⊎ Records busy
            (timeline_at (pos 2000000))
            (process_absent busy first_frame 0 (timeline_at (pos 2000000))).engine)
process_absent-ends_iff_example =
    process_absent-ends_iff busy first_frame 0 (timeline_at (pos 2000000)) refl refl (omega arith)

maybe_emit_update-emits_iff_example :
    SendsIf
      (UpdateDue busy (timeline_at (pos 1050000)))
      (maybe_emit_update busy first_frame 1 (timeline_at (pos 1050000)))
      Phase.update
      Reason.unset
      (codes "e")
      3
      first_frame
      1
    × ((UpdateDue busy (timeline_at (pos 1050000))
          × Stamped
              (timeline_at (pos 1050000))
              (maybe_emit_update busy first_frame 1 (timeline_at (pos 1050000))).engine)
        ⊎ ((¬ UpdateDue busy (timeline_at (pos 1050000)))
            × ((maybe_emit_update busy first_frame 1 (timeline_at (pos 1050000))).engine ≡ busy)))
maybe_emit_update-emits_iff_example =
    maybe_emit_update-emits_iff busy first_frame 1 (timeline_at (pos 1050000)) refl (omega arith)

-- What the absence leaves, with a candidate that waits.
abbrev cooling : Engine
cooling = record (new_engine occupancy_config) {
  trigger_pending = true;
  trigger_frames = 1;
  cooldown_until_us = pos 7000000;
  cooldown_until_valid = true;
}

cooling-emits :
    (process_idle cooling first_frame zero_summary 1 true (timeline_at (pos 8000000))).out ≢ []
unfolding evaluation
cooling-emits h = ground (arith, h)

process_absent-cooldown_example : (pos 7000000 ≤ℤ pos 8000000) ⊎ (pos int64_max ≤ℤ pos 8000000)
unfolding evaluation
process_absent-cooldown_example =
    process_absent-cooldown busy first_frame 0 (timeline_at (pos 2000000)) cooling first_frame
      zero_summary 1 true (timeline_at (pos 8000000)) (omega arith) refl (omega arith) (omega arith)
      refl refl refl refl cooling-emits

process-CountersOnly_example : CountersOnly fresh (process fresh first_frame).code
process-CountersOnly_example = process-CountersOnly fresh first_frame first_frame-IsValid

cleared_tracks-IsTable : IsTable 64 cleared_tracks
cleared_tracks-IsTable = record { size = refl; apart = replicate-Apart 64 }

update_tracks-IsTable_example :
    IsTable 64 (update_tracks occupancy_config first_frame (timeline_at (pos 40000)) cleared_tracks)
update_tracks-IsTable_example =
    update_tracks-IsTable occupancy_config first_frame (timeline_at (pos 40000)) 64 cleared_tracks
      cleared_tracks-IsTable

one_person :
    count_tracks
      (update_tracks occupancy_config first_frame (timeline_at (pos 40000)) cleared_tracks)
    ≡ 1
unfolding evaluation
one_person = refl

event_id_text-injective_example : (◌≡◌ {A = ℕ} 1 1) × (◌≡◌ {A = ℕ} 9 9)
event_id_text-injective_example =
    event_id_text-injective (codes "cam0") (codes "cam0") 1 1 9 9 (omega arith) (omega arith)
      (omega arith) (omega arith) refl

scale_to_us_lem_example : scale_to_us 90000 1 90000 ≡ (
    if ltb int64_max (90000 * 1 * 1000000 / 90000)
    then none
    else some (pos (90000 * 1 * 1000000 / 90000)))
scale_to_us_lem_example = scale_to_us_lem 90000 1 90000 (omega arith) (omega arith) (omega arith)

-- The stream stands at its third frame.
abbrev at_third : Engine
at_third = record (new_engine occupancy_config) {
  have_stream = true;
  channel_id = codes "cam0";
  stream_epoch = 1;
  order = record {
    initialized = true;
    stream_epoch = 1;
    frame_id = 3;
    source_pts = pos 120000;
    source_pts_valid = true;
  };
}

process-stale_example : process at_third first_frame ≡ quiet 0 at_third
process-stale_example =
    process-stale at_third first_frame first_frame-IsValid refl (λ _. refl)
      (inr (refl, omega arith))
