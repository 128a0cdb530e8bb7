-- ===== src/EventEngine/Emission.antt =====
-- The three kinds of records, media_engine/src/analytics/event_engine.c.
use rv1126_custom_part.EventEngine.Outcomes.{quiet, refuse, emit_event, ◌andthen◌}
use rv1126_custom_part.EventEngine.Naming.{new_event_id}
use rv1126_custom_part.Base.{
  ℕ, ◌+◌, ◌*◌, ℤ, pos, Bool, true, false, not, ◌&&◌, ltb, ◌==◌, if◌then◌else◌, Option, none, some,
  List, [], ◌∷◌, ◌++◌, length, take, Text, copy_text,
}
use rv1126_custom_part.Observation.Types.{channel_id_max, rule_id_max, RuleFact, Observation}
use rv1126_custom_part.EventEngine.Types.{
  event_contract_version, event_max_tracks, Phase, Reason, Event, zero_event, Engine, Timeline,
  RuleSummary, serial_exhausted, sequence_exhausted, facts_exhausted, Outcome,
}
use rv1126_custom_part.EventEngine.Timeline.{
  uint64_max, has_wall_clock, elapsed_at_least, time_add_ms, saturating_add_u32,
}
use rv1126_custom_part.EventEngine.Rules.{contains, cleared_fact_states, remember_rule_facts}

unfoldable pub increment_event_seq : Event → Option Event
increment_event_seq event =
    if event.event_seq == uint64_max
    then none
    else some (record event { event_seq = event.event_seq + 1 })

abbrev pub copy_observation_context : Event → Observation → ℕ → ℕ → ℕ → Event
copy_observation_context event o person_count delta_in delta_out = record event {
  channel_id = copy_text channel_id_max o.channel_id;
  stream_epoch = o.stream_epoch;
  event_time_us = if has_wall_clock o.clock_state then o.capture_time_us else pos 0;
  clock_state = o.clock_state;
  source_pts = o.source_pts;
  source_pts_valid = o.source_pts_valid;
  source_timebase = o.source_timebase;
  frame_id = o.frame_id;
  person_count = person_count;
  delta_in = delta_in;
  delta_out = delta_out;
}

abbrev pub copy_responsible_tracks : Event → List ℕ → Event
copy_responsible_tracks event track_ids = record event {
  responsible_track_ids = take event_max_tracks track_ids;
}

abbrev pub clear_trigger_candidate : Engine → Engine
clear_trigger_candidate e = record e {
  trigger_pending = false;
  trigger_frames = 0;
  trigger_since_us = pos 0;
  trigger_since_valid = false;
}

abbrev pub clear_pending : Engine → Engine
clear_pending e = record e {
  trigger_pending = false;
  trigger_frames = 0;
  trigger_since_us = pos 0;
  trigger_since_valid = false;
  absent_since_us = pos 0;
  absent_since_valid = false;
  update_pending = false;
  pending_person_count = 0;
  pending_delta_in = 0;
  pending_delta_out = 0;
  pending_track_ids = [];
  pending_reason = Reason.unset;
  last_emit_timeline_us = pos 0;
  last_emit_timeline_valid = false;
}

abbrev rule_id_or : Option RuleFact → Text → Text
rule_id_or none rule_id = rule_id
rule_id_or (some first) rule_id = copy_text rule_id_max first.rule_id

-- The fields of a START record that the identifier does not need.
unfoldable pub start_event : Engine → Observation → RuleSummary → ℕ → Text → Event
start_event e o summary person_count id =
    copy_responsible_tracks
      (copy_observation_context
        (record zero_event {
          contract_version = event_contract_version;
          event_id = id;
          event_type = e.config.rule_type;
          rule_id = rule_id_or summary.first (copy_text rule_id_max e.config.rule_id);
          phase = Phase.start;
          event_seq = 1;
          reason = Reason.confirmed;
          config_version = e.config_version;
        })
        o person_count summary.delta_in summary.delta_out)
      summary.track_ids

abbrev start_remembered : Engine → ℕ → Timeline → Bool → Outcome
start_remembered e person_count now false = refuse facts_exhausted e
start_remembered e person_count now true =
    let started = record e {
      active = true;
      active_person_count = person_count;
      last_emit_timeline_us = now.us;
      last_emit_timeline_valid = now.valid;
    } in
    emit_event started started.active_event

abbrev start_identified : Engine → Observation → RuleSummary → ℕ → Timeline → Option Text → Outcome
start_identified e o summary person_count now none =
    refuse serial_exhausted
      (record e { active_event = record zero_event { contract_version = event_contract_version } })
start_identified e o summary person_count now (some id) =
    let (states, stored) = remember_rule_facts summary in
    start_remembered
      (record e {
        next_event_serial = e.next_event_serial + 1;
        active_event = start_event e o summary person_count id;
        rule_fact_states = states;
      })
      person_count now stored

-- The summary is never a null pointer here.
unfoldable pub emit_start : Engine → Observation → RuleSummary → ℕ → Timeline → Outcome
unfolding new_event_id start_event
emit_start e o summary person_count now =
    start_identified e o summary person_count now
      (new_event_id e.next_event_serial o.channel_id o.stream_epoch)

-- The loop of mark_update: each identity once, and sixteen at most.
unfoldable pub add_pending_tracks : List ℕ → List ℕ → List ℕ
unfolding contains
add_pending_tracks pending [] = pending
add_pending_tracks pending (id ∷ ids) =
    add_pending_tracks
      (if not (contains pending id) && ltb (length pending) event_max_tracks
        then pending ++ id ∷ []
        else pending)
      ids

-- A null pointer for the identities is the empty list.
unfoldable pub mark_update : Engine → ℕ → ℕ → ℕ → List ℕ → Reason → Engine
unfolding add_pending_tracks
mark_update e person_count delta_in delta_out track_ids reason = record e {
  update_pending = true;
  pending_person_count = person_count;
  pending_delta_in =
      if ltb 0 delta_in then saturating_add_u32 e.pending_delta_in delta_in else e.pending_delta_in;
  pending_delta_out =
      if ltb 0 delta_out
      then saturating_add_u32 e.pending_delta_out delta_out
      else e.pending_delta_out;
  pending_track_ids = add_pending_tracks e.pending_track_ids track_ids;
  pending_reason = reason;
}

-- The UPDATE record, of the active event with its sequence number advanced.
unfoldable pub update_event : Engine → Observation → ℕ → Event → Event
update_event e o person_count event =
    copy_responsible_tracks
      (copy_observation_context (record event { phase = Phase.update; reason = e.pending_reason }) o
        person_count e.pending_delta_in e.pending_delta_out)
      e.pending_track_ids

abbrev update_numbered : Engine → Observation → ℕ → Timeline → Option Event → Outcome
update_numbered e o person_count now none = refuse sequence_exhausted e
update_numbered e o person_count now (some event) =
    let updated = record e {
      active_event = update_event e o person_count event;
      active_person_count = person_count;
      last_emit_timeline_us = now.us;
      last_emit_timeline_valid = now.valid;
      update_pending = false;
      pending_person_count = 0;
      pending_delta_in = 0;
      pending_delta_out = 0;
      pending_reason = Reason.unset;
    } in
    emit_event updated updated.active_event

-- The last record is younger than the update interval.
unfoldable pub too_soon : Engine → Timeline → Bool
too_soon e now =
    e.last_emit_timeline_valid
    && now.valid
    && not (elapsed_at_least now e.last_emit_timeline_us true (e.config.update_interval_ms * 1000))

unfoldable pub maybe_emit_update : Engine → Observation → ℕ → Timeline → Outcome
unfolding increment_event_seq update_event too_soon
maybe_emit_update e o person_count now =
    if not e.update_pending
    then quiet 0 e
    else if too_soon e now
    then quiet 0 e
    else update_numbered e o person_count now (increment_event_seq e.active_event)

-- The END record, of the active event with its sequence number advanced.
unfoldable pub end_event : Engine → Observation → Reason → ℕ → Event → Event
end_event e o reason person_count event =
    let ended =
      copy_observation_context (record event { phase = Phase.end; reason = reason }) o person_count
        e.pending_delta_in e.pending_delta_out in
    if ltb 0 (length e.pending_track_ids)
    then copy_responsible_tracks ended e.pending_track_ids
    else ended

abbrev set_cooldown : Engine → Option ℤ → Engine
set_cooldown e none = record e { cooldown_until_valid = false }
set_cooldown e (some t) = record e { cooldown_until_us = t; cooldown_until_valid = true }

-- What emit_end does after the sink was called.
unfoldable pub settle : Engine → Timeline → Bool → Engine
settle e now apply_cooldown =
    let cooled =
      if apply_cooldown && now.valid && ltb 0 e.config.cooldown_ms
      then set_cooldown e (time_add_ms now.us e.config.cooldown_ms)
      else e in
    clear_pending (record cooled {
      active = false;
      active_person_count = 0;
      rule_fact_states = cleared_fact_states;
    })

abbrev end_numbered : Engine → Observation → Reason → ℕ → Timeline → Bool → Option Event → Outcome
end_numbered e o reason person_count now apply_cooldown none = refuse sequence_exhausted e
end_numbered e o reason person_count now apply_cooldown (some event) =
    let ended = record e { active_event = end_event e o reason person_count event } in
    emit_event ended ended.active_event andthen λ e'. quiet 0 (settle e' now apply_cooldown)

unfoldable pub emit_end : Engine → Observation → Reason → ℕ → Timeline → Bool → Outcome
unfolding increment_event_seq end_event settle ◌andthen◌
emit_end e o reason person_count now apply_cooldown =
    if not e.active
    then quiet 0 e
    else end_numbered e o reason person_count now apply_cooldown
        (increment_event_seq e.active_event)
