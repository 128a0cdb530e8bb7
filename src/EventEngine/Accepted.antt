-- ===== src/EventEngine/Accepted.antt =====
-- An accepted observation, media_engine/src/analytics/event_engine.c.
use rv1126_custom_part.EventEngine.Outcomes.{quiet, refuse, ◌andthen◌}
use rv1126_custom_part.Base.{
  ℕ, ◌+◌, ◌*◌, pos, leb_ℤ, Bool, true, false, not, ◌&&◌, ◌||◌, ltb, leb, ◌==◌, if◌then◌else◌, List,
  [], replicate,
}
use rv1126_custom_part.Observation.Types.{max_tracks, Observation}
use rv1126_custom_part.EventEngine.Types.{
  Reason, zero_event, zero_track, TrackSlot, Engine, Timeline, RuleSummary, facts_exhausted,
  Outcome,
}
use rv1126_custom_part.EventEngine.Timeline.{uint32_max, observation_timeline, elapsed_at_least}
use rv1126_custom_part.EventEngine.Tracks.{update_tracks, count_tracks}
use rv1126_custom_part.EventEngine.Rules.{
  cleared_fact_states, remember_rule_facts, matching_rules, is_occupancy,
}
use rv1126_custom_part.EventEngine.Emission.{
  clear_trigger_candidate, clear_pending, emit_start, mark_update, maybe_emit_update, emit_end,
}

abbrev pub cleared_tracks : List TrackSlot
cleared_tracks = replicate max_tracks zero_track

abbrev pub clear_runtime : Engine → Engine
clear_runtime e = clear_pending (record e {
  active = false;
  active_event = zero_event;
  active_person_count = 0;
  latest_person_count = 0;
  latest_person_count_valid = false;
  cooldown_until_us = pos 0;
  cooldown_until_valid = false;
  tracks = cleared_tracks;
  rule_fact_states = cleared_fact_states;
})

abbrev pub latest_person_count : Engine → ℕ
latest_person_count e =
    if e.latest_person_count_valid then e.latest_person_count else e.active_person_count

unfoldable pub cooldown_elapsed : Engine → Timeline → Bool
cooldown_elapsed e now =
    if not e.cooldown_until_valid
    then true
    else if not now.valid
    then false
    else leb_ℤ e.cooldown_until_us now.us

unfoldable pub update_trigger_candidate : Engine → Bool → Timeline → Engine
update_trigger_candidate e condition now =
    if not condition
    then clear_trigger_candidate e
    else if not e.trigger_pending
    then record e {
      trigger_pending = true;
      trigger_frames = 1;
      trigger_since_us = now.us;
      trigger_since_valid = now.valid;
    }
    else if ltb e.trigger_frames uint32_max
    then record e { trigger_frames = e.trigger_frames + 1 }
    else e

unfoldable pub trigger_qualified : Engine → Timeline → Bool
unfolding cooldown_elapsed
trigger_qualified e now =
    let confirm_us = e.config.confirm_ms * 1000 in
    let debounce_us = e.config.debounce_ms * 1000 in
    let confirmed =
      ltb 0 e.config.confirm_frames && leb e.config.confirm_frames e.trigger_frames
      || elapsed_at_least now e.trigger_since_us e.trigger_since_valid confirm_us in
    if not e.trigger_pending
    then false
    else if not confirmed || not (cooldown_elapsed e now)
    then false
    else debounce_us == 0
      || elapsed_at_least now e.trigger_since_us e.trigger_since_valid debounce_us
      || not now.valid

-- What process_accepted does with no active event.
unfoldable pub process_idle : Engine → Observation → RuleSummary → ℕ → Bool → Timeline → Outcome
unfolding update_trigger_candidate trigger_qualified
process_idle e o summary person_count condition now =
    let waiting = update_trigger_candidate e condition now in
    if trigger_qualified waiting now
    then emit_start waiting o summary person_count now andthen (λ started.
      quiet 0 (record (clear_trigger_candidate started) { absent_since_valid = false }))
    else quiet 0 waiting

abbrev pub start_absence : Engine → Timeline → Engine
start_absence e now =
    if e.absent_since_valid
    then e
    else record e { absent_since_us = now.us; absent_since_valid = now.valid }

-- What it does with an active event whose condition does not hold.
unfoldable pub process_absent : Engine → Observation → ℕ → Timeline → Outcome
process_absent e o person_count now =
    let absence_us = e.config.disappear_grace_ms * 1000 in
    let absent = start_absence e now in
    if absence_us == 0
      || elapsed_at_least now absent.absent_since_us absent.absent_since_valid absence_us
    then emit_end absent o Reason.disappeared person_count now true
    else quiet 0 absent

-- The update that the observation asks for, if any.
unfoldable pub mark_change : Engine → RuleSummary → ℕ → Engine
mark_change e summary person_count =
    if is_occupancy e.config.rule_type
    then if not (person_count == e.active_person_count)
      then mark_update e person_count 0 0 [] Reason.count_changed
      else e
    else if ltb 0 summary.new_match_count
    then mark_update e person_count summary.delta_in summary.delta_out summary.track_ids
        Reason.direction
    else e

-- What it does with an active event whose condition holds.
unfoldable pub process_present : Engine → Observation → RuleSummary → ℕ → Timeline → Outcome
unfolding mark_change
process_present e o summary person_count now =
    maybe_emit_update (mark_change (record e { absent_since_valid = false }) summary person_count) o
      person_count now

unfoldable pub process_counted : Engine → Observation → RuleSummary → ℕ → Bool → Timeline → Outcome
process_counted e o summary person_count condition now =
    if not e.active
    then process_idle e o summary person_count condition now
    else if not condition
    then process_absent e o person_count now
    else process_present e o summary person_count now

-- The facts of an active rule event are remembered first.
unfoldable pub process_matched : Engine → Observation → RuleSummary → ℕ → Bool → Timeline → Outcome
process_matched e o summary person_count condition now =
    let (states, stored) = remember_rule_facts summary in
    let remembered = record e { rule_fact_states = states } in
    if e.active && not (is_occupancy e.config.rule_type)
    then if stored
      then process_counted remembered o summary person_count condition now
      else refuse facts_exhausted remembered
    else process_counted e o summary person_count condition now

unfoldable pub process_enabled : Engine → Observation → Timeline → Outcome
process_enabled e o now =
    let tracks = update_tracks e.config o now e.tracks in
    let person_count = count_tracks tracks in
    let summary = matching_rules e.config e.rule_fact_states o in
    let condition =
      if is_occupancy e.config.rule_type then ltb 0 person_count else ltb 0 summary.match_count in
    process_matched
      (record e {
        tracks = tracks;
        latest_person_count = person_count;
        latest_person_count_valid = true;
      })
      o summary person_count condition now

unfoldable pub process_accepted : Engine → Observation → Outcome
process_accepted e o =
    let now = observation_timeline e.config.fps o in
    if not e.config.enabled
    then quiet 0 (
        clear_pending (record e {
          latest_person_count = 0;
          latest_person_count_valid = true;
          tracks = cleared_tracks;
        }))
    else process_enabled e o now
