-- ===== src/EventEngine/Lifecycle/Branches.antt =====
-- The branches of process_accepted in media_engine/src/analytics/event_engine.c keep to the
-- protocol of the records.
use rv1126_custom_part.EventEngine.Accepted.{
  update_trigger_candidate, trigger_qualified, process_idle, start_absence, process_absent,
  mark_change, process_present, process_counted, process_matched, process_enabled, process_accepted,
}
use rv1126_custom_part.EventEngine.Outcomes.{quiet, ◌andthen◌}
use rv1126_custom_part.Base.{ℕ, Bool, true, false, ◌≡◌, refl, arith, Bool-cases, inl, inr, ◌∙◌}
use rv1126_custom_part.Observation.Types.{Observation}
use rv1126_custom_part.EventEngine.Types.{Reason, Engine, Timeline, RuleSummary, Outcome}
use rv1126_custom_part.EventEngine.Rules.{remember_rule_facts}
use rv1126_custom_part.EventEngine.Timeline.{observation_timeline}
use rv1126_custom_part.EventEngine.Emission.{
  clear_trigger_candidate, mark_update, emit_start, maybe_emit_update,
}
use rv1126_custom_part.EventEngine.Lifecycle.Records.{
  IsTraced, Leads, follow, LooksAs, LooksAs-IsTraced, LooksAs-Leads, quiet-Leads, andthen-Leads,
  emit_start-Leads, maybe_emit_update-Leads, emit_end-Leads,
}

-- An engine whose records go somewhere, with an observation at hand.
abbrev pub IsFed : Engine → Type 0
IsFed e = IsTraced e × (e.have_last_observation ≡ true)

update_trigger_candidate-LooksAs :
    (e : Engine) (condition : Bool) (now : Timeline)
    → LooksAs e (update_trigger_candidate e condition now)
unfolding update_trigger_candidate
update_trigger_candidate-LooksAs e condition now = ground arith

mark_change-LooksAs :
    (e : Engine) (summary : RuleSummary) (person_count : ℕ)
    → LooksAs e (mark_change e summary person_count)
unfolding mark_change mark_update
mark_change-LooksAs e summary person_count = ground arith

process_idle-Leads :
    (e : Engine) (o : Observation) (summary : RuleSummary) (person_count : ℕ) (condition : Bool)
    (now : Timeline)
    → IsFed e
    → e.active ≡ false
    → Leads e (process_idle e o summary person_count condition now)
unfolding process_idle
process_idle-Leads e o summary person_count condition now (t, l) a =
    elim (Bool-cases (trigger_qualified waiting now)) [
      | inl q ↦ rw (q, process_idle) (LooksAs-Leads e waiting begun same start)
      | inr q ↦ rw (q, process_idle) (quiet-Leads e waiting same t)
    ]
  where
    waiting : Engine
    waiting = update_trigger_candidate e condition now

    same : LooksAs e waiting
    same = update_trigger_candidate-LooksAs e condition now

    begun : Outcome
    begun = emit_start waiting o summary person_count now andthen (λ started.
        quiet 0 (record (clear_trigger_candidate started) { absent_since_valid = false }))

    start : Leads waiting begun
    start =
        let started = emit_start waiting o summary person_count now in
        let led : Leads waiting started =
          emit_start-Leads waiting o summary person_count now (LooksAs-IsTraced e waiting same t)
            (same.same_active ∙ a) (same.same_observed ∙ l) in
        andthen-Leads waiting started _ led (λ _.
          quiet-Leads started.engine _
            (record {
              same_sink = refl;
              same_active = refl;
              same_event = refl;
              same_observed = refl;
            })
            led.0)

process_absent-Leads :
    (e : Engine) (o : Observation) (person_count : ℕ) (now : Timeline)
    → IsTraced e
    → Leads e (process_absent e o person_count now)
unfolding process_absent follow
process_absent-Leads e o person_count now t =
    ground (arith, emit_end-Leads (start_absence e now) o Reason.disappeared person_count now true)

process_present-Leads :
    (e : Engine) (o : Observation) (summary : RuleSummary) (person_count : ℕ) (now : Timeline)
    → IsTraced e
    → e.active ≡ true
    → Leads e (process_present e o summary person_count now)
unfolding process_present
process_present-Leads e o summary person_count now t a =
    LooksAs-Leads e marked (maybe_emit_update marked o person_count now) same (
      maybe_emit_update-Leads marked o person_count now (LooksAs-IsTraced e marked same t)
        (same.same_active ∙ a))
  where
    marked : Engine
    marked = mark_change (record e { absent_since_valid = false }) summary person_count

    same : LooksAs e marked
    same =
        let s =
          mark_change-LooksAs (record e { absent_since_valid = false }) summary person_count in
        record {
          same_sink = s.same_sink;
          same_active = s.same_active;
          same_event = s.same_event;
          same_observed = s.same_observed;
        }

process_counted-Leads :
    (e : Engine) (o : Observation) (summary : RuleSummary) (person_count : ℕ) (condition : Bool)
    (now : Timeline)
    → IsFed e
    → Leads e (process_counted e o summary person_count condition now)
unfolding process_counted
process_counted-Leads e o summary person_count condition now (t, l) = ground (
  arith,
  process_idle-Leads e o summary person_count condition now (t, l),
  process_absent-Leads e o person_count now t,
  process_present-Leads e o summary person_count now t,
)

process_matched-Leads :
    (e : Engine) (o : Observation) (summary : RuleSummary) (person_count : ℕ) (condition : Bool)
    (now : Timeline)
    → IsFed e
    → Leads e (process_matched e o summary person_count condition now)
unfolding process_matched follow
process_matched-Leads e o summary person_count condition now (t, l) =
    let states = (remember_rule_facts summary).0 in
    ground (
      arith,
      process_counted-Leads e o summary person_count condition now (t, l),
      process_counted-Leads (record e { rule_fact_states = states }) o summary person_count
          condition now (record { sink_set = t.sink_set; observed = t.observed }, l),
    )

process_enabled-Leads :
    (e : Engine) (o : Observation) (now : Timeline) → IsFed e → Leads e (process_enabled e o now)
unfolding process_enabled
process_enabled-Leads e o now (t, l) =
    process_matched-Leads _ o _ _ _ now (record { sink_set = t.sink_set; observed = t.observed }, l)

-- An accepted observation keeps to the protocol.
pub process_accepted-Leads :
    (e : Engine) (o : Observation) → IsFed e → Leads e (process_accepted e o)
unfolding process_accepted follow
process_accepted-Leads e o (t, l) =
    ground (arith, process_enabled-Leads e o (observation_timeline e.config.fps o) (t, l))
