-- ===== src/EventEngine/Failures.antt =====
-- Why me_event_engine_process of media_engine/src/analytics/event_engine.c can return -1.
use rv1126_custom_part.EventEngine.Accepted.{
  clear_runtime, update_trigger_candidate, trigger_qualified, mark_change, start_absence,
  latest_person_count, process_idle, process_absent, process_present, process_counted,
  process_matched, process_enabled, process_accepted,
}
use rv1126_custom_part.EventEngine.Outcomes.{add_code, ◌andthen◌}
use rv1126_custom_part.Base.{
  ℕ, Bool, true, false, none, not, if◌then◌else◌, ◌==◌, ◌⊎◌, inl, inr, ◌≡◌, ◌≢◌, refl, sym, ◌∙◌,
  arith, Bool-cases,
}
use rv1126_custom_part.Observation.Types.{Observation}
use rv1126_custom_part.Observation.Validate.{validate}
use rv1126_custom_part.Observation.Valid.{IsValid, validate_iff}
use rv1126_custom_part.Observation.Order.{ObservationOrder, OrderResult, order_init, classify}
use rv1126_custom_part.Observation.Progress.{classify-Verdict}
use rv1126_custom_part.EventEngine.Types.{
  Reason, Engine, Timeline, RuleSummary, serial_exhausted, sequence_exhausted, ReturnCode, count,
  failed, Outcome,
}
use rv1126_custom_part.EventEngine.Timeline.{uint64_max, observation_timeline}
use rv1126_custom_part.EventEngine.Identifiers.{new_event_id-some}
use rv1126_custom_part.EventEngine.Rules.{remember_rule_facts}
use rv1126_custom_part.EventEngine.Rules.Capacity.{
  IsSmall, remember_rule_facts-stored, matching_rules-IsSmall,
}
use rv1126_custom_part.EventEngine.Emission.{
  emit_start, mark_update, maybe_emit_update, settle, emit_end,
}
use rv1126_custom_part.EventEngine.Process.{
  end_active, adopt, process_classified, process_ordered, process_channel, process,
}

-- The value is a number of records, or a 64-bit counter of the engine has run out: of the events that
-- it has identified, or of the records of its active event.
abbrev pub CountersOnly : Engine → ReturnCode → Type 0
CountersOnly e (count n) = Unit {0}
CountersOnly e (failed err) =
    ((err ≡ serial_exhausted) × (e.next_event_serial ≡ uint64_max))
    ⊎ ((err ≡ sequence_exhausted) × (e.active ≡ true) × (e.active_event.event_seq ≡ uint64_max))

-- The counters of the second engine are those of the first, or those of no active event.
abbrev Carries : Engine → Engine → Type 0
Carries e e' =
    (e'.next_event_serial ≡ e.next_event_serial)
    × ((e'.active ≡ false)
        ⊎ ((e'.active ≡ e.active) × (e'.active_event.event_seq ≡ e.active_event.event_seq)))

CountersOnly-Carries :
    (e e' : Engine) (code : ReturnCode) → Carries e e' → CountersOnly e' code → CountersOnly e code
CountersOnly-Carries e e' (count n) c h = tt
CountersOnly-Carries e e' (failed err) (serial, inl idle) (inl (r, x)) = inl (r, sym serial ∙ x)
CountersOnly-Carries e e' (failed err) (serial, inr same) (inl (r, x)) = inl (r, sym serial ∙ x)
CountersOnly-Carries e e' (failed err) (serial, inl idle) (inr (r, active, x)) =
    absurd (ground (arith, idle, active))
CountersOnly-Carries e e' (failed err) (serial, inr (same, seq)) (inr (r, active, x)) =
    inr (r, sym same ∙ active, sym seq ∙ x)

andthen-CountersOnly :
    (e : Engine) (r : Outcome) (next : Engine → Outcome)
    → CountersOnly e r.code
    → CountersOnly e (next r.engine).code
    → CountersOnly e (r andthen next).code
unfolding ◌andthen◌
andthen-CountersOnly e r next h k = go r.code refl
  where
    join : (n : ℕ) (c : ReturnCode) → CountersOnly e c → CountersOnly e (add_code n c)
    join n (count m) u = tt
    join n (failed err) u = u

    go : (c : ReturnCode) → r.code ≡ c → CountersOnly e (r andthen next).code
    go (count n) q = rw (q, ◌andthen◌) (join n (next r.engine).code k)
    go (failed err) q = rw (q, ◌andthen◌) (rw q at h)

emit_start-CountersOnly :
    (e : Engine) (o : Observation) (summary : RuleSummary) (person_count : ℕ) (now : Timeline)
    → IsSmall summary
    → CountersOnly e (emit_start e o summary person_count now).code
unfolding emit_start
emit_start-CountersOnly e o summary person_count now s =
    elim (Bool-cases (e.next_event_serial == uint64_max)) [
      | inl last ↦ ground (arith, last, remember_rule_facts-stored summary s)
      | inr more ↦ ground (
        arith,
        new_event_id-some e.next_event_serial o.channel_id o.stream_epoch (ground (arith, more)),
        remember_rule_facts-stored summary s,
      )
    ]

emit_end-CountersOnly :
    (e : Engine) (o : Observation) (reason : Reason) (person_count : ℕ) (now : Timeline)
    (apply_cooldown : Bool)
    → CountersOnly e (emit_end e o reason person_count now apply_cooldown).code
unfolding emit_end
emit_end-CountersOnly e o reason person_count now apply_cooldown = ground arith

waiting-Carries :
    (e : Engine) (condition : Bool) (now : Timeline)
    → Carries e (update_trigger_candidate e condition now)
unfolding update_trigger_candidate
waiting-Carries e condition now = ground arith

process_idle-CountersOnly :
    (e : Engine) (o : Observation) (summary : RuleSummary) (person_count : ℕ) (condition : Bool)
    (now : Timeline)
    → IsSmall summary
    → CountersOnly e (process_idle e o summary person_count condition now).code
unfolding process_idle
process_idle-CountersOnly e o summary person_count condition now s =
    let waiting = update_trigger_candidate e condition now in
    let started =
      CountersOnly-Carries e waiting _ (waiting-Carries e condition now)
        (emit_start-CountersOnly waiting o summary person_count now s) in
    elim (Bool-cases (trigger_qualified waiting now)) [
      | inl q ↦
          rw (q, process_idle)
            (andthen-CountersOnly e (emit_start waiting o summary person_count now) _ started tt)
      | inr q ↦ rw (q, process_idle) tt
    ]

absent-Carries : (e : Engine) (now : Timeline) → Carries e (start_absence e now)
absent-Carries e now = ground arith

process_absent-CountersOnly :
    (e : Engine) (o : Observation) (person_count : ℕ) (now : Timeline)
    → CountersOnly e (process_absent e o person_count now).code
unfolding process_absent
process_absent-CountersOnly e o person_count now = ground (
  arith,
  CountersOnly-Carries e (start_absence e now)
      (emit_end (start_absence e now) o Reason.disappeared person_count now true).code
      (absent-Carries e now)
      (emit_end-CountersOnly (start_absence e now) o Reason.disappeared person_count now true),
)

changed-Carries :
    (e : Engine) (summary : RuleSummary) (person_count : ℕ)
    → Carries e (mark_change e summary person_count)
unfolding mark_change mark_update
changed-Carries e summary person_count = ground arith

maybe_emit_update-CountersOnly :
    (e : Engine) (o : Observation) (person_count : ℕ) (now : Timeline)
    → e.active ≡ true
    → CountersOnly e (maybe_emit_update e o person_count now).code
unfolding maybe_emit_update
maybe_emit_update-CountersOnly e o person_count now a = ground (arith, a)

changed-active :
    (e : Engine) (summary : RuleSummary) (person_count : ℕ)
    → (mark_change e summary person_count).active ≡ e.active
unfolding mark_change mark_update
changed-active e summary person_count = ground arith

process_present-CountersOnly :
    (e : Engine) (o : Observation) (summary : RuleSummary) (person_count : ℕ) (now : Timeline)
    → e.active ≡ true
    → CountersOnly e (process_present e o summary person_count now).code
unfolding process_present
process_present-CountersOnly e o summary person_count now a =
    let present = record e { absent_since_valid = false } in
    CountersOnly-Carries e (mark_change present summary person_count) _
      (changed-Carries present summary person_count)
      (maybe_emit_update-CountersOnly (mark_change present summary person_count) o person_count now
        (changed-active present summary person_count ∙ a))

process_counted-CountersOnly :
    (e : Engine) (o : Observation) (summary : RuleSummary) (person_count : ℕ) (condition : Bool)
    (now : Timeline)
    → IsSmall summary
    → CountersOnly e (process_counted e o summary person_count condition now).code
unfolding process_counted
process_counted-CountersOnly e o summary person_count condition now s =
    branch e.active condition refl
  where
    branch :
        (active holds : Bool)
        → e.active ≡ active
        → CountersOnly e
            (if not active
              then process_idle e o summary person_count condition now
              else if not holds
              then process_absent e o person_count now
              else process_present e o summary person_count now).code
    branch false holds a = process_idle-CountersOnly e o summary person_count condition now s
    branch true false a = process_absent-CountersOnly e o person_count now
    branch true true a = process_present-CountersOnly e o summary person_count now a

process_matched-CountersOnly :
    (e : Engine) (o : Observation) (summary : RuleSummary) (person_count : ℕ) (condition : Bool)
    (now : Timeline)
    → IsSmall summary
    → CountersOnly e (process_matched e o summary person_count condition now).code
unfolding process_matched
process_matched-CountersOnly e o summary person_count condition now s =
    let states = (remember_rule_facts summary).0 in
    ground (
      arith,
      remember_rule_facts-stored summary s,
      process_counted-CountersOnly e o summary person_count condition now s,
      process_counted-CountersOnly (record e { rule_fact_states = states }) o summary person_count
          condition now s,
    )

process_enabled-CountersOnly :
    (e : Engine) (o : Observation) (now : Timeline)
    → IsValid o
    → CountersOnly e (process_enabled e o now).code
unfolding process_enabled
process_enabled-CountersOnly e o now v =
    process_matched-CountersOnly _ o _ _ _ now
      (matching_rules-IsSmall e.config e.rule_fact_states o v.rules_good)

process_accepted-CountersOnly :
    (e : Engine) (o : Observation) → IsValid o → CountersOnly e (process_accepted e o).code
unfolding process_accepted
process_accepted-CountersOnly e o v =
    ground (arith, process_enabled-CountersOnly e o (observation_timeline e.config.fps o) v)

end_active-CountersOnly : (e : Engine) (reason : Reason) → CountersOnly e (end_active e reason).code
unfolding end_active
end_active-CountersOnly e reason = ground (
  arith,
  emit_end-CountersOnly e e.last_observation reason (latest_person_count e)
      (observation_timeline e.config.fps e.last_observation) false,
)

end_active-serial :
    (e : Engine) (reason : Reason)
    → (end_active e reason).engine.next_event_serial ≡ e.next_event_serial
unfolding end_active emit_end ◌andthen◌ settle
end_active-serial e reason = ground arith

process_classified-CountersOnly :
    (e : Engine) (o : Observation) (next_order : ObservationOrder) (result : OrderResult)
    → result ≢ OrderResult.invalid
    → IsValid o
    → CountersOnly e (process_classified e o next_order result).code
unfolding process_classified
process_classified-CountersOnly e o next_order OrderResult.invalid n v = absurd (n refl)
process_classified-CountersOnly e o next_order OrderResult.duplicate n v = tt
process_classified-CountersOnly e o next_order OrderResult.out_of_order n v = tt
process_classified-CountersOnly e o next_order OrderResult.first n v =
    process_accepted-CountersOnly (adopt e next_order o) o v
process_classified-CountersOnly e o next_order OrderResult.accepted n v =
    process_accepted-CountersOnly (adopt e next_order o) o v
process_classified-CountersOnly e o next_order OrderResult.epoch_advance n v =
    let ended = (end_active e Reason.stream_reset).engine in
    let next = adopt (clear_runtime ended) next_order o in
    andthen-CountersOnly e (end_active e Reason.stream_reset) _
      (end_active-CountersOnly e Reason.stream_reset)
      (CountersOnly-Carries e next _ (end_active-serial e Reason.stream_reset, inl refl)
        (process_accepted-CountersOnly next o v))

-- A valid observation is never found invalid by the ordering.
classify-ne-invalid :
    (order : ObservationOrder) (o : Observation)
    → validate o ≡ none
    → (classify order o).1 ≢ OrderResult.invalid
classify-ne-invalid order o v h = ground (arith, classify-Verdict order o)

process_ordered-CountersOnly :
    (e : Engine) (o : Observation) → validate o ≡ none → CountersOnly e (process_ordered e o).code
unfolding process_ordered
process_ordered-CountersOnly e o v =
    process_classified-CountersOnly e o (classify e.order o).0 (classify e.order o).1
      (classify-ne-invalid e.order o v) ((validate_iff o).0 v)

process_channel-CountersOnly :
    (e : Engine) (o : Observation) → validate o ≡ none → CountersOnly e (process_channel e o).code
unfolding process_channel
process_channel-CountersOnly e o v =
    let reset = λ (ended : Engine). record (clear_runtime ended) {
      have_stream = false;
      order = order_init;
    } in
    let ended = (end_active e Reason.stream_reset).engine in
    ground (
      arith,
      process_ordered-CountersOnly e o v,
      andthen-CountersOnly e (end_active e Reason.stream_reset)
          (λ ended. process_ordered (reset ended) o) (end_active-CountersOnly e Reason.stream_reset)
          (CountersOnly-Carries e (reset ended) _
            (end_active-serial e Reason.stream_reset, inl refl)
            (process_ordered-CountersOnly (reset ended) o v)),
    )

-- A valid observation is processed, unless the engine has identified 2^64 - 1 events already, or the
-- active event has 2^64 - 1 records: an error names that counter. The table of rule facts never fills
-- up, an identifier always fits, and no other error is returned.
pub process-CountersOnly :
    (e : Engine) (o : Observation) → IsValid o → CountersOnly e (process e o).code
unfolding process
process-CountersOnly e o v =
    let good = (validate_iff o).1 v in rw (good, process) (process_channel-CountersOnly e o good)
