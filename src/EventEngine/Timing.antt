-- ===== src/EventEngine/Timing.antt =====
-- When the functions of media_engine/src/analytics/event_engine.c emit: exactly at the conditions
-- of confirmation, debounce, cooldown, update interval and grace.
use rv1126_custom_part.EventEngine.Emitted.{
  SendsIf, numbered, increment_event_seq-some, emit_end_lem, update_event-IsSent,
}
use rv1126_custom_part.EventEngine.Conditions.{
  trigger_qualified_iff, candidate, update_trigger_candidate-candidate, AbsenceElapsed, Records,
  start_absence-Records, start_absence-same, absent_enough, absent_enough_iff, UpdateDue, is_due,
  due_iff, Stamped,
}
use rv1126_custom_part.EventEngine.Accepted.{
  trigger_qualified, process_idle, start_absence, process_absent,
}
use rv1126_custom_part.EventEngine.Outcomes.{◌andthen◌}
use rv1126_custom_part.Base.{
  ℕ, ◌+◌, ◌*◌, ◌≤◌, ◌<◌, pos, pos_part, ◌≤ℤ◌, Bool, true, false, [], ◌∷◌, ◌≡◌, ◌≢◌, ◌⊎◌, refl, ◌∙◌,
  arith, Bool-cases, inl, inr,
}
use rv1126_custom_part.Observation.Types.{Observation}
use rv1126_custom_part.EventEngine.Types.{Phase, Reason, Engine, Timeline, RuleSummary}
use rv1126_custom_part.EventEngine.Timeline.{int64_max, uint64_max, time_add_ms}
use rv1126_custom_part.EventEngine.Emission.{
  update_event, too_soon, maybe_emit_update, settle, emit_end,
}

-- Of an active event whose condition is gone, with a sink and a sequence number that is not
-- exhausted: if there is no grace period, or it has elapsed since the absence that is recorded, which
-- begins with this frame if none was, one record goes out, the END by disappearance of that event with
-- the next number and this frame; if not, no record goes out, and that absence is recorded.
pub process_absent-ends_iff :
    (e : Engine) (o : Observation) (person_count : ℕ) (now : Timeline)
    → e.sink ≡ true
    → e.active ≡ true
    → e.active_event.event_seq ≢ uint64_max
    → SendsIf
        (AbsenceElapsed e now)
        (process_absent e o person_count now)
        Phase.end
        Reason.disappeared
        e.active_event.event_id
        (e.active_event.event_seq + 1)
        o
        person_count
      × (AbsenceElapsed e now ⊎ Records e now (process_absent e o person_count now).engine)
unfolding process_absent
process_absent-ends_iff e o person_count now s a n =
    let (sink, active, event) = start_absence-same e now in
    let ends = absent_enough_iff e now in
    let sent =
      emit_end_lem (start_absence e now) o Reason.disappeared person_count now true (sink ∙ s)
        (active ∙ a) (rw event n) in
    elim (Bool-cases (absent_enough e now)) [
      | inl q ↦ rw (q, process_absent) (inl (ends.0 q, rw event at sent), inl (ends.0 q))
      | inr q ↦
          rw (q, process_absent)
            (
              inr (λ c. absurd (ground (arith, ends.1 c, q)), refl),
              inr (start_absence-Records e now),
            )
    ]

-- The record that goes out when an UPDATE is due.
maybe_emit_update_lem :
    (e : Engine) (o : Observation) (person_count : ℕ) (now : Timeline)
    → e.update_pending ≡ true
    → too_soon e now ≡ false
    → e.sink ≡ true
    → e.active_event.event_seq ≢ uint64_max
    → ((maybe_emit_update e o person_count now).out
        ≡ update_event e o person_count (numbered e) ∷ [])
      × Stamped now (maybe_emit_update e o person_count now).engine
unfolding maybe_emit_update update_event
maybe_emit_update_lem e o person_count now p q s n =
    ground (arith, p, q, s, increment_event_seq-some e.active_event n)

maybe_emit_update-quiet :
    (e : Engine) (o : Observation) (person_count : ℕ) (now : Timeline)
    → is_due e now ≡ false
    → ((maybe_emit_update e o person_count now).out ≡ [])
      × ((maybe_emit_update e o person_count now).engine ≡ e)
unfolding maybe_emit_update
maybe_emit_update-quiet e o person_count now q = ground (arith, q)

-- With a sink and a sequence number that is not exhausted: if an UPDATE is pending and the update
-- interval has elapsed since the last record, or one of the two times is not known, one record goes
-- out, an UPDATE of the active event for the pending reason, with the next number and this frame, and
-- then none is pending and the interval begins again with this frame; if not, no record goes out and
-- the engine stays as it is.
pub maybe_emit_update-emits_iff :
    (e : Engine) (o : Observation) (person_count : ℕ) (now : Timeline)
    → e.sink ≡ true
    → e.active_event.event_seq ≢ uint64_max
    → SendsIf
        (UpdateDue e now)
        (maybe_emit_update e o person_count now)
        Phase.update
        e.pending_reason
        e.active_event.event_id
        (e.active_event.event_seq + 1)
        o
        person_count
      × ((UpdateDue e now × Stamped now (maybe_emit_update e o person_count now).engine)
          ⊎ ((¬ UpdateDue e now) × ((maybe_emit_update e o person_count now).engine ≡ e)))
maybe_emit_update-emits_iff e o person_count now s n =
    let due = due_iff e now in
    elim (Bool-cases (is_due e now)) [
      | inl q ↦
          let (sent, stamped) =
            maybe_emit_update_lem e o person_count now (ground (arith, q)) (ground (arith, q)) s
              n in
          (
            inl (
              due.0 q,
              (
                update_event e o person_count (numbered e),
                (sent, update_event-IsSent e o person_count),
              ),
            ),
            inl (due.0 q, stamped),
          )
      | inr q ↦
          let (none_sent, same) = maybe_emit_update-quiet e o person_count now q in
          (
            inr (λ c. absurd (ground (arith, due.1 c, q)), none_sent),
            inr (λ c. absurd (ground (arith, due.1 c, q)), same),
          )
    ]

-- A record that an idle engine emits is past its cooldown.
process_idle-cooled :
    (e : Engine) (o : Observation) (summary : RuleSummary) (person_count : ℕ) (condition : Bool)
    (now : Timeline)
    → (process_idle e o summary person_count condition now).out ≢ []
    → e.cooldown_until_valid ≡ true
    → (now.valid ≡ true) × (e.cooldown_until_us ≤ℤ now.us)
unfolding process_idle
process_idle-cooled e o summary person_count false now sent c = absurd (sent refl)
process_idle-cooled e o summary person_count true now sent c =
    let w = candidate e now in
    let same = update_trigger_candidate-candidate e now in
    elim (Bool-cases (trigger_qualified w now)) [
      | inl q ↦ ((trigger_qualified_iff w now).0 q).cooled c
      | inr q ↦ absurd (sent (rw (same, q, process_idle)))
    ]

-- With a cooldown that is positive and fits 64 bits in microseconds, an END by disappearance at a
-- known time that is not negative holds the next START back: an engine with no active event that still
-- has the cooldown which the END left emits a record for an observation only so much later than the
-- END, or at the end of the 64-bit timeline.
pub process_absent-cooldown :
    (e : Engine) (o : Observation) (person_count : ℕ) (now : Timeline) (w : Engine)
    (o' : Observation) (summary : RuleSummary) (person_count' : ℕ) (condition : Bool)
    (later : Timeline)
    → pos 0 ≤ℤ now.us
    → now.valid ≡ true
    → 0 < e.config.cooldown_ms
    → e.config.cooldown_ms * 1000 ≤ int64_max
    → e.active ≡ true
    → (process_absent e o person_count now).engine.active ≡ false
    → w.cooldown_until_us ≡ (process_absent e o person_count now).engine.cooldown_until_us
    → w.cooldown_until_valid ≡ (process_absent e o person_count now).engine.cooldown_until_valid
    → (process_idle w o' summary person_count' condition later).out ≢ []
    → (pos (pos_part now.us + e.config.cooldown_ms * 1000) ≤ℤ later.us)
      ⊎ (pos int64_max ≤ℤ later.us)
unfolding process_absent emit_end ◌andthen◌ settle time_add_ms
process_absent-cooldown e o person_count now w o' summary person_count' condition later nonneg known
      on small a off us valid sent =
    let cooled = process_idle-cooled w o' summary person_count' condition later sent in
    ground (arith, cooled)
