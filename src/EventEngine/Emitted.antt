-- ===== src/EventEngine/Emitted.antt =====
-- What one record of media_engine/src/analytics/event_engine.c holds, and when emit_start and emit_end
-- send one.
use rv1126_custom_part.EventEngine.Outcomes.{quiet, ◌andthen◌}
use rv1126_custom_part.EventEngine.Naming.{event_id_text}
use mathlib.Core.List.{append-nil}
use rv1126_custom_part.Base.{
  ℕ, ◌+◌, Bool, true, Text, List, [], ◌∷◌, ◌≡◌, ◌≢◌, ◌⊎◌, refl, arith, Bool-cases, inl, inr, length,
  some, ltb,
}
use rv1126_custom_part.Observation.Types.{Observation}
use rv1126_custom_part.EventEngine.Types.{
  Phase, Reason, Event, Engine, Timeline, RuleSummary, ReturnCode, count, failed, Outcome,
}
use rv1126_custom_part.EventEngine.Timeline.{uint64_max}
use rv1126_custom_part.EventEngine.Rules.Capacity.{IsSmall, remember_rule_facts-stored}
use rv1126_custom_part.EventEngine.Emission.{
  end_event, update_event, start_event, emit_start, increment_event_seq, emit_end,
}
use rv1126_custom_part.EventEngine.Identifiers.{new_event_id-some}

-- A START goes out whenever its counters and tables have room.
pub emit_start_lem :
    (e : Engine) (o : Observation) (summary : RuleSummary) (person_count : ℕ) (now : Timeline)
    → e.sink ≡ true
    → e.next_event_serial ≢ uint64_max
    → IsSmall summary
    → (emit_start e o summary person_count now).out
      ≡ start_event e o summary person_count
          (event_id_text o.channel_id o.stream_epoch (e.next_event_serial + 1))
        ∷ []
unfolding emit_start
emit_start_lem e o summary person_count now s n small = ground (
  arith,
  new_event_id-some e.next_event_serial o.channel_id o.stream_epoch n,
  remember_rule_facts-stored summary small,
)

-- A record with its phase, its number and what it belongs to.
pub record IsSent (event : Event) (phase : Phase) (reason : Reason) (id : Text) (seq : ℕ)
    (o : Observation) (person_count : ℕ) : Type 0 where
  pub phase_is : event.phase ≡ phase
  pub reason_is : event.reason ≡ reason
  pub id_is : event.event_id ≡ id
  pub seq_is : event.event_seq ≡ seq
  pub frame_is : event.frame_id ≡ o.frame_id
  pub count_is : event.person_count ≡ person_count

-- Exactly one record goes out, of that kind.
abbrev pub Sends : Outcome → Phase → Reason → Text → ℕ → Observation → ℕ → Type 0
Sends r phase reason id seq o person_count =
    (event : Event) × ((r.out ≡ event ∷ []) × IsSent event phase reason id seq o person_count)

-- The condition decides: the record goes out if it holds, and none if it does not.
abbrev pub SendsIf : Type 0 → Outcome → Phase → Reason → Text → ℕ → Observation → ℕ → Type 0
SendsIf condition r phase reason id seq o person_count =
    (condition × Sends r phase reason id seq o person_count) ⊎ ((¬ condition) × (r.out ≡ []))

pub andthen-quiet :
    (r : Outcome) (change : Engine → Engine) (events : List Event)
    → r.out ≡ events
    → (r andthen λ e. quiet 0 (change e)).out ≡ events
unfolding ◌andthen◌
andthen-quiet r change events h = go r.code refl
  where
    go : (c : ReturnCode) → r.code ≡ c → (r andthen λ e. quiet 0 (change e)).out ≡ events
    go (count n) q = rw (q, h, append-nil, ◌andthen◌)
    go (failed err) q = rw (q, h, ◌andthen◌)

pub start_event-IsSent :
    (e : Engine) (o : Observation) (summary : RuleSummary) (person_count : ℕ) (id : Text)
    → IsSent
        (start_event e o summary person_count id)
        Phase.start
        Reason.confirmed
        id
        1
        o
        person_count
unfolding start_event
start_event-IsSent e o summary person_count id = record {
  phase_is = refl;
  reason_is = refl;
  id_is = refl;
  seq_is = refl;
  frame_is = refl;
  count_is = refl;
}

-- The active event with its number advanced.
abbrev pub numbered : Engine → Event
numbered e = record e.active_event { event_seq = e.active_event.event_seq + 1 }

end_event-IsSent :
    (e : Engine) (o : Observation) (reason : Reason) (person_count : ℕ)
    → IsSent
        (end_event e o reason person_count (numbered e))
        Phase.end
        reason
        e.active_event.event_id
        (e.active_event.event_seq + 1)
        o
        person_count
unfolding end_event
end_event-IsSent e o reason person_count = elim (Bool-cases (ltb 0 (length e.pending_track_ids))) [
  | inl t ↦ rw t (record {
    phase_is = refl;
    reason_is = refl;
    id_is = refl;
    seq_is = refl;
    frame_is = refl;
    count_is = refl;
  })
  | inr t ↦ rw t (record {
    phase_is = refl;
    reason_is = refl;
    id_is = refl;
    seq_is = refl;
    frame_is = refl;
    count_is = refl;
  })
]

pub increment_event_seq-some :
    (event : Event)
    → event.event_seq ≢ uint64_max
    → increment_event_seq event ≡ some (record event { event_seq = event.event_seq + 1 })
unfolding increment_event_seq
increment_event_seq-some event n = ground (arith, n)

pub emit_end_lem :
    (e : Engine) (o : Observation) (reason : Reason) (person_count : ℕ) (now : Timeline)
    (apply_cooldown : Bool)
    → e.sink ≡ true
    → e.active ≡ true
    → e.active_event.event_seq ≢ uint64_max
    → Sends
        (emit_end e o reason person_count now apply_cooldown)
        Phase.end
        reason
        e.active_event.event_id
        (e.active_event.event_seq + 1)
        o
        person_count
unfolding emit_end ◌andthen◌
emit_end_lem e o reason person_count now apply_cooldown s a n = (
  end_event e o reason person_count (numbered e),
  (
    rw (a, increment_event_seq-some e.active_event n, s, emit_end),
    end_event-IsSent e o reason person_count,
  ),
)

pub update_event-IsSent :
    (e : Engine) (o : Observation) (person_count : ℕ)
    → IsSent
        (update_event e o person_count (numbered e))
        Phase.update
        e.pending_reason
        e.active_event.event_id
        (e.active_event.event_seq + 1)
        o
        person_count
unfolding update_event
update_event-IsSent e o person_count = record {
  phase_is = refl;
  reason_is = refl;
  id_is = refl;
  seq_is = refl;
  frame_is = refl;
  count_is = refl;
}
