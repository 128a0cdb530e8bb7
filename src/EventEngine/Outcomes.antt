-- ===== src/EventEngine/Outcomes.antt =====
-- How the calls of media_engine/src/analytics/event_engine.c return, and how one follows another.
use rv1126_custom_part.Base.{ℕ, ◌+◌, if◌then◌else◌, List, [], ◌∷◌, ◌++◌}
use rv1126_custom_part.EventEngine.Types.{
  Event, Engine, EngineError, ReturnCode, count, failed, Outcome,
}

-- An operation that calls no sink and returns `n`.
abbrev pub quiet : ℕ → Engine → Outcome
quiet n e = record { engine = e; out = []; code = count n }

abbrev pub refuse : EngineError → Engine → Outcome
refuse err e = record { engine = e; out = []; code = failed err }

-- The sink is called if there is one; the record counts in either case.
abbrev pub emit_event : Engine → Event → Outcome
emit_event e event = record { engine = e; out = if e.sink then event ∷ [] else []; code = count 1 }

-- A second operation after a first that succeeded; a failure ends both.
abbrev pub add_code : ℕ → ReturnCode → ReturnCode
add_code n (count m) = count (n + m)
add_code n (failed err) = failed err

abbrev pub continue_with : Engine → List Event → ReturnCode → (Engine → Outcome) → Outcome
continue_with e out (failed err) next = record { engine = e; out = out; code = failed err }
continue_with e out (count n) next =
    let second = next e in
    record { engine = second.engine; out = out ++ second.out; code = add_code n second.code }

infixl 5 ◌andthen◌
unfoldable pub ◌andthen◌ : Outcome → (Engine → Outcome) → Outcome
first andthen next = continue_with first.engine first.out first.code next
