-- ===== src/EventEngine/Lifecycle/Examples.antt =====
-- Runs of the engine, and the theorems at them.
use rv1126_custom_part.Base.{true, codes}
use rv1126_custom_part.EventEngine.Types.{zero_event, Engine}
use rv1126_custom_part.EventEngine.Process.{deinit}
use rv1126_custom_part.EventEngine.Scenes.{line_config, crossing}
use rv1126_custom_part.EventEngine.Lifecycle.Records.{IsTraced, Leads, Succeeds}
use rv1126_custom_part.EventEngine.Lifecycle.Steps.{deinit-ends}
use rv1126_custom_part.EventEngine.Lifecycle.History.{step, step-Leads}
use rv1126_custom_part.Base.{List, [], ◌∷◌, map, some, ◌≡◌, refl}
use rv1126_custom_part.EventEngine.Types.{Phase, Event}
use rv1126_custom_part.EventEngine.Scenes.{
  occupancy_config, person_at, frame, new_engine, occupancy_starts, evaluation,
}
use rv1126_custom_part.EventEngine.Lifecycle.Records.{idle, view, follow}
use rv1126_custom_part.EventEngine.Lifecycle.History.{Call, observe, run, run-protocol}

-- One person, two persons, nobody; then a crossing and a reset.
abbrev visit : List Call
visit =
    observe (frame 1 (person_at 7 ∷ []) [])
    ∷ observe (frame 2 (person_at 7 ∷ person_at 8 ∷ []) [])
    ∷ observe (frame 5 (person_at 7 ∷ person_at 8 ∷ []) [])
    ∷ observe (frame 6 [] [])
    ∷ []

abbrev phases : List Event → List Phase
phases = map (λ (event : Event). event.phase)

visit-phases :
    phases (run (new_engine occupancy_config) visit).1 ≡ Phase.start ∷ Phase.update ∷ Phase.end ∷ []
unfolding run evaluation
visit-phases = refl

run-protocol_example :
    follow idle (run (new_engine occupancy_config) visit).1
    ≡ some (view (run (new_engine occupancy_config) visit).0)
run-protocol_example =
    run-protocol occupancy_config 1 (new_engine occupancy_config) visit occupancy_starts

fresh-IsTraced : IsTraced (new_engine occupancy_config)
fresh-IsTraced = record { sink_set = refl; observed = λ h. cc }

step-Leads_example :
    Leads
      (new_engine occupancy_config)
      (step (new_engine occupancy_config) (observe (frame 1 (person_at 7 ∷ []) [])))
step-Leads_example =
    step-Leads (new_engine occupancy_config) (observe (frame 1 (person_at 7 ∷ []) []))
      fresh-IsTraced

-- An event is open, after its START.
abbrev open_event : Engine
open_event = record (new_engine line_config) {
  active = true;
  active_event = record zero_event { event_id = codes "e"; phase = Phase.start; event_seq = 1 };
  have_last_observation = true;
  last_observation = frame 1 [] (crossing 7 ∷ []);
}

open_event-IsTraced : IsTraced open_event
open_event-IsTraced = record { sink_set = refl; observed = λ h. refl }

open_event-Succeeds : Succeeds (deinit open_event)
unfolding evaluation
open_event-Succeeds = (1, refl)

deinit-ends_example : follow (view open_event) (deinit open_event).out ≡ some idle
deinit-ends_example = deinit-ends open_event open_event-IsTraced open_event-Succeeds
