-- ===== src/EventEngine/Lifecycle/History.antt =====
-- Every sequence of calls of media_engine/src/analytics/event_engine.c from an initialised engine.
use rv1126_custom_part.Base.{ℕ, true, List, [], ◌∷◌, ◌++◌, some, inr, ◌≡◌, refl, arith, ◌∙◌}
use rv1126_custom_part.Observation.Types.{Observation}
use rv1126_custom_part.AnalyticsConfig.Settings.{AnalyticsConfig}
use rv1126_custom_part.EventEngine.Types.{Reason, Event, Engine, Outcome}
use rv1126_custom_part.EventEngine.Process.{init, process, close, reconfigure}
use rv1126_custom_part.EventEngine.Lifecycle.Records.{
  idle, IsTraced, view, Leads, follow, follow-append,
}
use rv1126_custom_part.EventEngine.Lifecycle.Steps.{process-Leads, close-Leads, reconfigure-Leads}

-- The calls that an engine takes between init and deinit.
pub data Call : Type 0 where
  observe : Observation → Call
  reset : Reason → Call
  configure : AnalyticsConfig → ℕ → Call

unfoldable pub step : Engine → Call → Outcome
step e (observe o) = process e o
step e (reset reason) = close e reason
step e (configure config version) = reconfigure e config version

-- The engine after the calls, and all records in order. A call that fails does not end the run.
unfoldable pub run : Engine → List Call → Engine × List Event
unfolding step
run e [] = (e, [])
run e (call ∷ calls) =
    let first = step e call in
    let (last, later) = run first.engine calls in (last, first.out ++ later)

-- On a traced engine the records of a call lead the receiver from what the engine held to what it
-- holds after the call, also when the call fails; a call that returns n emits n records; and the
-- engine stays traced.
pub step-Leads : (e : Engine) (call : Call) → IsTraced e → Leads e (step e call)
unfolding step
step-Leads e (observe o) t = process-Leads e o t
step-Leads e (reset reason) t = close-Leads e reason t
step-Leads e (configure config version) t = reconfigure-Leads e config version t

pub run-follow :
    (e : Engine) (calls : List Call)
    → IsTraced e
    → IsTraced (run e calls).0 × (follow (view e) (run e calls).1 ≡ some (view (run e calls).0))
unfolding run follow
run-follow e [] t = (t, refl)
run-follow e (call ∷ calls) t =
    let first = step e call in
    let led : Leads e first = step-Leads e call t in
    let later = run-follow first.engine calls led.0 in
    (later.0, follow-append (view e) first.out (run first.engine calls).1 led.1 ∙ later.1)

init-IsTraced :
    (config : AnalyticsConfig) (version : ℕ) (e : Engine)
    → init config version true ≡ inr e
    → IsTraced e × (view e ≡ idle)
unfolding init
init-IsTraced config version e h = ground arith

-- From an init with a sink on, whatever the calls, the records form numbered events one after the
-- other, each closed before the next is opened. Where the receiver then stands is what the engine
-- holds: the open event with its last number if it is active, no event if it is not.
pub run-protocol :
    (config : AnalyticsConfig) (version : ℕ) (e : Engine) (calls : List Call)
    → init config version true ≡ inr e
    → follow idle (run e calls).1 ≡ some (view (run e calls).0)
run-protocol config version e calls h =
    let (traced, start) = init-IsTraced config version e h in
    rw start at ((run-follow e calls traced).1)
