-- ===== src/EventEngine/Lifecycle/Records.antt =====
-- The protocol of the records, and the three functions of
-- media_engine/src/analytics/event_engine.c that emit one.
use rv1126_custom_part.EventEngine.Outcomes.{quiet, add_code, ◌andthen◌}
use rv1126_custom_part.Base.{
  ℕ, ◌+◌, Bool, true, false, ◌&&◌, ◌==◌, if◌then◌else◌, Option, none, some, List, [], ◌∷◌, ◌++◌,
  Text, text_eq, text_eq_refl, length, length-append, ◌≡◌, refl, arith, ◌∙◌, Option-cases, inl, inr,
}
use rv1126_custom_part.Observation.Types.{Observation}
use rv1126_custom_part.EventEngine.Types.{
  Phase, Reason, Event, Engine, Timeline, RuleSummary, ReturnCode, count, failed, Outcome,
}
use rv1126_custom_part.EventEngine.Emission.{emit_start, maybe_emit_update, emit_end}

-- What the receiver knows: no event is open, or one is, with its last sequence number.
pub data View : Type 0 where
  idle : View
  running : Text → ℕ → View

abbrev is_start : Phase → Bool
is_start Phase.start = true
is_start _ = false

-- A record after the START: an UPDATE keeps the event open, an END closes it.
abbrev next_view : Phase → Text → ℕ → Option View
next_view Phase.update id seq = some (running id seq)
next_view Phase.end id seq = some idle
next_view _ id seq = none

-- The receiver's reading of one record; `none` is a breach of the protocol.
unfoldable pub advance : View → Event → Option View
advance idle event =
    if is_start event.phase && event.event_seq == 1 then some (running event.event_id 1) else none
advance (running id seq) event =
    if text_eq event.event_id id && event.event_seq == seq + 1
    then next_view event.phase id (seq + 1)
    else none

unfoldable pub follow : View → List Event → Option View
unfolding advance
follow v [] = some v
follow v (event ∷ events) = elim (advance v event) [ none ↦ none | some w ↦ follow w events ]

-- What the engine's own state says of the open event.
abbrev pub view : Engine → View
view e = if e.active then running e.active_event.event_id e.active_event.event_seq else idle

-- A sink is installed, and an active event has an observation to end it with.
pub record IsTraced (e : Engine) : Type 0 where
  pub sink_set : e.sink ≡ true
  pub observed : e.active ≡ true → e.have_last_observation ≡ true

-- A number that is returned is the number of records.
abbrev pub Counts : ReturnCode → List Event → Type 0
Counts (count n) out = length out ≡ n
Counts (failed err) out = Unit

-- The records of the outcome lead the receiver from the one state to the other, and are counted.
abbrev pub Leads : Engine → Outcome → Type 0
Leads e r = IsTraced r.engine × (follow (view e) r.out ≡ some (view r.engine)) × Counts r.code r.out

abbrev pub Succeeds : Outcome → Type 0
Succeeds r = (n : ℕ) × (r.code ≡ count n)

pub follow-append :
    (v : View) (xs ys : List Event) {w : View}
    → follow v xs ≡ some w
    → follow v (xs ++ ys) ≡ follow w ys
unfolding follow
follow-append v [] ys h = ground arith
follow-append v (x ∷ xs) ys h = elim (Option-cases (advance v x)) [
  | inl e ↦ ground arith
  | inr (u, e) ↦ rw (e, follow) (follow-append u xs ys (ground arith))
]

Counts-append :
    (n : ℕ) (c : ReturnCode) (xs ys : List Event)
    → length xs ≡ n
    → Counts c ys
    → Counts (add_code n c) (xs ++ ys)
Counts-append n (count m) xs ys h k = omega (arith, length-append xs ys)
Counts-append n (failed err) xs ys h k = tt

pub andthen-Leads :
    (e : Engine) (r : Outcome) (next : Engine → Outcome)
    → Leads e r
    → (Succeeds r → Leads r.engine (next r.engine))
    → Leads e (r andthen next)
unfolding ◌andthen◌
andthen-Leads e r next h k = go r.code refl
  where
    go : (c : ReturnCode) → r.code ≡ c → Leads e (r andthen next)
    go (count n) q =
        let (traced, led, counted) = k (n, q) in
        let all : length r.out ≡ n = rw q at h.2 in
        rw (q, ◌andthen◌)
          (
            traced,
            follow-append (view e) r.out _ h.1 ∙ led,
            Counts-append n (next r.engine).code r.out (next r.engine).out all counted,
          )
    go (failed err) q = rw (q, ◌andthen◌) (h.0, h.1, tt)

-- The two engines agree in all that a receiver can tell.
pub record LooksAs (e f : Engine) : Type 0 where
  pub same_sink : f.sink ≡ e.sink
  pub same_active : f.active ≡ e.active
  pub same_event : f.active_event ≡ e.active_event
  pub same_observed : f.have_last_observation ≡ e.have_last_observation

pub LooksAs-IsTraced : (e f : Engine) → LooksAs e f → IsTraced e → IsTraced f
LooksAs-IsTraced e f s t = ground arith

pub LooksAs-Leads : (e f : Engine) (r : Outcome) → LooksAs e f → Leads f r → Leads e r
LooksAs-Leads e f r s h = let same : view f ≡ view e = ground arith in rw same at h

pub quiet-Leads : (e f : Engine) → LooksAs e f → IsTraced e → Leads e (quiet 0 f)
unfolding follow
quiet-Leads e f s t = (LooksAs-IsTraced e f s t, ground arith, refl)

pub emit_start-Leads :
    (e : Engine) (o : Observation) (summary : RuleSummary) (person_count : ℕ) (now : Timeline)
    → IsTraced e
    → e.active ≡ false
    → e.have_last_observation ≡ true
    → Leads e (emit_start e o summary person_count now)
unfolding emit_start follow
emit_start-Leads e o summary person_count now t a l = ground arith

pub maybe_emit_update-Leads :
    (e : Engine) (o : Observation) (person_count : ℕ) (now : Timeline)
    → IsTraced e
    → e.active ≡ true
    → Leads e (maybe_emit_update e o person_count now)
unfolding maybe_emit_update follow
maybe_emit_update-Leads e o person_count now t a =
    ground (arith, text_eq_refl e.active_event.event_id)

pub emit_end-Leads :
    (e : Engine) (o : Observation) (reason : Reason) (person_count : ℕ) (now : Timeline)
    (apply_cooldown : Bool)
    → IsTraced e
    → Leads e (emit_end e o reason person_count now apply_cooldown)
unfolding emit_end follow
emit_end-Leads e o reason person_count now apply_cooldown t =
    ground (arith, text_eq_refl e.active_event.event_id)
