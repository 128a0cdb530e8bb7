-- ===== src/EventEngine/Conditions.antt =====
-- The conditions of confirmation, debounce, cooldown, grace and update interval in
-- media_engine/src/analytics/event_engine.c, and the tests that decide them.
use rv1126_custom_part.EventEngine.Accepted.{
  update_trigger_candidate, trigger_qualified, start_absence,
}
use rv1126_custom_part.Base.{
  ℕ, ◌+◌, ◌*◌, ◌≤◌, ◌<◌, ℤ, ◌≤ℤ◌, gap, Bool, true, false, ◌==◌, ◌||◌, ◌&&◌, not, ◌≡◌, ◌↔◌, ◌⊎◌,
  refl, arith, Bool-cases, inl, inr, ltb, if◌then◌else◌,
}
use rv1126_custom_part.EventEngine.Types.{Engine, Timeline}
use rv1126_custom_part.EventEngine.Timeline.{uint32_max, elapsed_at_least}
use rv1126_custom_part.EventEngine.Emission.{too_soon}

-- Both times are known, in order, and at least `duration` microseconds apart.
abbrev pub Elapsed : Timeline → ℤ → Bool → ℕ → Type 0
Elapsed now since since_valid duration =
    (now.valid ≡ true) × (since_valid ≡ true) × (since ≤ℤ now.us) × (duration ≤ gap now.us since)

elapsed_at_least_iff :
    (now : Timeline) (since : ℤ) (since_valid : Bool) (duration : ℕ)
    → (elapsed_at_least now since since_valid duration ≡ true)
      ↔ Elapsed now since since_valid duration
unfolding elapsed_at_least
elapsed_at_least_iff now since since_valid duration = ground arith

-- Why a waiting trigger becomes an event.
pub record Qualifies (e : Engine) (now : Timeline) : Type 0 where
  pub pending : e.trigger_pending ≡ true
  pub confirmed :
      (0 < e.config.confirm_frames) × (e.config.confirm_frames ≤ e.trigger_frames)
      ⊎ Elapsed now e.trigger_since_us e.trigger_since_valid (e.config.confirm_ms * 1000)
  pub cooled : e.cooldown_until_valid ≡ true → (now.valid ≡ true) × (e.cooldown_until_us ≤ℤ now.us)
  pub settled :
      (e.config.debounce_ms ≡ 0)
      ⊎ Elapsed now e.trigger_since_us e.trigger_since_valid (e.config.debounce_ms * 1000)
      ⊎ (now.valid ≡ false)

pub trigger_qualified_iff :
    (e : Engine) (now : Timeline) → (trigger_qualified e now ≡ true) ↔ Qualifies e now
unfolding trigger_qualified
trigger_qualified_iff e now = ground (
  arith,
  elapsed_at_least_iff now e.trigger_since_us e.trigger_since_valid (e.config.confirm_ms * 1000),
  elapsed_at_least_iff now e.trigger_since_us e.trigger_since_valid (e.config.debounce_ms * 1000),
)

-- The frames of a candidate with this one, and since when it waits, by whether it was waiting.
abbrev pub counted : Bool → ℕ → ℕ
counted true frames = if ltb frames uint32_max then frames + 1 else frames
counted false frames = 1

abbrev pub since : Bool → ℤ → ℤ → ℤ
since true recorded now = recorded
since false recorded now = now

abbrev pub since_valid : Bool → Bool → Bool → Bool
since_valid true recorded now = recorded
since_valid false recorded now = now

-- The candidate of an engine, counted with a frame whose condition holds, becomes an event.
abbrev pub CandidateReady : Engine → Timeline → Type 0
CandidateReady e now =
    let waits = e.trigger_pending in
    let waits_since = since waits e.trigger_since_us now.us in
    let waits_valid = since_valid waits e.trigger_since_valid now.valid in
    ((0 < e.config.confirm_frames) × (e.config.confirm_frames ≤ counted waits e.trigger_frames)
      ⊎ Elapsed now waits_since waits_valid (e.config.confirm_ms * 1000))
    × (e.cooldown_until_valid ≡ true → (now.valid ≡ true) × (e.cooldown_until_us ≤ℤ now.us))
    × ((e.config.debounce_ms ≡ 0)
        ⊎ Elapsed now waits_since waits_valid (e.config.debounce_ms * 1000)
        ⊎ (now.valid ≡ false))

-- The engine with its candidate counted.
abbrev pub candidate : Engine → Timeline → Engine
candidate e now = record e {
  trigger_pending = true;
  trigger_frames = counted e.trigger_pending e.trigger_frames;
  trigger_since_us = since e.trigger_pending e.trigger_since_us now.us;
  trigger_since_valid = since_valid e.trigger_pending e.trigger_since_valid now.valid;
}

pub update_trigger_candidate-candidate :
    (e : Engine) (now : Timeline) → update_trigger_candidate e true now ≡ candidate e now
unfolding update_trigger_candidate
update_trigger_candidate-candidate e now = elim (Bool-cases e.trigger_pending) [
  | inr p ↦ rw p refl
  | inl p ↦ elim (Bool-cases (ltb e.trigger_frames uint32_max)) [
    | inl l ↦ rw (p, l) refl
    | inr l ↦ rw (p, l) refl
  ]
]

pub Qualifies-candidate :
    (e : Engine) (now : Timeline) → Qualifies (candidate e now) now ↔ CandidateReady e now
Qualifies-candidate e now = (
  λ q. (q.confirmed, q.cooled, q.settled),
  λ s. record { pending = refl; confirmed = s.0; cooled = s.1; settled = s.2 },
)

-- The candidate that an engine has afterwards, which is none where the condition does not hold.
abbrev pub Waits : Bool → Engine → Timeline → Engine → Type 0
Waits false e now e' = e'.trigger_pending ≡ false
Waits true e now e' =
    (e'.trigger_pending ≡ true)
    × (e'.trigger_frames ≡ counted e.trigger_pending e.trigger_frames)
    × (e'.trigger_since_us ≡ since e.trigger_pending e.trigger_since_us now.us)
    × (e'.trigger_since_valid ≡ since_valid e.trigger_pending e.trigger_since_valid now.valid)

-- The absence of an active event ends it: there is no grace period, or it has elapsed since the recorded
-- absence, which begins with this frame if none is recorded.
abbrev pub AbsenceElapsed : Engine → Timeline → Type 0
AbsenceElapsed e now =
    (e.config.disappear_grace_ms ≡ 0)
    ⊎ Elapsed now (since e.absent_since_valid e.absent_since_us now.us)
        (since_valid e.absent_since_valid true now.valid) (e.config.disappear_grace_ms * 1000)

-- The absence that is recorded afterwards.
abbrev pub Records : Engine → Timeline → Engine → Type 0
Records e now e' =
    (e'.absent_since_us ≡ since e.absent_since_valid e.absent_since_us now.us)
    × (e'.absent_since_valid ≡ since_valid e.absent_since_valid true now.valid)

pub start_absence-Records : (e : Engine) (now : Timeline) → Records e now (start_absence e now)
start_absence-Records e now = elim (Bool-cases e.absent_since_valid) [
  | inl v ↦ rw v (refl, refl)
  | inr v ↦ rw v (refl, refl)
]

pub start_absence-same :
    (e : Engine) (now : Timeline)
    → let absent = start_absence e now in
      (absent.sink ≡ e.sink) × (absent.active ≡ e.active) × (absent.active_event ≡ e.active_event)
start_absence-same e now = elim (Bool-cases e.absent_since_valid) [
  | inl v ↦ rw v (refl, refl, refl)
  | inr v ↦ rw v (refl, refl, refl)
]

abbrev pub absent_enough : Engine → Timeline → Bool
absent_enough e now =
    e.config.disappear_grace_ms * 1000 == 0
    || elapsed_at_least now (start_absence e now).absent_since_us
        (start_absence e now).absent_since_valid (e.config.disappear_grace_ms * 1000)

pub absent_enough_iff :
    (e : Engine) (now : Timeline) → (absent_enough e now ≡ true) ↔ AbsenceElapsed e now
absent_enough_iff e now =
    let (us, valid) = start_absence-Records e now in
    rw (us, valid)
      (ground (
        arith,
        elapsed_at_least_iff now (since e.absent_since_valid e.absent_since_us now.us)
            (since_valid e.absent_since_valid true now.valid) (e.config.disappear_grace_ms * 1000),
      ))

-- An UPDATE is due: one is pending, and the interval has elapsed since the last record, or one of the
-- two times is not known.
abbrev pub UpdateDue : Engine → Timeline → Type 0
UpdateDue e now =
    (e.update_pending ≡ true)
    × ((e.last_emit_timeline_valid ≡ false)
        ⊎ (now.valid ≡ false)
        ⊎ Elapsed now e.last_emit_timeline_us true (e.config.update_interval_ms * 1000))

-- The time of the last record is that frame's, and no UPDATE is pending.
abbrev pub Stamped : Timeline → Engine → Type 0
Stamped now e' =
    (e'.update_pending ≡ false)
    × (e'.last_emit_timeline_us ≡ now.us)
    × (e'.last_emit_timeline_valid ≡ now.valid)

abbrev pub is_due : Engine → Timeline → Bool
is_due e now = e.update_pending && not (too_soon e now)

pub due_iff : (e : Engine) (now : Timeline) → (is_due e now ≡ true) ↔ UpdateDue e now
unfolding too_soon
due_iff e now = ground (
  arith,
  elapsed_at_least_iff now e.last_emit_timeline_us true (e.config.update_interval_ms * 1000),
)
