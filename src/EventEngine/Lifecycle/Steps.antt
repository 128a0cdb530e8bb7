-- ===== src/EventEngine/Lifecycle/Steps.antt =====
-- The operations of media_engine/src/analytics/event_engine.c keep to the protocol.
use rv1126_custom_part.EventEngine.Accepted.{clear_runtime, latest_person_count, process_accepted}
use rv1126_custom_part.EventEngine.Outcomes.{quiet, ◌andthen◌}
use rv1126_custom_part.Base.{
  ℕ, true, false, some, [], text_eq, ◌≡◌, refl, arith, not, ◌&&◌, Bool-cases, Option-cases, inl,
  inr, ◌∙◌, ap,
}
use rv1126_custom_part.Observation.Types.{Observation}
use rv1126_custom_part.Observation.Validate.{validate}
use rv1126_custom_part.Observation.Order.{ObservationOrder, OrderResult, order_init, classify}
use rv1126_custom_part.AnalyticsConfig.Settings.{AnalyticsConfig, config_validate}
use rv1126_custom_part.EventEngine.Types.{Reason, Engine, ReturnCode, count, failed, Outcome}
use rv1126_custom_part.EventEngine.Timeline.{observation_timeline}
use rv1126_custom_part.EventEngine.Emission.{emit_end, settle}
use rv1126_custom_part.EventEngine.Process.{
  end_active, adopt, process_classified, process_ordered, process_channel, process, close,
  next_version, install, reconfigure_reason, reconfigure_valid, reconfigure, deinit,
}
use rv1126_custom_part.EventEngine.Lifecycle.Records.{
  idle, IsTraced, view, Leads, Succeeds, follow, follow-append, quiet-Leads, andthen-Leads,
  emit_end-Leads,
}
use rv1126_custom_part.EventEngine.Lifecycle.Branches.{IsFed, process_accepted-Leads}

end_active-Leads : (e : Engine) (reason : Reason) → IsTraced e → Leads e (end_active e reason)
unfolding end_active follow
end_active-Leads e reason t = ground (
  arith,
  emit_end-Leads e e.last_observation reason (latest_person_count e)
      (observation_timeline e.config.fps e.last_observation) false t,
)

-- After a reset that succeeded no event is open.
pub end_active-ended :
    (e : Engine) (reason : Reason)
    → IsTraced e
    → Succeeds (end_active e reason)
    → (end_active e reason).engine.active ≡ false
unfolding end_active emit_end ◌andthen◌ settle
end_active-ended e reason t (n, s) = ground arith

adopt-IsFed :
    (e : Engine) (next_order : ObservationOrder) (o : Observation)
    → e.sink ≡ true
    → IsFed (adopt e next_order o)
adopt-IsFed e next_order o h = (record { sink_set = h; observed = λ _. refl }, refl)

-- A sink is installed, and no event is open.
record LooksIdle (e : Engine) : Type 0 where
  sink_set : e.sink ≡ true
  off : e.active ≡ false

-- A reset, and then an operation on the engine without an event.
ended_then :
    (e : Engine) (reason : Reason) (clear : Engine → Engine) (next : Engine → Outcome)
    → IsTraced e
    → ((ended : Engine) → ended.sink ≡ true → LooksIdle (clear ended))
    → ((ended : Engine) → ended.sink ≡ true → Leads (clear ended) (next (clear ended)))
    → Leads e (end_active e reason andthen (λ ended. next (clear ended)))
ended_then e reason clear next t idles leads =
    let ended = end_active e reason in
    let led : Leads e ended = end_active-Leads e reason t in
    andthen-Leads e ended _ led λ s.
      let stopped : ended.engine.active ≡ false = end_active-ended e reason t s in
      let quiet_now : LooksIdle (clear ended.engine) = idles ended.engine led.0.sink_set in
      let same : view (clear ended.engine) ≡ view ended.engine = ground arith in
      rw same at (leads ended.engine led.0.sink_set)

process_classified-Leads :
    (e : Engine) (o : Observation) (next_order : ObservationOrder) (result : OrderResult)
    → IsTraced e
    → Leads e (process_classified e o next_order result)
unfolding process_classified follow
process_classified-Leads e o next_order OrderResult.invalid t = (t, refl, tt)
process_classified-Leads e o next_order OrderResult.duplicate t = (t, refl, refl)
process_classified-Leads e o next_order OrderResult.out_of_order t = (t, refl, refl)
process_classified-Leads e o next_order OrderResult.first t =
    process_accepted-Leads (adopt e next_order o) o (adopt-IsFed e next_order o t.sink_set)
process_classified-Leads e o next_order OrderResult.accepted t =
    process_accepted-Leads (adopt e next_order o) o (adopt-IsFed e next_order o t.sink_set)
process_classified-Leads e o next_order OrderResult.epoch_advance t =
    ended_then e Reason.stream_reset (λ ended. adopt (clear_runtime ended) next_order o)
      (λ cleared. process_accepted cleared o) t (λ ended u. record { sink_set = u; off = refl })
      (λ ended u. process_accepted-Leads _ o (adopt-IsFed (clear_runtime ended) next_order o u))

process_ordered-Leads : (e : Engine) (o : Observation) → IsTraced e → Leads e (process_ordered e o)
unfolding process_ordered
process_ordered-Leads e o t =
    process_classified-Leads e o (classify e.order o).0 (classify e.order o).1 t

idle-IsTraced : (e : Engine) → e.sink ≡ true → e.active ≡ false → IsTraced e
idle-IsTraced e h off = record { sink_set = h; observed = λ on. cc }

process_channel-Leads : (e : Engine) (o : Observation) → IsTraced e → Leads e (process_channel e o)
unfolding process_channel
process_channel-Leads e o t =
    elim (Bool-cases (e.have_stream && not (text_eq e.channel_id o.channel_id))) [
      | inl other ↦
          rw (other, process_channel)
            (ended_then e Reason.stream_reset
              (λ ended. record (clear_runtime ended) { have_stream = false; order = order_init })
              (λ cleared. process_ordered cleared o) t
              (λ ended u. record { sink_set = u; off = refl })
              (λ ended u. process_ordered-Leads _ o (idle-IsTraced _ u refl)))
      | inr same ↦ rw (same, process_channel) (process_ordered-Leads e o t)
    ]

-- Whatever observation comes, the records keep to the protocol.
pub process-Leads : (e : Engine) (o : Observation) → IsTraced e → Leads e (process e o)
unfolding process follow
process-Leads e o t = elim (Option-cases (validate o)) [
  | inl good ↦ rw (good, process) (process_channel-Leads e o t)
  | inr (err, bad) ↦ rw (bad, process) (t, refl, tt)
]

cleared-Leads :
    (e : Engine) (reason : Reason) (clear : Engine → Engine)
    → IsTraced e
    → ((ended : Engine) → ended.sink ≡ true → LooksIdle (clear ended))
    → Leads e (end_active e reason andthen (λ ended. quiet 0 (clear ended)))
cleared-Leads e reason clear t idles = ended_then e reason clear (quiet 0) t idles λ ended u.
    let i = idles ended u in
    quiet-Leads (clear ended) (clear ended)
      (record { same_sink = refl; same_active = refl; same_event = refl; same_observed = refl })
      (idle-IsTraced (clear ended) i.sink_set i.off)

pub close-Leads : (e : Engine) (reason : Reason) → IsTraced e → Leads e (close e reason)
unfolding close follow
close-Leads e reason t =
    ground (
      arith,
      cleared-Leads e reason clear_runtime t (λ ended u. record { sink_set = u; off = refl }),
    )

pub reconfigure-Leads :
    (e : Engine) (config : AnalyticsConfig) (requested : ℕ)
    → IsTraced e
    → Leads e (reconfigure e config requested)
unfolding reconfigure reconfigure_valid follow
reconfigure-Leads e config requested t = elim (Option-cases (config_validate config)) [
  | inr (err, bad) ↦ rw (bad, reconfigure) (t, refl, tt)
  | inl good ↦ elim (Option-cases (next_version e.config_version requested)) [
    | inl stale ↦ rw (good, stale, reconfigure, reconfigure_valid) (t, refl, tt)
    | inr (version, fresh) ↦
        rw (good, fresh, reconfigure, reconfigure_valid)
          (cleared-Leads e (reconfigure_reason config) (λ ended. install ended config version) t
            (λ ended u. record { sink_set = u; off = refl }))
  ]
]

-- On a traced engine, a deinit that succeeds has ended the event that was open, if one was.
pub deinit-ends :
    (e : Engine) → IsTraced e → Succeeds (deinit e) → follow (view e) (deinit e).out ≡ some idle
unfolding deinit ◌andthen◌ follow
deinit-ends e t s = go (end_active e Reason.process_restart).code refl
  where
    ended : Outcome
    ended = end_active e Reason.process_restart

    led : Leads e ended
    led = end_active-Leads e Reason.process_restart t

    go : (c : ReturnCode) → ended.code ≡ c → follow (view e) (deinit e).out ≡ some idle
    go (count n) q =
        let stopped : ended.engine.active ≡ false =
          end_active-ended e Reason.process_restart t (n, q) in
        rw (q, deinit, ◌andthen◌)
          (follow-append (view e) ended.out [] led.1
            ∙ ap some (let same : view ended.engine ≡ idle = ground arith in same))
    go (failed err) q = let (n, succeeded) = s in absurd (ground arith)
