-- ===== src/MediaEngine/Service.antt =====
-- What the operations of media_engine/src/engine/engine.c keep of the live sessions, over any table
-- with the documented behaviour and any backend.
use rv1126_custom_part.Base.{
  ℤ, true, none, some, Option, List, [], ◌∷◌, Text, codes, text_eq, text_eq-true_iff, ◌≡◌, ◌≢◌, ◌⊎◌,
  ◌↔◌, ◌&&◌, refl, arith, Option-cases, Bool-cases, inl, inr,
}
use rv1126_custom_part.Session.Table.{SessionParams, MediaSession, SessionTable, LiveBackend}
use rv1126_custom_part.Session.Manager.{
  err_ok, SessionMgr, mgr_new, register, mgr_start, mgr_touch, unregister, mgr_stop,
}
use rv1126_custom_part.Session.Start.{same_int_iff, IsManaged, mgr_new-IsManaged}
use rv1126_custom_part.Session.Invariant.{
  mgr_start-IsManaged, mgr_touch-IsManaged, mgr_stop-IsManaged,
}
use rv1126_custom_part.MediaEngine.Control.{
  MediaEngine, is_fault, with_sessions, same_geometry, engine_start_live, engine_stop_live,
  engine_keepalive_live, reap_stopped, engine_reap_expired, expired_session, after_gst_event,
  engine_gst_event,
}

module _ (T : SessionTable) (B : LiveBackend) where
  open T use {
    Table, empty, lookup, insert, remove, size, lookup-insert, lookup-remove, lookup-zero,
    size-empty,
  }
  open B use {State, start_live, stop_live}

  -- The capture delivers what the session asked for.
  pub record Fits (e : MediaEngine T B) (p : SessionParams) : Type 0 where
    pub width_fits : p.width ≡ e.width
    pub height_fits : p.height ≡ e.height
    pub fps_fits : p.fps ≡ e.fps
    pub codec_fits : p.codec ≡ codes "h264"

  abbrev Fitting : MediaEngine T B → SessionMgr T B → Type 0
  Fitting e m = (id : Text) (s : MediaSession) → lookup id m.sessions ≡ some s → Fits e s.params

  -- One live session at most, under its own identifier, of the geometry and codec of the capture.
  pub record IsServing (e : MediaEngine T B) : Type 0 where
    pub managed : IsManaged T B e.sessions
    pub fitting :
        (id : Text) (s : MediaSession) → lookup id e.sessions.sessions ≡ some s → Fits e s.params

  mgr_stop-Fitting :
      (e : MediaEngine T B) (m : SessionMgr T B) (id : Text)
      → Fitting e m
      → Fitting e (mgr_stop T B m id).0
  unfolding mgr_stop unregister
  mgr_stop-Fitting e m id v j t h = ground (arith, lookup-remove j id m.sessions, v j t)

  mgr_touch-Fitting :
      (e : MediaEngine T B) (m : SessionMgr T B) (now : ℤ) (id : Text)
      → Fitting e m
      → Fitting e (mgr_touch T B m now id).0
  unfolding mgr_touch
  mgr_touch-Fitting e m now id v = elim (Option-cases (lookup id m.sessions)) [
    | inl none_found ↦ rw (none_found, mgr_touch) v
    | inr (s, found) ↦
        rw (found, mgr_touch)
          (λ j t h.
            let fits = v id s found in
            let leased : MediaSession = record s { last_activity_us = now } in
            elim (Bool-cases (text_eq id j)) [
              | inl same ↦
                  let taken : leased ≡ t = ground (arith, lookup-insert j id leased m.sessions) in
                  rw (← taken) fits
              | inr other ↦ v j t (ground (arith, lookup-insert j id leased m.sessions))
            ])
  ]

  -- A session that is found after a start is the one that was started, or was there before.
  start-origin :
      (m : SessionMgr T B) (now : ℤ) (p : SessionParams) (j : Text) (t : MediaSession)
      → lookup j (mgr_start T B m now p).0.sessions ≡ some t
      → (t.params ≡ p) ⊎ (lookup j m.sessions ≡ some t)
  unfolding mgr_start register
  start-origin m now p j t h = ground (
    arith,
    lookup-insert j p.session_id (record { params = p; last_activity_us = now }) m.sessions,
  )

  mgr_start-Fitting :
      (e : MediaEngine T B) (m : SessionMgr T B) (now : ℤ) (p : SessionParams)
      → Fits e p
      → Fitting e m
      → Fitting e (mgr_start T B m now p).0
  mgr_start-Fitting e m now p fits v j t h = elim (start-origin m now p j t h) [
    | inl asked ↦ rw asked fits
    | inr before ↦ v j t before
  ]

  serving :
      (e : MediaEngine T B) (m : SessionMgr T B)
      → IsManaged T B m
      → Fitting e m
      → IsServing (with_sessions T B e m)
  serving e m v fits = record {
    managed = v;
    fitting = λ id s h.
        let f = fits id s h in
        record {
          width_fits = f.width_fits;
          height_fits = f.height_fits;
          fps_fits = f.fps_fits;
          codec_fits = f.codec_fits;
        };
  }

  same_geometry_iff :
      (e : MediaEngine T B) (p : SessionParams)
      → (same_geometry T B e p && text_eq p.codec (codes "h264") ≡ true) ↔ Fits e p
  unfolding same_geometry
  same_geometry_iff e p = ground (
    arith,
    same_int_iff p.width e.width,
    same_int_iff p.height e.height,
    same_int_iff p.fps e.fps,
    text_eq-true_iff p.codec (codes "h264"),
  )

  -- A start is refused by the engine, or passed on to the manager.
  pub start-cases :
      (e : MediaEngine T B) (now : ℤ) (p : SessionParams)
      → ((engine_start_live T B e now p).0 ≡ e) × ((engine_start_live T B e now p).1 ≢ err_ok)
        ⊎ (e.aiq_started ≡ true)
          × Fits e p
          × (engine_start_live T B e now p ≡ (
            with_sessions T B e (mgr_start T B e.sessions now p).0,
            (mgr_start T B e.sessions now p).1,
          ))
  unfolding engine_start_live
  start-cases e now p = ground (arith, same_geometry_iff e p)

  engine_start_live-IsServing :
      (e : MediaEngine T B) (now : ℤ) (p : SessionParams)
      → IsServing e
      → IsServing (engine_start_live T B e now p).0
  engine_start_live-IsServing e now p v = elim (start-cases e now p) [
    | inl (same, code) ↦ rw same v
    | inr (aiq, fits, passed) ↦ rw passed (
        serving e (mgr_start T B e.sessions now p).0
          (mgr_start-IsManaged T B e.sessions now p v.managed)
          (mgr_start-Fitting e e.sessions now p fits v.fitting))
  ]

  stopped-IsServing :
      (e : MediaEngine T B) (id : Text)
      → IsServing e
      → IsServing (with_sessions T B e (mgr_stop T B e.sessions id).0)
  stopped-IsServing e id v =
      serving e (mgr_stop T B e.sessions id).0 (mgr_stop-IsManaged T B e.sessions id v.managed)
        (mgr_stop-Fitting e e.sessions id v.fitting)

  -- A reap leaves the engine as it is, or stops one session.
  reap-cases :
      (e : MediaEngine T B) (now : ℤ)
      → ((engine_reap_expired T B e now).engine ≡ e)
        ⊎ (id : Text) × ((engine_reap_expired T B e now).engine
            ≡ with_sessions T B e (mgr_stop T B e.sessions id).0)
  unfolding engine_reap_expired reap_stopped
  reap-cases e now = elim (Option-cases (expired_session T B e now)) [
    | inl kept ↦ rw (kept, engine_reap_expired) (inl refl)
    | inr (id, expired) ↦ rw (expired, engine_reap_expired) (inr (id, ground arith))
  ]

  -- The calls of an engine between its creation and its end.
  pub data EngineCall : Type 0 where
    start_call : ℤ → SessionParams → EngineCall
    stop_call : Text → EngineCall
    keepalive_call : ℤ → Text → EngineCall
    reap_call : ℤ → EngineCall
    gst_call : Text → Option Text → Text → EngineCall

  pub engine_step : MediaEngine T B → EngineCall → MediaEngine T B
  engine_step e (start_call now p) = (engine_start_live T B e now p).0
  engine_step e (stop_call id) = (engine_stop_live T B e id).0
  engine_step e (keepalive_call now id) = (engine_keepalive_live T B e now id).0
  engine_step e (reap_call now) = (engine_reap_expired T B e now).engine
  engine_step e (gst_call event id message) = (engine_gst_event T B e event id message).0

  pub engine_run : MediaEngine T B → List EngineCall → MediaEngine T B
  unfolding engine_step
  engine_run e [] = e
  engine_run e (call ∷ calls) = engine_run (engine_step e call) calls

  engine_step-IsServing :
      (e : MediaEngine T B) (call : EngineCall) → IsServing e → IsServing (engine_step e call)
  unfolding engine_step engine_stop_live engine_keepalive_live engine_gst_event after_gst_event
  engine_step-IsServing e (start_call now p) v = engine_start_live-IsServing e now p v
  engine_step-IsServing e (stop_call id) v = stopped-IsServing e id v
  engine_step-IsServing e (keepalive_call now id) v =
      serving e (mgr_touch T B e.sessions now id).0
        (mgr_touch-IsManaged T B e.sessions now id v.managed)
        (mgr_touch-Fitting e e.sessions now id v.fitting)
  engine_step-IsServing e (reap_call now) v = elim (reap-cases e now) [
    | inl same ↦ rw same v
    | inr (id, stopped) ↦ rw stopped (stopped-IsServing e id v)
  ]
  engine_step-IsServing e (gst_call event none message) v = serving e e.sessions v.managed v.fitting
  engine_step-IsServing e (gst_call event (some id) message) v =
      elim (Bool-cases (is_fault event id)) [
        | inl fault ↦
            rw (fault, engine_step, engine_gst_event, after_gst_event) (stopped-IsServing e id v)
        | inr other ↦
            rw (other, engine_step, engine_gst_event, after_gst_event)
              (serving e e.sessions v.managed v.fitting)
      ]

  engine_run-IsServing :
      (e : MediaEngine T B) (calls : List EngineCall) → IsServing e → IsServing (engine_run e calls)
  unfolding engine_run
  engine_run-IsServing e [] v = v
  engine_run-IsServing e (call ∷ calls) v =
      engine_run-IsServing (engine_step e call) calls (engine_step-IsServing e call v)

  -- From an engine that begins with a new session manager on, whatever is called and whatever the
  -- media plane answers, there is one live session at most, kept under its own identifier, and it
  -- has the geometry and frame rate of the capture, and the codec h264.
  pub engine_run-new-IsServing :
      (e : MediaEngine T B) (backend : State) (calls : List EngineCall)
      → e.sessions ≡ mgr_new T B backend
      → IsServing (engine_run e calls)
  unfolding mgr_new
  engine_run-new-IsServing e backend calls h = engine_run-IsServing e calls (record {
    managed = rw h (mgr_new-IsManaged T B backend);
    fitting =
        λ id s found. let gone = lookup-zero id empty size-empty in absurd (ground (arith, h));
  })
