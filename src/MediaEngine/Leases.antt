-- ===== src/MediaEngine/Leases.antt =====
-- When a lease ends, in media_engine/src/engine/engine.c, and which starts are served, over any table
-- with the documented behaviour and any backend.
use rv1126_custom_part.Base.{
  ◌<◌, ℤ, pos, leb_ℤ, true, false, none, some, [], Text, length, take_short, copy_text, codes, ◌≡◌,
  ◌≢◌, refl, sym, ap, ◌∙◌, arith, Option-cases, inl, inr,
}
use rv1126_custom_part.Session.Table.{SessionParams, MediaSession, SessionTable, LiveBackend}
use rv1126_custom_part.Session.Manager.{
  err_ok, younger, SessionMgr, mgr_active, mgr_start, mgr_touch, mgr_expired, unregister, mgr_stop,
}
use rv1126_custom_part.Session.Start.{same_int_iff, IsManaged, mgr_start_lem}
use rv1126_custom_part.Session.Invariant.{mgr_start-IsManaged}
use rv1126_custom_part.Session.Lease.{first-only, mgr_touch-unexpired}
use rv1126_custom_part.MediaEngine.Control.{
  session_id_max, session_channel_id_max, dest_ip_max, MediaEngine, lease_timeout_us, notify,
  with_sessions, engine_start_live, engine_keepalive_live, expired_session, reap_stopped,
  engine_reap_expired, is_fault, after_gst_event, engine_gst_event, status_of, engine_get_status,
}
use rv1126_custom_part.MediaEngine.Service.{Fits, start-cases}

module _ (T : SessionTable) (B : LiveBackend) where
  open T use {Table, lookup, remove, size, first, size-remove, lookup-zero, first-some, first-none}
  open B use {State, start_live, stop_live}

  -- A start that the engine serves has found the image control running, a geometry and codec that
  -- fit, and no session, and leaves the new session alone with its lease begun now; one that fails
  -- leaves the sessions as they were.
  pub engine_start_live_lem :
      (e : MediaEngine T B) (now : ℤ) (p : SessionParams)
      → let (e', code) = engine_start_live T B e now p in
        (code ≡ err_ok
          → (e.aiq_started ≡ true)
            × Fits T B e p
            × (size e.sessions.sessions ≡ 0)
            × (size e'.sessions.sessions ≡ 1)
            × (lookup p.session_id e'.sessions.sessions
                ≡ some (record { params = p; last_activity_us = now })))
        × (code ≢ err_ok → e'.sessions.sessions ≡ e.sessions.sessions)
  engine_start_live_lem e now p = elim (start-cases T B e now p) [
    | inl (same, failed) ↦ rw same (λ ok. absurd (failed ok), λ n. refl)
    | inr (aiq, fits, passed) ↦
        let started = mgr_start_lem T B e.sessions now p in
        rw passed
          (λ ok. let (free, one, found) = started.0 ok in (aiq, fits, free, one, found), started.1)
  ]

  idle-reap :
      (e : MediaEngine T B) (now : ℤ)
      → expired_session T B e now ≡ none
      → engine_reap_expired T B e now ≡ record { engine = e; code = pos 0; out = [] }
  unfolding engine_reap_expired
  idle-reap e now h = rw (h, engine_reap_expired) refl

  stopped-reap :
      (e : MediaEngine T B) (now : ℤ) (id : Text)
      → expired_session T B e now ≡ some id
      → engine_reap_expired T B e now
        ≡ reap_stopped T B e id (mgr_stop T B e.sessions id).0 (mgr_stop T B e.sessions id).1
  unfolding engine_reap_expired
  stopped-reap e now id h = rw (h, engine_reap_expired) refl

  -- After a keepalive that succeeds, in a managed table, a reap within the lease timeout stops
  -- nothing, reports nothing and returns 0.
  pub engine_keepalive_live-kept :
      (e : MediaEngine T B) (now later : ℤ) (id : Text)
      → IsManaged T B e.sessions
      → (engine_keepalive_live T B e now id).1 ≡ err_ok
      → younger later now (lease_timeout_us e.live_lease_timeout_s) ≡ true
      → let e' = (engine_keepalive_live T B e now id).0 in
        engine_reap_expired T B e' later ≡ record { engine = e'; code = pos 0; out = [] }
  unfolding engine_keepalive_live expired_session
  engine_keepalive_live-kept e now later id v ok fresh =
      let kept : mgr_expired T B (mgr_touch T B e.sessions now id).0 later
            (lease_timeout_us e.live_lease_timeout_s) session_id_max
          ≡ none =
        mgr_touch-unexpired T B e.sessions now later (lease_timeout_us e.live_lease_timeout_s) id
          session_id_max v ok fresh in
      idle-reap (with_sessions T B e (mgr_touch T B e.sessions now id).0) later
        (ground (arith, kept))

  -- In a managed table a session is the first that an iteration meets.
  first-found :
      (m : SessionMgr T B) (id : Text) (s : MediaSession)
      → IsManaged T B m
      → lookup id m.sessions ≡ some s
      → first m.sessions ≡ some (id, s)
  first-found m id s v h = elim (Option-cases (first m.sessions)) [
    | inl e ↦ absurd (ground (arith, first-none id m.sessions e))
    | inr ((k, t), e) ↦
        let same : t ≡ s = first-only T B m id k v h e in
        let key = v.keyed id s h in let key' = v.keyed k t (first-some k t m.sessions e) in cc
  ]

  unregistered-empty :
      (m : SessionMgr T B) (id : Text) (s : MediaSession) (backend : State) (code : ℤ)
      → IsManaged T B m
      → lookup id m.sessions ≡ some s
      → (unregister T B m id backend code).1 ≡ err_ok
      → size (unregister T B m id backend code).0.sessions ≡ 0
  unfolding unregister
  unregistered-empty m id s backend code v h ok =
      ground (arith, same_int_iff code err_ok, size-remove id s m.sessions h, v.single)

  -- A stop that succeeds leaves no session, if one was found in a managed table.
  stopped-empty :
      (m : SessionMgr T B) (id : Text) (s : MediaSession)
      → IsManaged T B m
      → lookup id m.sessions ≡ some s
      → (mgr_stop T B m id).1 ≡ err_ok
      → size (mgr_stop T B m id).0.sessions ≡ 0
  unfolding mgr_stop
  stopped-empty m id s v h =
      rw (h, mgr_stop)
        (unregistered-empty m id s (stop_live m.backend id).0 (stop_live m.backend id).1 v h)

  expired-found :
      (e : MediaEngine T B) (now : ℤ) (id : Text) (s : MediaSession)
      → IsManaged T B e.sessions
      → lookup id e.sessions.sessions ≡ some s
      → length id < session_id_max
      → leb_ℤ e.live_lease_timeout_s (pos 0) ≡ false
      → younger now s.last_activity_us (lease_timeout_us e.live_lease_timeout_s) ≡ false
      → expired_session T B e now ≡ some id
  unfolding expired_session mgr_expired copy_text
  expired-found e now id s v h fits limited old =
      let copied : copy_text session_id_max id ≡ id = take_short 127 id (omega arith) in
      rw (limited, first-found e.sessions id s v h, expired_session, mgr_expired)
        (ground (arith, copied))

  -- Once the lease of the session in a managed table has expired, and its identifier fits its
  -- buffer, a reap whose stop succeeds returns 1, leaves no session, so that the next start is not
  -- refused as busy, and reports the identifier to the callback.
  pub engine_reap_expired-frees :
      (e : MediaEngine T B) (now : ℤ) (id : Text) (s : MediaSession)
      → IsManaged T B e.sessions
      → lookup id e.sessions.sessions ≡ some s
      → length id < session_id_max
      → leb_ℤ e.live_lease_timeout_s (pos 0) ≡ false
      → younger now s.last_activity_us (lease_timeout_us e.live_lease_timeout_s) ≡ false
      → (mgr_stop T B e.sessions id).1 ≡ err_ok
      → let r = engine_reap_expired T B e now in
        (r.code ≡ pos 1)
        × (size r.engine.sessions.sessions ≡ 0)
        × (r.out
            ≡ notify T B e (record {
              event = codes "lease_expired";
              session_id = some id;
              message = codes "daemon lease not refreshed";
            }))
  unfolding reap_stopped
  engine_reap_expired-frees e now id s v h fits limited old ok =
      let expired = expired-found e now id s v h fits limited old in
      rw (stopped-reap e now id expired, ok, reap_stopped)
        (refl, stopped-empty e.sessions id s v h ok, refl)

  -- An error or an end of stream that names the session of a managed table leaves no session, if the
  -- stop succeeds.
  pub engine_gst_event-frees :
      (e : MediaEngine T B) (event id message : Text) (s : MediaSession)
      → IsManaged T B e.sessions
      → lookup id e.sessions.sessions ≡ some s
      → is_fault event id ≡ true
      → (mgr_stop T B e.sessions id).1 ≡ err_ok
      → size (engine_gst_event T B e event (some id) message).0.sessions.sessions ≡ 0
  unfolding engine_gst_event after_gst_event
  engine_gst_event-frees e event id message s v h fault ok =
      rw (fault, after_gst_event) (stopped-empty e.sessions id s v h ok)

  active-status :
      (e : MediaEngine T B) (m : SessionMgr T B) (id : Text) (s : MediaSession)
      → IsManaged T B m
      → lookup id m.sessions ≡ some s
      → engine_get_status T B (with_sessions T B e m) ≡ status_of (some s)
  unfolding engine_get_status mgr_active
  active-status e m id s v h = rw (first-found m id s v h, mgr_active) refl

  -- After a start that is served, from a managed table, the status is running, with the rate, the
  -- bitrate, the port and the source of that session, and its texts as far as the status has room.
  pub engine_get_status-started :
      (e : MediaEngine T B) (now : ℤ) (p : SessionParams)
      → IsManaged T B e.sessions
      → (engine_start_live T B e now p).1 ≡ err_ok
      → engine_get_status T B (engine_start_live T B e now p).0 ≡ record {
        running = true;
        fps = p.fps;
        bitrate = p.bitrate;
        session_id = copy_text session_id_max p.session_id;
        channel_id = copy_text session_channel_id_max p.channel_id;
        dest_ip = copy_text dest_ip_max p.dest_ip;
        dest_port = p.dest_port;
        ssrc = p.ssrc;
      }
  unfolding status_of
  engine_get_status-started e now p v ok = elim (start-cases T B e now p) [
    | inl (same, failed) ↦ absurd (failed ok)
    | inr (aiq, fits, passed) ↦
        let begun : (mgr_start T B e.sessions now p).1 ≡ err_ok = sym (ap (λ x. x.1) passed) ∙ ok in
        let (free, one, found) = (mgr_start_lem T B e.sessions now p).0 begun in
        rw passed (
          active-status e (mgr_start T B e.sessions now p).0 p.session_id
            (record { params = p; last_activity_us = now })
            (mgr_start-IsManaged T B e.sessions now p v) found)
  ]
