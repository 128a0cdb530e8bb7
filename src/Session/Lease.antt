-- ===== src/Session/Lease.antt =====
-- Stops, keepalives and expiry in media_engine/src/session/session_mgr.c, over any table with the
-- documented behaviour and any backend.
use rv1126_custom_part.Base.{
  ℕ, ℤ, true, none, some, Text, text_eq, text_eq_refl, text_eq-true_iff, ◌≡◌, ◌≢◌, refl, arith,
  Option-cases, Bool-cases, inl, inr,
}
use rv1126_custom_part.Session.Table.{MediaSession, SessionTable, LiveBackend}
use rv1126_custom_part.Session.Manager.{
  err_ok, SessionMgr, younger, mgr_touch, mgr_expired, unregister, mgr_stop,
}
use rv1126_custom_part.Session.Start.{same_int_iff, IsManaged}
use rv1126_custom_part.Session.Invariant.{mgr_touch-IsManaged}

module _ (T : SessionTable) (B : LiveBackend) where
  open T use {
    Table, empty, lookup, insert, remove, size, first, size-empty, lookup-insert, lookup-remove,
    size-insert_new, size-insert_old, size-remove, lookup-zero, first-some,
  }
  open B use {State, start_live, stop_live}

  stopped_lem :
      (m : SessionMgr T B) (id : Text) (backend : State) (code : ℤ)
      → let (m', result) = unregister T B m id backend code in
        (result ≡ err_ok → lookup id m'.sessions ≡ none)
        × (result ≢ err_ok → m'.sessions ≡ m.sessions)
  unfolding unregister
  stopped_lem m id backend code =
      ground (arith, same_int_iff code err_ok, lookup-remove id id m.sessions, text_eq_refl id)

  -- After a stop that succeeds the session is gone; a stop that fails retains every session.
  pub mgr_stop_lem :
      (m : SessionMgr T B) (id : Text)
      → let (m', code) = mgr_stop T B m id in
        (code ≡ err_ok → lookup id m'.sessions ≡ none) × (code ≢ err_ok → m'.sessions ≡ m.sessions)
  unfolding mgr_stop
  mgr_stop_lem m id = elim (Option-cases (lookup id m.sessions)) [
    | inl e ↦ rw (e, mgr_stop) (λ _. e, λ _. refl)
    | inr (s, e) ↦
        rw (e, mgr_stop) (stopped_lem m id (stop_live m.backend id).0 (stop_live m.backend id).1)
  ]

  mgr_stop-absent :
      (m : SessionMgr T B) (id : Text)
      → lookup id m.sessions ≡ none
      → mgr_stop T B m id ≡ (m, err_ok)
  unfolding mgr_stop
  mgr_stop-absent m id e = rw (e, mgr_stop)

  -- Once a stop has succeeded, a second one succeeds, and changes nothing of the sessions or of
  -- the backend.
  pub mgr_stop_twice :
      (m : SessionMgr T B) (id : Text)
      → (mgr_stop T B m id).1 ≡ err_ok
      → mgr_stop T B (mgr_stop T B m id).0 id ≡ ((mgr_stop T B m id).0, err_ok)
  mgr_stop_twice m id h = mgr_stop-absent (mgr_stop T B m id).0 id ((mgr_stop_lem m id).0 h)

  -- Of two sessions that are found, with one at most, the identifiers are equal.
  only_one :
      (m : SessionMgr T B) (id k : Text) {s t : MediaSession}
      → IsManaged T B m
      → lookup id m.sessions ≡ some s
      → lookup k m.sessions ≡ some t
      → text_eq id k ≡ true
  only_one m id k {s} v e f = elim (Bool-cases (text_eq id k)) [
    | inl same ↦ same
    | inr other ↦
        let left = size-remove id s m.sessions e in
        let gone = lookup-zero k (remove id m.sessions) (omega (arith, left, v.single)) in
        absurd (ground (arith, gone, lookup-remove k id m.sessions))
  ]

  -- The session that is found is the one that an iteration meets.
  pub first-only :
      (m : SessionMgr T B) (id k : Text) {s t : MediaSession}
      → IsManaged T B m
      → lookup id m.sessions ≡ some s
      → first m.sessions ≡ some (k, t)
      → t ≡ s
  first-only m id k {s} {t} v e f =
      let found = first-some k t m.sessions f in
      let same = only_one m id k v e found in ground (arith, text_eq-true_iff id k)

  touched_lem :
      (m : SessionMgr T B) (now : ℤ) (id : Text)
      → (mgr_touch T B m now id).1 ≡ err_ok
      → (s : MediaSession) × (lookup id (mgr_touch T B m now id).0.sessions ≡ some s)
        × (s.last_activity_us ≡ now)
  unfolding mgr_touch
  touched_lem m now id h = elim (Option-cases (lookup id m.sessions)) [
    | inl e ↦ absurd (ground arith)
    | inr (s, e) ↦
        let leased : MediaSession = record s { last_activity_us = now } in
        (leased, ground (arith, lookup-insert id id leased m.sessions, text_eq_refl id), refl)
  ]

  expired_by :
      (m : SessionMgr T B) (now timeout : ℤ) (cap : ℕ) {s : MediaSession}
      → ((k : Text) (t : MediaSession) → first m.sessions ≡ some (k, t) → t ≡ s)
      → younger now s.last_activity_us timeout ≡ true
      → mgr_expired T B m now timeout cap ≡ none
  unfolding mgr_expired
  expired_by m now timeout cap only fresh = elim (Option-cases (first m.sessions)) [
    | inl e ↦ ground arith
    | inr ((k, t), e) ↦ ground (arith, only k t e)
  ]

  -- After a keepalive that succeeds, in a managed table, nothing expires before the timeout has
  -- passed since the keepalive.
  pub mgr_touch-unexpired :
      (m : SessionMgr T B) (now later timeout : ℤ) (id : Text) (cap : ℕ)
      → IsManaged T B m
      → (mgr_touch T B m now id).1 ≡ err_ok
      → younger later now timeout ≡ true
      → mgr_expired T B (mgr_touch T B m now id).0 later timeout cap ≡ none
  mgr_touch-unexpired m now later timeout id cap v h fresh =
      let (s, found, leased) = touched_lem m now id h in
      expired_by (mgr_touch T B m now id).0 later timeout cap
        (λ k t e.
          first-only (mgr_touch T B m now id).0 id k (mgr_touch-IsManaged T B m now id v) found e)
        (rw leased fresh)
