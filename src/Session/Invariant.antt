-- ===== src/Session/Invariant.antt =====
-- What every call of media_engine/src/session/session_mgr.c keeps, over any table with the documented
-- behaviour and any backend.
use rv1126_custom_part.Base.{
  ℤ, some, List, [], ◌∷◌, Text, text_eq-true_iff, ◌≡◌, arith, Option-cases, Bool-cases, inl, inr,
  dec_lt,
}
use rv1126_custom_part.Session.Table.{SessionParams, MediaSession, SessionTable, LiveBackend}
use rv1126_custom_part.Session.Manager.{
  err_ok, same_int, SessionMgr, mgr_new, register, mgr_start, mgr_touch, unregister, mgr_stop,
}
use rv1126_custom_part.Session.Start.{IsManaged, mgr_new-IsManaged, mgr_start-busy, mgr_start-free}

module _ (T : SessionTable) (B : LiveBackend) where
  open T use {
    Table, empty, lookup, insert, remove, size, first, size-empty, lookup-insert, lookup-remove,
    size-insert_new, size-insert_old, size-remove, lookup-zero, first-some,
  }
  open B use {State, start_live, stop_live}

  register-IsManaged :
      (m : SessionMgr T B) (now : ℤ) (p : SessionParams) (backend : State) (code : ℤ)
      → size m.sessions ≡ 0
      → IsManaged T B m
      → IsManaged T B (register T B m now p backend code).0
  unfolding register
  register-IsManaged m now p backend code h v = elim (Bool-cases (same_int code err_ok)) [
    | inr no_session ↦ rw (no_session, register) (record { single = v.single; keyed = v.keyed })
    | inl begun ↦
        rw (begun, register)
          (record {
            single = omega (
              arith,
              size-insert_new p.session_id _ m.sessions (lookup-zero p.session_id m.sessions h),
            );
            keyed = λ id s e. ground (
              arith,
              lookup-insert id p.session_id (record { params = p; last_activity_us = now })
                  m.sessions,
              text_eq-true_iff p.session_id id,
              lookup-zero id m.sessions h,
            );
          })
  ]

  pub mgr_start-IsManaged :
      (m : SessionMgr T B) (now : ℤ) (p : SessionParams)
      → IsManaged T B m
      → IsManaged T B (mgr_start T B m now p).0
  mgr_start-IsManaged m now p v = elim (dec_lt 0 (size m.sessions)) [
    | yes busy ↦ rw (mgr_start-busy T B m now p busy) v
    | no free ↦
        let none_yet : size m.sessions ≡ 0 = omega arith in
        rw (mgr_start-free T B m now p none_yet) (
          register-IsManaged m now p (start_live m.backend p).0 (start_live m.backend p).1 none_yet
            v)
  ]

  pub mgr_touch-IsManaged :
      (m : SessionMgr T B) (now : ℤ) (id : Text)
      → IsManaged T B m
      → IsManaged T B (mgr_touch T B m now id).0
  unfolding mgr_touch
  mgr_touch-IsManaged m now id v = elim (Option-cases (lookup id m.sessions)) [
    | inl e ↦ rw (e, mgr_touch) v
    | inr (s, e) ↦
        let leased : MediaSession = record s { last_activity_us = now } in
        rw (e, mgr_touch)
          (record {
            single = omega (arith, size-insert_old id leased s m.sessions e, v.single);
            keyed = λ j t h. ground (
              arith,
              lookup-insert j id leased m.sessions,
              text_eq-true_iff id j,
              v.keyed id s e,
              v.keyed j t,
            );
          })
  ]

  unregister-IsManaged :
      (m : SessionMgr T B) (id : Text) (old : MediaSession) (backend : State) (code : ℤ)
      → lookup id m.sessions ≡ some old
      → IsManaged T B m
      → IsManaged T B (unregister T B m id backend code).0
  unfolding unregister
  unregister-IsManaged m id old backend code e v = record {
    single = ground (arith, size-remove id old m.sessions e, v.single);
    keyed = λ j t h. ground (arith, lookup-remove j id m.sessions, v.keyed j t);
  }

  pub mgr_stop-IsManaged :
      (m : SessionMgr T B) (id : Text) → IsManaged T B m → IsManaged T B (mgr_stop T B m id).0
  unfolding mgr_stop
  mgr_stop-IsManaged m id v = elim (Option-cases (lookup id m.sessions)) [
    | inl e ↦ rw (e, mgr_stop) v
    | inr (s, e) ↦
        rw (e, mgr_stop)
          (unregister-IsManaged m id s (stop_live m.backend id).0 (stop_live m.backend id).1 e v)
  ]

  -- The calls of a manager between its creation and its end.
  pub data Call : Type 0 where
    starts : ℤ → SessionParams → Call
    touches : ℤ → Text → Call
    stops : Text → Call

  pub mgr_step : SessionMgr T B → Call → SessionMgr T B
  mgr_step m (starts now p) = (mgr_start T B m now p).0
  mgr_step m (touches now id) = (mgr_touch T B m now id).0
  mgr_step m (stops id) = (mgr_stop T B m id).0

  pub mgr_run : SessionMgr T B → List Call → SessionMgr T B
  unfolding mgr_step
  mgr_run m [] = m
  mgr_run m (call ∷ calls) = mgr_run (mgr_step m call) calls

  mgr_step-IsManaged :
      (m : SessionMgr T B) (call : Call) → IsManaged T B m → IsManaged T B (mgr_step m call)
  unfolding mgr_step
  mgr_step-IsManaged m (starts now p) v = mgr_start-IsManaged m now p v
  mgr_step-IsManaged m (touches now id) v = mgr_touch-IsManaged m now id v
  mgr_step-IsManaged m (stops id) v = mgr_stop-IsManaged m id v

  mgr_run-IsManaged :
      (m : SessionMgr T B) (calls : List Call) → IsManaged T B m → IsManaged T B (mgr_run m calls)
  unfolding mgr_run
  mgr_run-IsManaged m [] v = v
  mgr_run-IsManaged m (call ∷ calls) v =
      mgr_run-IsManaged (mgr_step m call) calls (mgr_step-IsManaged m call v)

  -- Whatever is called, and whatever the backend answers, a manager never has two sessions, and
  -- keeps a session under its own identifier.
  pub mgr_run-new-IsManaged :
      (backend : State) (calls : List Call) → IsManaged T B (mgr_run (mgr_new T B backend) calls)
  mgr_run-new-IsManaged backend calls =
      mgr_run-IsManaged (mgr_new T B backend) calls (mgr_new-IsManaged T B backend)
