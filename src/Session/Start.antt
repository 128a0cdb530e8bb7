-- ===== src/Session/Start.antt =====
-- A start in session_mgr.c of media_engine/src/session, over any table with the documented
-- behaviour and any backend.
use rv1126_custom_part.Base.{
  ◌≤◌, ◌<◌, ℤ, true, some, Text, text_eq_refl, ◌≡◌, ◌≢◌, ◌↔◌, refl, arith, dec_lt,
}
use rv1126_custom_part.Session.Table.{SessionParams, MediaSession, SessionTable, LiveBackend}
use rv1126_custom_part.Session.Manager.{
  err_ok, err_media, same_int, SessionMgr, mgr_new, register, mgr_start,
}

pub same_int_iff : (a b : ℤ) → (same_int a b ≡ true) ↔ (a ≡ b)
same_int_iff a b = ground arith

module _ (T : SessionTable) (B : LiveBackend) where
  open T use {
    Table, empty, lookup, insert, remove, size, first, size-empty, lookup-insert, lookup-remove,
    size-insert_new, size-insert_old, size-remove, lookup-zero, first-some,
  }
  open B use {State, start_live, stop_live}

  -- One live session at most, kept under its own identifier.
  pub record IsManaged (m : SessionMgr T B) : Type 0 where
    pub single : size m.sessions ≤ 1
    pub keyed :
        (id : Text) (s : MediaSession) → lookup id m.sessions ≡ some s → s.params.session_id ≡ id

  pub mgr_new-IsManaged : (backend : State) → IsManaged (mgr_new T B backend)
  unfolding mgr_new
  mgr_new-IsManaged backend = record {
    single = omega (arith, size-empty);
    keyed = λ id s h. let gone = lookup-zero id empty size-empty in cc;
  }

  -- While a session exists a start is refused, and the backend is not called.
  pub mgr_start-busy :
      (m : SessionMgr T B) (now : ℤ) (p : SessionParams)
      → 0 < size m.sessions
      → mgr_start T B m now p ≡ (m, err_media)
  unfolding mgr_start
  mgr_start-busy m now p h = ground arith

  -- With no session the backend decides.
  pub mgr_start-free :
      (m : SessionMgr T B) (now : ℤ) (p : SessionParams)
      → size m.sessions ≡ 0
      → mgr_start T B m now p
        ≡ register T B m now p (start_live m.backend p).0 (start_live m.backend p).1
  unfolding mgr_start
  mgr_start-free m now p h = ground (arith, lookup-zero p.session_id m.sessions h)

  -- A start that succeeds leaves that one session, with its lease begun now; one that fails
  -- leaves the sessions as they were.
  pub mgr_start_lem :
      (m : SessionMgr T B) (now : ℤ) (p : SessionParams)
      → let (m', code) = mgr_start T B m now p in
        (code ≡ err_ok
          → (size m.sessions ≡ 0)
            × (size m'.sessions ≡ 1)
            × (lookup p.session_id m'.sessions
                ≡ some (record { params = p; last_activity_us = now })))
        × (code ≢ err_ok → m'.sessions ≡ m.sessions)
  mgr_start_lem m now p = elim (dec_lt 0 (size m.sessions)) [
    | yes busy ↦ rw (mgr_start-busy m now p busy) (λ e. cc, λ n. refl)
    | no free ↦
        let none_yet : size m.sessions ≡ 0 = omega arith in
        rw (mgr_start-free m now p none_yet) (answered none_yet _ _)
  ]
    where
      started : MediaSession
      started = record { params = p; last_activity_us = now }

      answered :
          size m.sessions ≡ 0
          → (backend : State) (code : ℤ)
          → let (m', result) = register T B m now p backend code in
            (result ≡ err_ok
              → (size m.sessions ≡ 0)
                × (size m'.sessions ≡ 1)
                × (lookup p.session_id m'.sessions ≡ some started))
            × (result ≢ err_ok → m'.sessions ≡ m.sessions)
      answered h backend code =
          unfold register in
          ground (
            arith,
            same_int_iff code err_ok,
            size-insert_new p.session_id started m.sessions (lookup-zero p.session_id m.sessions h),
            lookup-insert p.session_id p.session_id started m.sessions,
            text_eq_refl p.session_id,
          )
