-- ===== src/Session/Manager.antt =====
-- The session manager, media_engine/src/session/session_mgr.c, with the codes of
-- media_engine/src/common/me_errors.h. Time is an argument of each call that reads the clock, and
-- the backend's state is part of the manager's.
use rv1126_custom_part.Base.{
  ℕ, ◌+◌, ℤ, pos, negsuc, pos_part, neg_part, leb_ℤ, Bool, true, false, not, ◌&&◌, ltb, Option,
  none, some, List, [], ◌∷◌, Text, copy_text, if◌then◌else◌,
}
use mathlib.Core.List.{reverse}
use rv1126_custom_part.Session.Table.{SessionParams, MediaSession, SessionTable, LiveBackend}

abbrev pub err_ok : ℤ
err_ok = pos 0

-- -32000
abbrev pub err_media : ℤ
err_media = negsuc 31999

-- -32001
abbrev pub err_not_found : ℤ
err_not_found = negsuc 32000

-- -32002
abbrev pub err_param : ℤ
err_param = negsuc 32001

-- a == b, for two int values
abbrev pub same_int : ℤ → ℤ → Bool
same_int a b = leb_ℤ a b && leb_ℤ b a

abbrev pub is_some {ℓ} : {A : Type ℓ} → Option A → Bool
is_some none = false
is_some (some a) = true

-- now_us - last_us < timeout_us
abbrev pub younger : ℤ → ℤ → ℤ → Bool
younger now last timeout =
    ltb (pos_part now + neg_part last + neg_part timeout)
      (pos_part timeout + pos_part last + neg_part now)

pub record SessionMgr (T : SessionTable) (B : LiveBackend) : Type 0 where
  pub sessions : SessionTable.Table T
  pub backend : LiveBackend.State B

module _ (T : SessionTable) (B : LiveBackend) where
  open T use {Table, empty, lookup, insert, remove, size, first, keys}
  open B use {State, start_live, stop_live}

  -- session_mgr_new, of a backend with both calls.
  unfoldable pub mgr_new : State → SessionMgr T B
  mgr_new backend = record { sessions = empty; backend = backend }

  unfoldable pub stop_each : State → List Text → State
  stop_each backend [] = backend
  stop_each backend (id ∷ ids) = stop_each (stop_live backend id).0 ids

  -- session_mgr_free: what it leaves of the backend. The list is built from its end.
  unfoldable pub mgr_free : SessionMgr T B → State
  unfolding stop_each
  mgr_free m = stop_each m.backend (reverse (keys m.sessions))

  unfoldable pub mgr_has : SessionMgr T B → Text → Bool
  mgr_has m id = is_some (lookup id m.sessions)

  unfoldable pub mgr_count : SessionMgr T B → ℕ
  mgr_count m = size m.sessions

  unfoldable pub mgr_get : SessionMgr T B → Text → Option MediaSession
  mgr_get m id = lookup id m.sessions

  unfoldable pub mgr_active : SessionMgr T B → Option MediaSession
  mgr_active m = elim (first m.sessions) [ none ↦ none | some (k, s) ↦ some s ]

  -- What session_mgr_start does once the backend has answered.
  unfoldable pub register : SessionMgr T B → ℤ → SessionParams → State → ℤ → SessionMgr T B × ℤ
  register m now p backend code =
      if not (same_int code err_ok) then (record m { backend = backend }, code) else (
        record {
          sessions = insert p.session_id (record { params = p; last_activity_us = now }) m.sessions;
          backend = backend;
        },
        err_ok,
      )

  -- session_mgr_start, at the time `now`.
  unfoldable pub mgr_start : SessionMgr T B → ℤ → SessionParams → SessionMgr T B × ℤ
  unfolding register mgr_has
  mgr_start m now p =
      if mgr_has m p.session_id
      then (m, err_media)
      else if ltb 0 (size m.sessions)
      then (m, err_media)
      else register m now p (start_live m.backend p).0 (start_live m.backend p).1

  -- session_mgr_touch, at the time `now`.
  unfoldable pub mgr_touch : SessionMgr T B → ℤ → Text → SessionMgr T B × ℤ
  mgr_touch m now id = elim (lookup id m.sessions) [
    | none ↦ (m, err_not_found)
    | some s ↦
        (record m { sessions = insert id (record s { last_activity_us = now }) m.sessions }, err_ok)
  ]

  -- session_mgr_expired: the identifier as the caller's buffer of `cap` bytes holds it.
  unfoldable pub mgr_expired : SessionMgr T B → ℤ → ℤ → ℕ → Option Text
  mgr_expired m now timeout cap = if leb_ℤ timeout (pos 0) then none else elim (first m.sessions) [
    | none ↦ none
    | some (k, s) ↦ if younger now s.last_activity_us timeout then none else some (copy_text cap k)
  ]

  -- What session_mgr_stop does once the backend has answered.
  unfoldable pub unregister : SessionMgr T B → Text → State → ℤ → SessionMgr T B × ℤ
  unregister m id backend code =
      if not (same_int code err_ok) && not (same_int code err_not_found)
      then (record m { backend = backend }, code)
      else (record { sessions = remove id m.sessions; backend = backend }, err_ok)

  -- session_mgr_stop
  unfoldable pub mgr_stop : SessionMgr T B → Text → SessionMgr T B × ℤ
  unfolding unregister
  mgr_stop m id = elim (lookup id m.sessions) [
    | none ↦ (m, err_ok)
    | some s ↦ unregister m id (stop_live m.backend id).0 (stop_live m.backend id).1
  ]
