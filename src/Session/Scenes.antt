-- ===== src/Session/Scenes.antt =====
-- A manager over a table of two columns and a backend that counts its calls, for concrete runs.
use rv1126_custom_part.Base.{ℕ, ◌+◌, pos, [], ◌∷◌, codes, text_eq-true_iff, ◌≡◌, refl, arith}
use rv1126_custom_part.Session.Table.{SessionParams, MediaSession, LiveBackend}
use rv1126_custom_part.Session.Listed.{listed_table}
use rv1126_custom_part.Session.Manager.{err_ok, SessionMgr, mgr_new, mgr_start}
use rv1126_custom_part.Session.Start.{IsManaged}

-- The state is the number of calls; each succeeds.
abbrev pub counting : LiveBackend
counting = record {
  State = ℕ;
  start_live = λ calls p. (calls + 1, err_ok);
  stop_live = λ calls id. (calls + 1, err_ok);
}

abbrev pub camera : SessionParams
camera = record {
  session_id = codes "s1";
  channel_id = codes "cam0";
  codec = codes "h264";
  width = pos 640;
  height = pos 480;
  fps = pos 25;
  bitrate = pos 1000;
  dest_ip = codes "10.0.0.1";
  dest_port = pos 9000;
  ssrc = 7;
  payload_type = pos 96;
}

abbrev pub Manager : Type 0
Manager = SessionMgr listed_table counting

abbrev pub empty_manager : Manager
empty_manager = mgr_new listed_table counting 0

abbrev pub live_session : MediaSession
live_session = record { params = camera; last_activity_us = pos 1000 }

abbrev pub live_manager : Manager
live_manager = record { sessions = ((codes "s1", live_session) ∷ [], (tt, tt)); backend = 1 }

pub started_is_live :
    mgr_start listed_table counting empty_manager (pos 1000) camera ≡ (live_manager, err_ok)
unfolding mgr_start mgr_new
started_is_live = refl

pub live_manager-IsManaged : IsManaged listed_table counting live_manager
live_manager-IsManaged = record {
  single = omega arith;
  keyed = λ id s h. ground (arith, text_eq-true_iff (codes "s1") id);
}
