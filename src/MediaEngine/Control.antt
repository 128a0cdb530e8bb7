-- ===== src/MediaEngine/Control.antt =====
-- The operations on live sessions, media_engine/src/engine/engine.c, with the texts of
-- media_engine/src/session/session.h. The part of the engine's state that they use is a record; the
-- time that the monotonic clock gives is an argument.
use rv1126_custom_part.Base.{
  ℕ, ◌*◌, ℤ, pos, pos_part, leb_ℤ, Bool, true, false, not, ◌&&◌, ◌||◌, Option, none, some, List, [],
  ◌∷◌, Text, codes, text_eq, copy_text, if◌then◌else◌,
}
use rv1126_custom_part.Session.Table.{SessionParams, MediaSession, SessionTable, LiveBackend}
use rv1126_custom_part.Session.Manager.{
  err_ok, err_media, err_param, same_int, SessionMgr, mgr_active, mgr_start, mgr_touch, mgr_expired,
  mgr_stop,
}

abbrev pub session_id_max : ℕ
session_id_max = 128

abbrev pub session_channel_id_max : ℕ
session_channel_id_max = 64

abbrev pub dest_ip_max : ℕ
dest_ip_max = 64

-- What the event callback of the engine is called with.
pub record Notice : Type 0 where
  pub event : Text
  pub session_id : Option Text
  pub message : Text

pub record EngineStatus : Type 0 where
  pub running : Bool
  pub fps : ℤ
  pub bitrate : ℤ
  pub session_id : Text
  pub channel_id : Text
  pub dest_ip : Text
  pub dest_port : ℤ
  pub ssrc : ℕ

pub record MediaEngine (T : SessionTable) (B : LiveBackend) : Type 0 where
  pub width : ℤ
  pub height : ℤ
  pub fps : ℤ
  pub live_lease_timeout_s : ℤ
  pub aiq_started : Bool
  pub event_sink : Bool
  pub sessions : SessionMgr T B

-- The engine after a call, the code it returns, and the calls of the event callback.
pub record Reply (T : SessionTable) (B : LiveBackend) : Type 0 where
  pub engine : MediaEngine T B
  pub code : ℤ
  pub out : List Notice

-- live_lease_timeout_s * G_USEC_PER_SEC, of a timeout that is positive.
abbrev pub lease_timeout_us : ℤ → ℤ
lease_timeout_us timeout_s = pos (pos_part timeout_s * 1000000)

-- An event of the pipeline that ends its branch.
unfoldable pub is_fault : Text → Text → Bool
is_fault event id =
    not (text_eq id []) && (text_eq event (codes "error") || text_eq event (codes "eos"))

unfoldable pub status_of : Option MediaSession → EngineStatus
status_of none = record {
  running = false;
  fps = pos 0;
  bitrate = pos 0;
  session_id = [];
  channel_id = [];
  dest_ip = [];
  dest_port = pos 0;
  ssrc = 0;
}
status_of (some s) = record {
  running = true;
  fps = s.params.fps;
  bitrate = s.params.bitrate;
  session_id = copy_text session_id_max s.params.session_id;
  channel_id = copy_text session_channel_id_max s.params.channel_id;
  dest_ip = copy_text dest_ip_max s.params.dest_ip;
  dest_port = s.params.dest_port;
  ssrc = s.params.ssrc;
}

module _ (T : SessionTable) (B : LiveBackend) where
  -- A call of the event callback, if one is set.
  abbrev pub notify : MediaEngine T B → Notice → List Notice
  notify e notice = if e.event_sink then notice ∷ [] else []

  abbrev pub with_sessions : MediaEngine T B → SessionMgr T B → MediaEngine T B
  with_sessions e m = record e { sessions = m }

  -- The geometry that is asked for is that of the capture.
  unfoldable pub same_geometry : MediaEngine T B → SessionParams → Bool
  same_geometry e p = same_int p.width e.width && same_int p.height e.height && same_int p.fps e.fps

  unfoldable pub engine_start_live : MediaEngine T B → ℤ → SessionParams → MediaEngine T B × ℤ
  unfolding same_geometry
  engine_start_live e now p =
      if not e.aiq_started
      then (e, err_media)
      else if not (same_geometry e p)
      then (e, err_param)
      else if not (text_eq p.codec (codes "h264"))
      then (e, err_param)
      else (with_sessions e (mgr_start T B e.sessions now p).0, (mgr_start T B e.sessions now p).1)

  unfoldable pub engine_stop_live : MediaEngine T B → Text → MediaEngine T B × ℤ
  engine_stop_live e id =
      (with_sessions e (mgr_stop T B e.sessions id).0, (mgr_stop T B e.sessions id).1)

  unfoldable pub engine_keepalive_live : MediaEngine T B → ℤ → Text → MediaEngine T B × ℤ
  engine_keepalive_live e now id =
      (with_sessions e (mgr_touch T B e.sessions now id).0, (mgr_touch T B e.sessions now id).1)

  -- What engine_reap_expired does once the manager has answered the stop.
  unfoldable pub reap_stopped : MediaEngine T B → Text → SessionMgr T B → ℤ → Reply T B
  reap_stopped e id m code =
      if not (same_int code err_ok)
      then record { engine = with_sessions e m; code = code; out = [] }
      else record {
        engine = with_sessions e m;
        code = pos 1;
        out = notify e (record {
          event = codes "lease_expired";
          session_id = some id;
          message = codes "daemon lease not refreshed";
        });
      }

  -- The session whose lease has expired, if leases are limited.
  unfoldable pub expired_session : MediaEngine T B → ℤ → Option Text
  expired_session e now =
      if leb_ℤ e.live_lease_timeout_s (pos 0)
      then none
      else mgr_expired T B e.sessions now (lease_timeout_us e.live_lease_timeout_s) session_id_max

  unfoldable pub engine_reap_expired : MediaEngine T B → ℤ → Reply T B
  unfolding expired_session reap_stopped
  engine_reap_expired e now = elim (expired_session e now) [
    | none ↦ record { engine = e; code = pos 0; out = [] }
    | some id ↦ reap_stopped e id (mgr_stop T B e.sessions id).0 (mgr_stop T B e.sessions id).1
  ]

  -- The sessions after an event of the pipeline; a null identifier is `none`.
  unfoldable pub after_gst_event : MediaEngine T B → Text → Option Text → SessionMgr T B
  unfolding is_fault
  after_gst_event e event none = e.sessions
  after_gst_event e event (some id) =
      if is_fault event id then (mgr_stop T B e.sessions id).0 else e.sessions

  unfoldable pub engine_gst_event :
      MediaEngine T B → Text → Option Text → Text → MediaEngine T B × List Notice
  unfolding after_gst_event
  engine_gst_event e event session message = (
    with_sessions e (after_gst_event e event session),
    notify e (record { event = event; session_id = session; message = message }),
  )

  unfoldable pub engine_get_status : MediaEngine T B → EngineStatus
  unfolding status_of
  engine_get_status e = status_of (mgr_active T B e.sessions)
