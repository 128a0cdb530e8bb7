-- ===== src/MediaEngine/Examples.antt =====
-- An engine with one camera, over the table and the backend of the session manager's runs, and the
-- theorems there.
use rv1126_custom_part.Base.{
  copy_text, pos, some, true, List, [], ◌∷◌, codes, ◌≡◌, ◌≢◌, refl, text_eq, arith,
}
use rv1126_custom_part.Session.Listed.{listed_table}
use rv1126_custom_part.Session.Manager.{err_ok, mgr_new, mgr_start, mgr_touch, mgr_stop}
use rv1126_custom_part.Session.Scenes.{
  counting, camera, empty_manager, live_session, live_manager, live_manager-IsManaged,
}
use rv1126_custom_part.Session.Start.{mgr_new-IsManaged}
use rv1126_custom_part.MediaEngine.Control.{
  MediaEngine, engine_start_live, engine_keepalive_live, engine_reap_expired, engine_gst_event,
  engine_get_status, is_fault, same_geometry,
}
use rv1126_custom_part.MediaEngine.Service.{
  Fits, IsServing, EngineCall, start_call, keepalive_call, reap_call, gst_call, engine_run,
  engine_run-new-IsServing,
}
use rv1126_custom_part.MediaEngine.Leases.{
  engine_start_live_lem, engine_keepalive_live-kept, engine_reap_expired-frees,
  engine_gst_event-frees, engine_get_status-started,
}

abbrev Board : Type 0
Board = MediaEngine listed_table counting

abbrev idle_board : Board
idle_board = record {
  width = pos 640;
  height = pos 480;
  fps = pos 25;
  live_lease_timeout_s = pos 30;
  aiq_started = true;
  event_sink = true;
  sessions = empty_manager;
}

abbrev live_board : Board
live_board = record idle_board { sessions = live_manager }

idle_board_starts :
    engine_start_live listed_table counting idle_board (pos 1000) camera ≡ (live_board, err_ok)
unfolding engine_start_live same_geometry text_eq mgr_start mgr_new
idle_board_starts = refl

abbrev shift : List (EngineCall listed_table counting)
shift =
    start_call (pos 1000) camera
    ∷ keepalive_call (pos 2000) (codes "s1")
    ∷ gst_call (codes "eos") (some (codes "s1")) (codes "end of stream")
    ∷ start_call (pos 3000) camera
    ∷ reap_call (pos 90000000)
    ∷ []

engine_run-new-IsServing_example :
    IsServing listed_table counting (engine_run listed_table counting idle_board shift)
engine_run-new-IsServing_example =
    engine_run-new-IsServing listed_table counting idle_board 0 shift refl

engine_start_live_lem_example :
    let (e', code) = engine_start_live listed_table counting idle_board (pos 1000) camera in
    (code ≡ err_ok
      → (true ≡ true)
        × Fits listed_table counting idle_board camera
        × (listed_table.size empty_manager.sessions ≡ 0)
        × (listed_table.size e'.sessions.sessions ≡ 1)
        × (listed_table.lookup (codes "s1") e'.sessions.sessions ≡ some live_session))
    × (code ≢ err_ok → e'.sessions.sessions ≡ empty_manager.sessions)
engine_start_live_lem_example =
    engine_start_live_lem listed_table counting idle_board (pos 1000) camera

engine_get_status-started_example :
    engine_get_status listed_table counting
      (engine_start_live listed_table counting idle_board (pos 1000) camera).0
    ≡ record {
      running = true;
      fps = camera.fps;
      bitrate = camera.bitrate;
      session_id = codes "s1";
      channel_id = camera.channel_id;
      dest_ip = camera.dest_ip;
      dest_port = camera.dest_port;
      ssrc = camera.ssrc;
    }
unfolding engine_start_live same_geometry text_eq mgr_start mgr_new copy_text
engine_get_status-started_example =
    engine_get_status-started listed_table counting idle_board (pos 1000) camera
      (mgr_new-IsManaged listed_table counting 0) refl

engine_keepalive_live-kept_example :
    let e' = (engine_keepalive_live listed_table counting live_board (pos 5000) (codes "s1")).0 in
    engine_reap_expired listed_table counting e' (pos 9000)
    ≡ record { engine = e'; code = pos 0; out = [] }
unfolding engine_keepalive_live text_eq mgr_touch
engine_keepalive_live-kept_example =
    engine_keepalive_live-kept listed_table counting live_board (pos 5000) (pos 9000) (codes "s1")
      live_manager-IsManaged refl refl

engine_reap_expired-frees_example :
    let r = engine_reap_expired listed_table counting live_board (pos 90000000) in
    (r.code ≡ pos 1)
    × (listed_table.size r.engine.sessions.sessions ≡ 0)
    × (r.out
        ≡ record {
          event = codes "lease_expired";
          session_id = some (codes "s1");
          message = codes "daemon lease not refreshed";
        }
          ∷ [])
unfolding mgr_stop text_eq
engine_reap_expired-frees_example =
    engine_reap_expired-frees listed_table counting live_board (pos 90000000) (codes "s1")
      live_session live_manager-IsManaged refl (omega arith) refl refl refl

engine_gst_event-frees_example :
    listed_table.size
      (engine_gst_event listed_table counting live_board
        (codes "error")
        (some (codes "s1"))
        (codes "lost")).0.sessions.sessions
    ≡ 0
unfolding mgr_stop text_eq is_fault
engine_gst_event-frees_example =
    engine_gst_event-frees listed_table counting live_board (codes "error") (codes "s1")
      (codes "lost") live_session live_manager-IsManaged refl refl refl
