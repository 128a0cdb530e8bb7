-- ===== src/Session/Examples.antt =====
-- Runs of the session manager, and the theorems at them.
use rv1126_custom_part.Base.{pos, none, some, List, [], ◌∷◌, codes, text_eq, ◌≡◌, ◌≢◌, refl}
use rv1126_custom_part.Session.Listed.{listed_table}
use rv1126_custom_part.Session.Scenes.{
  counting, camera, empty_manager, live_session, live_manager, live_manager-IsManaged,
}
use rv1126_custom_part.Session.Manager.{err_ok, mgr_start, mgr_touch, mgr_expired, mgr_stop}
use rv1126_custom_part.Session.Start.{IsManaged, mgr_start_lem}
use rv1126_custom_part.Session.Invariant.{
  Call, starts, touches, stops, mgr_run, mgr_run-new-IsManaged,
}
use rv1126_custom_part.Session.Lease.{mgr_stop_lem, mgr_touch-unexpired}

abbrev day : List (Call listed_table counting)
day =
    starts (pos 1000) camera
    ∷ starts (pos 1500) camera
    ∷ touches (pos 2000) (codes "s1")
    ∷ stops (codes "s1")
    ∷ []

mgr_run-new-IsManaged_example :
    IsManaged listed_table counting (mgr_run listed_table counting empty_manager day)
mgr_run-new-IsManaged_example = mgr_run-new-IsManaged listed_table counting 0 day

mgr_start_lem_example :
    let (m', code) = mgr_start listed_table counting empty_manager (pos 1000) camera in
    (code ≡ err_ok
      → (listed_table.size empty_manager.sessions ≡ 0)
        × (listed_table.size m'.sessions ≡ 1)
        × (listed_table.lookup (codes "s1") m'.sessions ≡ some live_session))
    × (code ≢ err_ok → m'.sessions ≡ empty_manager.sessions)
mgr_start_lem_example = mgr_start_lem listed_table counting empty_manager (pos 1000) camera

mgr_stop_lem_example :
    let (m', code) = mgr_stop listed_table counting live_manager (codes "s1") in
    (code ≡ err_ok → listed_table.lookup (codes "s1") m'.sessions ≡ none)
    × (code ≢ err_ok → m'.sessions ≡ live_manager.sessions)
mgr_stop_lem_example = mgr_stop_lem listed_table counting live_manager (codes "s1")

mgr_touch-unexpired_example :
    mgr_expired listed_table counting
      (mgr_touch listed_table counting live_manager (pos 5000) (codes "s1")).0
      (pos 9000)
      (pos 6000)
      128
    ≡ none
unfolding mgr_touch text_eq
mgr_touch-unexpired_example =
    mgr_touch-unexpired listed_table counting live_manager (pos 5000) (pos 9000) (pos 6000)
      (codes "s1") 128 live_manager-IsManaged refl refl
