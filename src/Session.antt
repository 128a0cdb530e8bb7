-- ===== src/Session.antt =====
-- Live sessions: media_engine/src/session/session.h, session_mgr.h and session_mgr.c. `Table` is
-- what the manager needs of GLib's hash table, `Manager` the manager over it and over a backend.
pub mod Table
pub mod Manager
pub mod Start
pub mod Invariant
pub mod Lease
pub mod Listed
pub mod Scenes
mod Examples
