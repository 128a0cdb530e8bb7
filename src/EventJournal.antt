-- ===== src/EventJournal.antt =====
-- The journal of event records, media_engine/src/analytics/event_journal.h and event_journal.c.
-- `Types` has the state and what the journal needs of its line format and of its file, `Rewriting`
-- the replacement of the file, `Compaction` the making of room, `Appending`, `Opening` and `Replay`
-- the operations.
pub mod Types
pub mod Rewriting
pub mod Compaction
pub mod Appending
pub mod Opening
pub mod Replay
pub mod Invariant
pub mod Thinning
pub mod Stored
pub mod Making
pub mod Lifecycle
pub mod Recovery
pub mod Gaps
pub mod Scenes
mod Examples
