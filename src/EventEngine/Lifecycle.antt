-- ===== src/EventEngine/Lifecycle.antt =====
-- The life of one event as its receiver sees it, of the records of
-- media_engine/src/analytics/event_engine.c: a START with sequence number 1, then records of the
-- same event numbered without a gap, up to an END. `Records` proves it of the functions that emit,
-- `Branches` of an accepted observation, `Steps` of the operations, `History` of every sequence of
-- operations.
pub mod Records
pub mod Branches
pub mod Steps
pub mod History
mod Examples
