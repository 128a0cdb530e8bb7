-- ===== src/EventEngine.antt =====
-- The people-flow event engine, media_engine/src/analytics/event_engine.h and event_engine.c.
-- `Types` has the state, the other modules one group of the source's functions each.
pub mod Types
pub mod Timeline
pub mod Tracks
pub mod Rules
pub mod Naming
pub mod Names
pub mod Outcomes
pub mod Emission
pub mod Accepted
pub mod Process
pub mod Lifecycle
pub mod Scenes
pub mod Failures
pub mod Identifiers
pub mod Conditions
pub mod Emitted
pub mod Timing
pub mod Streams
mod Examples
