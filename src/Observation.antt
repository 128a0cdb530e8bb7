-- ===== src/Observation.antt =====
-- The observation contract, media_engine/src/analytics/observation.h and observation.c.
-- `Types` holds the records, `Validate` the checks of one observation, `Order` the ordering of a
-- stream of them; `Valid` and `Progress` hold the theorems.
pub mod Types
pub mod Validate
pub mod Order
pub mod Names
pub mod Valid
pub mod Progress
mod Examples
