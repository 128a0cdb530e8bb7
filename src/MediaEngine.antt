-- ===== src/MediaEngine.antt =====
-- The live sessions of the media engine: media_engine/src/engine/engine.h and engine.c. `Control` has
-- the operations over the session manager, `Service` what they keep, `Leases` when a lease ends.
-- `Delivery` is the way of an analytics record into the journal, and `Durable` what it keeps.
pub mod Control
pub mod Service
pub mod Leases
pub mod Delivery
pub mod Durable
mod Examples
mod DeliveryExamples
