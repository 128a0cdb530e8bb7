-- ===== src/EvidenceCache.antt =====
-- The evidence cache, media_engine/src/analytics/evidence_cache.h and evidence_cache.c. `Select` is
-- the choice of a frame, `Window` the recent notes and frames, `Ids` the names, `Store` the records
-- with their bytes, `Capture` the publication; the other modules are the proofs.
pub mod Types
pub mod Ids
pub mod Select
pub mod Window
pub mod Store
pub mod Capture
pub mod Best
pub mod Bounds
pub mod Totals
pub mod Repeats
pub mod Metadata
pub mod Restored
pub mod Copies
mod Examples
