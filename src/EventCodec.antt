-- ===== src/EventCodec.antt =====
-- Event records as JSON, media_engine/src/analytics/event_codec.h and event_codec.c. `Json` is what
-- the code uses of cJSON, `Fields` the reading of one member, `Encode` and `Decode` the two
-- directions; `Lines` is the line of the journal, of media_engine/src/analytics/event_journal.c.
pub mod Json
pub mod Fields
pub mod Parse
pub mod Encode
pub mod Decode
pub mod RoundTrip
pub mod Lines
pub mod Scenes
mod Examples
