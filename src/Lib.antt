-- ===== src/Lib.antt =====
-- Verification of the analytics core and the live sessions of the media engine (media_engine/src).
--
-- The program. The media engine runs the camera pipelines of a board. A detector turns frames into
-- observations; the event engine turns observations into START, UPDATE and END records that an
-- alarm sink delivers. Each record goes into a journal, a file of JSON lines that clients replay
-- after a cursor, and a START gets a picture from the evidence cache. The session manager keeps the
-- one live session that may exist. This library is about the parts of the C program that decide
-- what happens:
--
--   Observation       media_engine/src/analytics/observation.h and observation.c: the contract of an
--                     observation (`validate` is me_observation_validate, split at its groups of
--                     checks into check_keys, check_frame, check_tracks and check_rules), the order
--                     of a stream (`classify` is me_observation_order_classify), the names.
--   AnalyticsConfig   media_engine/src/analytics/config.h and config.c: defaults, validation
--                     (`config_validate`) and the parsing of a rule type.
--   EventEngine       media_engine/src/analytics/event_engine.h and event_engine.c. `Engine` is
--                     MeEventEngine; `init`, `deinit`, `process`, `close` and `reconfigure` are the
--                     operations me_event_engine_*. Names has the printed names, Timeline the
--                     clocks, Tracks the table of tracks, Rules the facts of the rules, Naming the
--                     event identifiers, Emission the three kinds of records, Accepted the body of process_accepted, Process
--                     the operations. The proofs are in Lifecycle (the sequence of records), Conditions,
--                     Emitted and Timing (when a record goes out, and which), Failures, Streams, Identifiers, Tracks/Identity and
--                     Rules/Capacity; Scenes and the Examples modules have concrete runs.
--   EventCodec        media_engine/src/analytics/event_codec.h and event_codec.c, a record as JSON.
--                     Fields has the json_* readers, Parse the names read back, Encode and Decode
--                     have `to_json` and `from_json`, me_analytics_event_to_json and _from_json;
--                     Lines has record_to_line and record_from_line of event_journal.c.
--   EventJournal      media_engine/src/analytics/event_journal.h and event_journal.c. `Journal` is
--                     MeEventJournal with what its file holds. Rewriting has rewrite_locked,
--                     Compaction compact_to_fit_locked, Appending, Opening and Replay have
--                     `append`, `open_journal` and `snapshot_after`. The proofs are in Lifecycle
--                     (appends), Recovery (reading the file again), Thinning and Gaps.
--   EvidenceCache     media_engine/src/analytics/evidence_cache.h and evidence_cache.c. Select has
--                     select_frame_locked, Window the notes and frames (`note_frame`,
--                     `push_jpeg`), Store the table of records, Capture `capture`, which is
--                     me_evidence_cache_capture, Ids the names, Metadata a record as JSON. The
--                     proofs are in Best, Bounds, Totals, Repeats and Restored.
--   Session           media_engine/src/session/session.h, session_mgr.h and session_mgr.c, with the
--                     codes of media_engine/src/common/me_errors.h. `mgr_start` and so on are
--                     session_mgr_start and so on.
--   MediaEngine       media_engine/src/engine/engine.h and engine.c, the operations on live sessions:
--                     `engine_start_live` and so on have the code's names. Control has them,
--                     Service what they keep, Leases when a lease ends and a slot is freed.
--                     Delivery has engine_analytics_event, the way of a record through the
--                     evidence cache and the journal, Durable its proofs.
--   Base              shared operators, lists, integers, texts and tests.
--
-- How they interact. `process` calls `validate` and `classify` of Observation; `init` and
-- `reconfigure` call `config_validate` of AnalyticsConfig; Emission is called by Accepted, and
-- Accepted by Process. Session stands on two interfaces, records that its sections take as
-- parameters: SessionTable, GLib's hash table with its documented laws, and LiveBackend, the media
-- plane, of which nothing is assumed. Session/Listed shows that the laws can hold. MediaEngine calls
-- Session, and takes the same two parameters; its Delivery calls EvidenceCache and EventJournal.
--
-- EventJournal stands on LineCodec, the format of a line, of which it uses that an encodable record
-- is read back and that a line ends in its only newline; EventCodec/Lines gives that interface over
-- JsonLib and JsonText, cJSON's functions with their laws (EventCodec/Scenes shows that these can
-- hold). A number is a finite double, which holds integers up to 2^53 - 1. The printer takes 15 digits
-- for enough when they differ from the number by at most one part in 2^52, so that the law of printing
-- and parsing is about documents whose integers are at most 2^52 - 1. The digest and
-- the building of paths in the evidence cache are GLib's, and parameters.
--
-- How the code is written down. A function that changes its engine returns an Outcome: the engine
-- after the call, the records given to the sink in order, and the code returned, a number of records
-- or an error; each `return -1` keeps the state the code has reached by then. Unsigned fields are
-- natural numbers, with the code's own guards at UINT32_MAX and UINT64_MAX; the hash is taken
-- modulo 2^64, the 128-bit product modulo 2^128; int64_t and int are integers. An enumeration of
-- the input has one constructor `other` for the values out of range. An array with its count is a
-- list; the tables of tracks and facts have all their slots. A C string is the list of its bytes before the
-- terminator, and copying into a buffer keeps what fits. The time that session_mgr.c and engine.c
-- read from the monotonic clock is an argument of the call, and so is the wall clock of
-- evidence_cache.c. Calls on files come out as a record of outcomes says (RewriteIo, AppendIo,
-- OpenIo, CaptureIo), an argument of the operation: every way in which they can fail is a value of it.
-- The counts of bytes are taken modulo 2^64.
--
-- Bounds and fuel. The loops are over lists, so that the definitions are structural recursions, with
-- two exceptions: `squeeze` and `trim`, the loops of the journal that remove UPDATEs, have a number of
-- rounds, one more than there are records; each round removes a record. The sizes 64, 16, 96 and 256
-- are those of the sources.
--
-- Not modelled. Null pointers and the buffers for error texts: arguments are values, and an error is
-- a constructor. Logging, locks, and failing allocations of the journal, the codec and the cache. The
-- sink is a flag, whether a callback is installed. What stdio may still hold in its buffer after a
-- write that failed. Of the evidence cache, the contents of its directory, and
-- opening with recovery and clean-up. Of the engine, its creation and end, and snapshots. The other parts of media_engine/src (configuration file, IPC server,
-- pipelines, vendor runners) and the daemon in Go are outside this library.
mod Base
pub mod Observation
pub mod AnalyticsConfig
pub mod EventEngine
pub mod EventCodec
pub mod EventJournal
pub mod EvidenceCache
pub mod Session
pub mod MediaEngine
