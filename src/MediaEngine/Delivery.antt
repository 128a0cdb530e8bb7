-- ===== src/MediaEngine/Delivery.antt =====
-- The way of an analytics record: engine_analytics_event of media_engine/src/engine/engine.c, and
-- gst_runner_capture_evidence of media_engine/src/gst/gst_runner.c. What is handed to the main loop is
-- kept in order; when the main loop runs it is not modelled.
use rv1126_custom_part.Base.{
  ℕ, if◌then◌else◌, Option, none, some, List, [], ◌∷◌, ◌++◌, Text, codes, text_case_eq,
}
use rv1126_custom_part.EventEngine.Types.{Event}
use rv1126_custom_part.EventJournal.Types.{LineCodec, Journal, AppendIo}
use rv1126_custom_part.EventJournal.Appending.{
  Appended, appended, dropped, rejected, null_stream, append,
}
use rv1126_custom_part.EvidenceCache.Types.{EvidenceCache}
use rv1126_custom_part.EvidenceCache.Capture.{CaptureIo, capture}

-- What the engine and its runner hold for analytics records.
pub record Delivery : Type 0 where
  pub evidence_mode : Text
  pub event_journal : Option Journal
  pub evidence_cache : Option EvidenceCache
  pub dispatched : List (ℕ × Event)

-- A record goes to the main loop only when the journal has it.
abbrev pub dispatch_of : Event → Appended → List (ℕ × Event)
dispatch_of event (appended cursor) = (cursor, event) ∷ []
dispatch_of event dropped = []
dispatch_of event (rejected error) = []
dispatch_of event null_stream = []

module _ (sha256 : List ℕ → Option Text) (build_filename : Text → Text → Text) (C : LineCodec) where
  -- gst_runner_capture_evidence: the cache and the event afterwards
  unfoldable pub capture_evidence :
      Option EvidenceCache → Event → ℕ → CaptureIo → Option EvidenceCache × Event
  unfolding capture
  capture_evidence none event now io = (none, event)
  capture_evidence (some cache) event now io =
      let out = capture sha256 build_filename cache event now io in (some out.cache, out.event)

  -- The copy of the event, with evidence when the mode asks for it.
  unfoldable pub attach_evidence : Delivery → Event → ℕ → CaptureIo → Option EvidenceCache × Event
  unfolding capture_evidence text_case_eq
  attach_evidence d event now io =
      if text_case_eq d.evidence_mode (codes "exact_evidence")
      then capture_evidence d.evidence_cache event now io
      else (d.evidence_cache, event)

  abbrev pub delivered : Delivery → Option EvidenceCache × Event → Journal × Appended → Delivery
  delivered d (cache, event) (j, result) = record d {
    event_journal = some j;
    evidence_cache = cache;
    dispatched = d.dispatched ++ dispatch_of event result;
  }

  -- engine_analytics_event
  unfoldable pub engine_analytics_event : Delivery → Event → ℕ → CaptureIo → AppendIo → Delivery
  unfolding attach_evidence append
  engine_analytics_event d event now capture_io append_io = elim d.event_journal [
    | none ↦ d
    | some j ↦
        let copy = attach_evidence d event now capture_io in
        delivered d copy (append C append_io j copy.1)
  ]
