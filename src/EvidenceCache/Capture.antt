-- ===== src/EvidenceCache/Capture.antt =====
-- me_evidence_cache_capture, media_engine/src/analytics/evidence_cache.c. The digest and the building
-- of paths are GLib's; the writes come out as `CaptureIo` says.
use rv1126_custom_part.Base.{
  ℕ, ◌+◌, ◌-◌, ◌*◌, ◌/◌, ℤ, pos, Bool, true, false, not, ◌&&◌, ◌||◌, ltb, ◌==◌, if◌then◌else◌,
  Option, none, some, List, ◌∷◌, ◌++◌, length, copy_text, Text, codes,
}
use rv1126_custom_part.Observation.Types.{channel_id_max}
use rv1126_custom_part.EventEngine.Types.{event_id_max, Phase, Event}
use rv1126_custom_part.EventEngine.Timeline.{int64_max}
use rv1126_custom_part.EventCodec.Decode.{evidence_id_max}
use rv1126_custom_part.EvidenceCache.Types.{
  evidence_path_max, Accuracy, EvidenceRecord, EvidenceCache,
}
use rv1126_custom_part.EvidenceCache.Ids.{valid_component, MadeId, make_evidence_id}
use rv1126_custom_part.EvidenceCache.Select.{is_nil, Selected, select_frame}
use rv1126_custom_part.EvidenceCache.Store.{lookup, prune_expired}
use rv1126_custom_part.EvidenceCache.Window.{add_size}

-- How the calls come out: write_atomic of the picture, the metadata as text, write_atomic of that.
pub record CaptureIo : Type 0 where
  pub jpeg_published : Bool
  pub serialized : Bool
  pub metadata_published : Bool

-- What is returned: 0, 1 with no evidence, or -1.
pub data CaptureCode : Type 0 where
  captured unpublished no_match too_large full missing_identity : CaptureCode
  underivable unsafe_id no_digest publish_failed : CaptureCode

-- The cache, the event with its evidence_id, the record that is copied out.
pub record Captured : Type 0 where
  pub cache : EvidenceCache
  pub event : Event
  pub copied : Option EvidenceRecord
  pub code : CaptureCode

-- retention_s seconds from `now`, at most INT64_MAX.
unfoldable pub expires_at : ℕ → ℕ → ℤ
expires_at retention_s now =
    if ltb ((int64_max - now) / 1000000) retention_s
    then pos int64_max
    else pos (now + retention_s * 1000000)

abbrev pub is_exact : Accuracy → Bool
is_exact Accuracy.exact = true
is_exact _ = false

abbrev pub is_start : Phase → Bool
is_start Phase.start = true
is_start _ = false

-- The event that the record is kept for.
abbrev pub with_id : Event → Text → Event
with_id event id = record event { evidence_id = id }

-- The files, and the record in the table when both are there.
unfoldable pub publish : EvidenceCache → Event → EvidenceRecord → CaptureIo → Captured
publish cache event found io =
    if io.jpeg_published && io.serialized && io.metadata_published
    then record {
      cache = record cache {
        records = (found.evidence_id, found) ∷ cache.records;
        stored_bytes = add_size cache.stored_bytes found.bytes;
      };
      event = event;
      copied = some found;
      code = CaptureCode.captured;
    }
    else record { cache = cache; event = event; copied = none; code = CaptureCode.publish_failed }

-- Whether there is room, before and after what has expired is gone.
unfoldable pub make_room : EvidenceCache → Event → EvidenceRecord → ℕ → CaptureIo → Captured
unfolding prune_expired publish
make_room cache event found now io =
    let pruned = (prune_expired cache (pos now)).cache in
    if ltb cache.max_bytes found.bytes
    then record { cache = cache; event = event; copied = none; code = CaptureCode.too_large }
    else if ltb pruned.max_bytes (add_size pruned.stored_bytes found.bytes)
    then record { cache = pruned; event = event; copied = none; code = CaptureCode.full }
    else publish pruned event found io

module _ (sha256 : List ℕ → Option Text) (build_filename : Text → Text → Text) where
  -- fill_record_path
  unfoldable pub record_path : Text → Text → Text
  unfolding copy_text
  record_path directory evidence_id =
      copy_text evidence_path_max (build_filename directory (evidence_id ++ codes ".jpg"))

  unfoldable pub candidate : EvidenceCache → Event → Selected → ℕ → Text → EvidenceRecord
  unfolding expires_at record_path copy_text
  candidate cache event s now digest = record {
    evidence_id = copy_text evidence_id_max event.evidence_id;
    event_id = copy_text event_id_max event.event_id;
    channel_id = copy_text channel_id_max event.channel_id;
    stream_epoch = event.stream_epoch;
    frame_id =
        if ltb 0 s.frame.note.frame_id
        then s.frame.note.frame_id
        else if is_exact s.accuracy
        then event.frame_id
        else 0;
    source_pts_valid = s.frame.note.source_pts_valid;
    source_pts = s.frame.note.source_pts;
    source_timebase = s.frame.note.source_timebase;
    capture_time_us = event.event_time_us;
    width = s.frame.note.width;
    height = s.frame.note.height;
    bytes = length s.frame.jpeg;
    sha256 = copy_text 65 digest;
    accuracy = s.accuracy;
    frame_delta = s.frame_delta;
    pts_delta = s.pts_delta;
    created_at_us = pos now;
    expires_at_us = expires_at cache.retention_s now;
    storage_state = codes "ready";
    delivery_state = codes "awaiting_consumer";
    path = record_path cache.directory (copy_text evidence_id_max event.evidence_id);
  }

  -- A START whose evidence is not stored.
  unfoldable pub capture_new : EvidenceCache → Event → ℕ → CaptureIo → Captured
  unfolding select_frame candidate make_room
  capture_new cache event now io = elim (select_frame cache.frames event) [
    | none ↦ record { cache = cache; event = event; copied = none; code = CaptureCode.no_match }
    | some s ↦ elim (sha256 s.frame.jpeg) [
      | none ↦ record { cache = cache; event = event; copied = none; code = CaptureCode.no_digest }
      | some digest ↦ make_room cache event (candidate cache event s now digest) now io
    ]
  ]

  -- Under the lock, with an identifier.
  unfoldable pub capture_locked : EvidenceCache → Event → ℕ → CaptureIo → Captured
  unfolding lookup capture_new
  capture_locked cache event now io = elim (lookup event.evidence_id cache.records) [
    | some found ↦ record {
      cache = cache;
      event = event;
      copied = some found;
      code = CaptureCode.captured;
    }
    | none ↦
        if not (is_start event.phase)
        then record { cache = cache; event = event; copied = none; code = CaptureCode.unpublished }
        else capture_new cache event now io
  ]

  -- The identifier of the event, or one made for it.
  unfoldable pub given_id : Event → MadeId
  unfolding make_evidence_id
  given_id event =
      if is_nil event.evidence_id
      then make_evidence_id sha256 event.event_id event.evidence_id
      else record { text = event.evidence_id; good = true }

  -- me_evidence_cache_capture
  unfoldable pub capture : EvidenceCache → Event → ℕ → CaptureIo → Captured
  unfolding valid_component capture_locked
  capture cache event now io =
      let made = given_id event in
      let event' = with_id event made.text in
      if is_nil event.event_id || is_nil event.channel_id || event.stream_epoch == 0
      then record {
        cache = cache;
        event = event;
        copied = none;
        code = CaptureCode.missing_identity;
      }
      else if not made.good
      then record { cache = cache; event = event'; copied = none; code = CaptureCode.underivable }
      else if not (valid_component made.text)
      then record { cache = cache; event = event'; copied = none; code = CaptureCode.unsafe_id }
      else capture_locked cache event' now io
