-- ===== src/EvidenceCache/Examples.antt =====
-- The theorems at small caches that satisfy their conditions, with a digest of two letters for every
-- content and paths joined by a slash.
use rv1126_custom_part.Base.{
  ℕ, pos, negsuc, true, Option, some, List, [], ◌∷◌, ◌++◌, Text, codes, ◌≡◌, refl, arith,
}
use rv1126_custom_part.EventEngine.Types.{Phase, Event, zero_event}
use rv1126_custom_part.EvidenceCache.Types.{
  zero_note, JpegFrame, Accuracy, EvidenceRecord, EvidenceCache,
}
use rv1126_custom_part.EvidenceCache.Select.{comparable, pts_distance, select_frame}
use rv1126_custom_part.EvidenceCache.Window.{is_jpeg, jpeg_frame, push_jpeg}
use rv1126_custom_part.EvidenceCache.Capture.{given_id, CaptureCode, CaptureIo, capture}
use rv1126_custom_part.EvidenceCache.Best.{IsChosen, select_frame-IsChosen}
use rv1126_custom_part.EvidenceCache.Bounds.{IsWindow, Takes, push_jpeg-IsWindow}
use rv1126_custom_part.EvidenceCache.Totals.{IsStore, capture-IsStore}
use rv1126_custom_part.EventCodec.Scenes.{text_json}
use rv1126_custom_part.EvidenceCache.Ids.{valid_component, valid_sha256}
use rv1126_custom_part.EvidenceCache.Metadata.{metadata_json, record_of_json}
use rv1126_custom_part.EvidenceCache.Restored.{IsRestorable, record_of_json-metadata_json}
use rv1126_custom_part.EvidenceCache.Repeats.{IsRepeatable, capture-IsRepeatable}

abbrev sha256 : List ℕ → Option Text
sha256 content = some (codes "ab")

abbrev build_filename : Text → Text → Text
build_filename directory name = directory ++ codes "/" ++ name

abbrev small_jpeg : List ℕ
small_jpeg = 255 ∷ 216 ∷ 255 ∷ 217 ∷ []

abbrev start_event : Event
start_event = record zero_event {
  event_id = codes "ev1";
  channel_id = codes "ch0";
  stream_epoch = 3;
  phase = Phase.start;
  source_pts = pos 100;
  source_pts_valid = true;
  source_timebase = record { num = 1; den = 1000 };
}

-- A frame of the event's stream at that time.
abbrev frame_at : ℕ → JpegFrame
frame_at pts = record {
  jpeg = small_jpeg;
  note = record zero_note {
    channel_id = codes "ch0";
    stream_epoch = 3;
    frame_id = 8;
    source_pts_valid = true;
    source_pts = pos pts;
    source_timebase = record { num = 1; den = 1000 };
  };
}

abbrev two_frames : List JpegFrame
two_frames = frame_at 90 ∷ frame_at 130 ∷ []

abbrev small_cache : EvidenceCache
small_cache = record {
  directory = codes "evidence";
  max_bytes = 100;
  retention_s = 60;
  frame_cache_max_bytes = 100;
  frame_cache_bytes = 8;
  stored_bytes = 0;
  records = [];
  notes = [];
  frames = two_frames;
}

small_cache-IsWindow : IsWindow small_cache
small_cache-IsWindow = record {
  limit_fits = omega arith;
  counted = refl;
  bounded = omega arith;
  notes_few = omega arith;
}

small_cache-IsStore : IsStore 100 small_cache
small_cache-IsStore = record {
  counted = refl;
  bounded = omega arith;
  limit_bounded = omega arith;
  bound_fits = omega arith;
}

abbrev all_well : CaptureIo
all_well = record { jpeg_published = true; serialized = true; metadata_published = true }

select_frame-IsChosen_example :
    IsChosen start_event two_frames (select_frame two_frames start_event)
select_frame-IsChosen_example = select_frame-IsChosen start_event two_frames

is_jpeg-small_jpeg : is_jpeg small_jpeg ≡ true
unfolding is_jpeg
is_jpeg-small_jpeg = refl

push_jpeg-IsWindow_example :
    (cache' : EvidenceCache) × ((push_jpeg small_cache small_jpeg true (pos 140) ≡ some cache')
      × Takes small_cache (jpeg_frame [] small_jpeg true (pos 140)) cache')
push_jpeg-IsWindow_example =
    push_jpeg-IsWindow small_cache small_jpeg true (pos 140) small_cache-IsWindow (omega arith)
      is_jpeg-small_jpeg

capture-IsStore_example :
    IsStore 100 (capture sha256 build_filename small_cache start_event 1000 all_well).cache
capture-IsStore_example =
    capture-IsStore sha256 build_filename 100 small_cache start_event 1000 all_well
      small_cache-IsStore

capture-start_event :
    (capture sha256 build_filename small_cache start_event 1000 all_well).code
    ≡ CaptureCode.captured
unfolding capture given_id comparable pts_distance
capture-start_event = refl

capture-IsRepeatable_example :
    IsRepeatable sha256 build_filename
      (capture sha256 build_filename small_cache start_event 1000 all_well)
      2000
      all_well
capture-IsRepeatable_example =
    capture-IsRepeatable sha256 build_filename small_cache start_event 1000 2000 all_well all_well
      (omega arith) capture-start_event

abbrev small_record : EvidenceRecord
small_record = record {
  evidence_id = codes "ev-ab";
  event_id = codes "ev1";
  channel_id = codes "ch0";
  stream_epoch = 3;
  frame_id = 8;
  source_pts_valid = true;
  source_pts = pos 90;
  source_timebase = record { num = 1; den = 1000 };
  capture_time_us = pos 5;
  width = 640;
  height = 480;
  bytes = 4;
  sha256 = codes "0123456789abcdef0123456789abcdef0123456789abcdef0123456789abcdef";
  accuracy = Accuracy.approximate;
  frame_delta = 2;
  pts_delta = negsuc 9;
  created_at_us = pos 1000;
  expires_at_us = pos 60001000;
  storage_state = codes "ready";
  delivery_state = codes "awaiting_consumer";
  path = [];
}

small_record-IsRestorable : IsRestorable small_record
unfolding valid_component valid_sha256
small_record-IsRestorable = record {
  id_held = (refl, omega arith);
  id_valid = refl;
  event_id_held = (refl, omega arith);
  channel_id_held = (refl, omega arith);
  sha_held = (refl, omega arith);
  sha_valid = refl;
  storage_held = (refl, omega arith);
  delivery_held = (refl, omega arith);
  epoch_fits = omega arith;
  frame_fits = omega arith;
  pts_fits = omega arith;
  num_fits = omega arith;
  den_fits = omega arith;
  timed = refl;
  time_fits = omega arith;
  width_fits = omega arith;
  height_fits = omega arith;
  bytes_fit = omega arith;
  frame_delta_fits = omega arith;
  pts_delta_fits = omega arith;
  created_fits = omega arith;
  expires_fits = omega arith;
  matched = ground arith;
}

record_of_json-metadata_json_example :
    record_of_json text_json (metadata_json text_json small_record)
    ≡ some (record small_record { path = [] })
record_of_json-metadata_json_example =
    record_of_json-metadata_json text_json small_record small_record-IsRestorable
