-- ===== src/MediaEngine/DeliveryExamples.antt =====
-- The way of a record at an engine whose journal is full and whose cache is empty.
use rv1126_custom_part.Base.{Option, some, List, [], ◌++◌, ℕ, Text, codes, refl, true}
use rv1126_custom_part.EventEngine.Types.{Phase}
use rv1126_custom_part.EventJournal.Scenes.{dot_codec, event_of, full_journal, good_append}
use rv1126_custom_part.EvidenceCache.Types.{EvidenceCache}
use rv1126_custom_part.EvidenceCache.Capture.{CaptureIo}
use rv1126_custom_part.MediaEngine.Delivery.{Delivery, engine_analytics_event}
use rv1126_custom_part.MediaEngine.Durable.{Delivers, engine_analytics_event-Delivers}

abbrev sha256 : List ℕ → Option Text
sha256 content = some (codes "ab")

abbrev build_filename : Text → Text → Text
build_filename directory name = directory ++ codes "/" ++ name

abbrev empty_cache : EvidenceCache
empty_cache = record {
  directory = codes "evidence";
  max_bytes = 100;
  retention_s = 60;
  frame_cache_max_bytes = 100;
  frame_cache_bytes = 0;
  stored_bytes = 0;
  records = [];
  notes = [];
  frames = [];
}

abbrev exact_delivery : Delivery
exact_delivery = record {
  evidence_mode = codes "exact_evidence";
  event_journal = some full_journal;
  evidence_cache = some empty_cache;
  dispatched = [];
}

abbrev all_well : CaptureIo
all_well = record { jpeg_published = true; serialized = true; metadata_published = true }

engine_analytics_event-Delivers_example :
    Delivers sha256 build_filename dot_codec exact_delivery full_journal
      (event_of Phase.end)
      good_append
      (engine_analytics_event sha256 build_filename dot_codec exact_delivery
        (event_of Phase.end)
        1000
        all_well
        good_append)
engine_analytics_event-Delivers_example =
    engine_analytics_event-Delivers sha256 build_filename dot_codec exact_delivery full_journal
      (event_of Phase.end) 1000 all_well good_append refl
