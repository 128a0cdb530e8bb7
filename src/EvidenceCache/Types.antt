-- ===== src/EvidenceCache/Types.antt =====
-- The records of media_engine/src/analytics/evidence_cache.h and evidence_cache.c. A queue is the
-- list of its entries, the oldest first; the hash table is the list of its records with their keys.
use rv1126_custom_part.Base.{ℕ, ℤ, pos, Bool, false, List, [], Text, codes}
use rv1126_custom_part.Observation.Types.{Timebase}

abbrev pub note_limit : ℕ
note_limit = 256

abbrev pub evidence_path_max : ℕ
evidence_path_max = 256

abbrev pub evidence_frame_cache_max_bytes : ℕ
evidence_frame_cache_max_bytes = 8388608

pub record FrameNote : Type 0 where
  pub channel_id : Text
  pub stream_epoch : ℕ
  pub frame_id : ℕ
  pub source_pts_valid : Bool
  pub source_pts : ℤ
  pub source_timebase : Timebase
  pub width : ℕ
  pub height : ℕ

abbrev pub zero_note : FrameNote
zero_note = record {
  channel_id = [];
  stream_epoch = 0;
  frame_id = 0;
  source_pts_valid = false;
  source_pts = pos 0;
  source_timebase = record { num = 0; den = 0 };
  width = 0;
  height = 0;
}

-- `jpeg` is the bytes of the picture.
pub record JpegFrame : Type 0 where
  pub jpeg : List ℕ
  pub note : FrameNote

pub data Accuracy : Type 0 where
  unmatched exact approximate : Accuracy

-- me_evidence_accuracy_name
unfoldable pub evidence_accuracy_name : Accuracy → Text
evidence_accuracy_name Accuracy.exact = codes "exact"
evidence_accuracy_name Accuracy.approximate = codes "approximate"
evidence_accuracy_name Accuracy.unmatched = codes "none"

pub record EvidenceRecord : Type 0 where
  pub evidence_id : Text
  pub event_id : Text
  pub channel_id : Text
  pub stream_epoch : ℕ
  pub frame_id : ℕ
  pub source_pts_valid : Bool
  pub source_pts : ℤ
  pub source_timebase : Timebase
  pub capture_time_us : ℤ
  pub width : ℕ
  pub height : ℕ
  pub bytes : ℕ
  pub sha256 : Text
  pub accuracy : Accuracy
  pub frame_delta : ℕ
  pub pts_delta : ℤ
  pub created_at_us : ℤ
  pub expires_at_us : ℤ
  pub storage_state : Text
  pub delivery_state : Text
  pub path : Text

pub record EvidenceCache : Type 0 where
  pub directory : Text
  pub max_bytes : ℕ
  pub retention_s : ℕ
  pub frame_cache_max_bytes : ℕ
  pub frame_cache_bytes : ℕ
  pub stored_bytes : ℕ
  pub records : List (Text × EvidenceRecord)
  pub notes : List FrameNote
  pub frames : List JpegFrame
