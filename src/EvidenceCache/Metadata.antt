-- ===== src/EvidenceCache/Metadata.antt =====
-- The metadata of a record as JSON, media_engine/src/analytics/evidence_cache.c. Every member is
-- required. A number past the range of its field is undefined in C when it is converted; here it is
-- taken as it is.
use rv1126_custom_part.Base.{
  ℕ, ℤ, pos_part, Bool, not, ◌&&◌, ◌||◌, ltb, ◌==◌, if◌then◌else◌, Option, none, some, List, [],
  ◌∷◌, ◌++◌, Text, codes, copy_text, text_eq, ◌>>=◌,
}
use rv1126_custom_part.Observation.Types.{channel_id_max, Timebase}
use rv1126_custom_part.EventEngine.Types.{event_id_max}
use rv1126_custom_part.EventEngine.Timeline.{uint32_max}
use rv1126_custom_part.EventCodec.Json.{JsonLib}
use rv1126_custom_part.EventCodec.Fields.{read_bool, read_name}
use rv1126_custom_part.EventCodec.Encode.{json_int, json_nat}
use rv1126_custom_part.EventCodec.Decode.{evidence_id_max}
use rv1126_custom_part.EvidenceCache.Types.{
  evidence_path_max, Accuracy, evidence_accuracy_name, EvidenceRecord,
}
use rv1126_custom_part.EvidenceCache.Select.{is_nil}
use rv1126_custom_part.EvidenceCache.Ids.{valid_component, valid_sha256}

abbrev pub metadata_version : ℕ
metadata_version = 2

abbrev pub sha256_max : ℕ
sha256_max = 65

abbrev pub state_max : ℕ
state_max = 32

unfoldable pub parse_accuracy : Text → Option Accuracy
unfolding text_eq
parse_accuracy t =
    if text_eq t (codes "exact")
    then some Accuracy.exact
    else if text_eq t (codes "approximate")
    then some Accuracy.approximate
    else none

-- What the groups of members hold.
pub record Names : Type 0 where
  pub evidence_id : Text
  pub event_id : Text
  pub channel_id : Text
  pub sha256 : Text
  pub storage_state : Text
  pub delivery_state : Text

pub record Origin : Type 0 where
  pub stream_epoch : ℕ
  pub frame_id : ℕ
  pub source_pts_valid : Bool
  pub source_pts : ℤ
  pub source_timebase : Timebase
  pub capture_time_us : ℤ

pub record Picture : Type 0 where
  pub width : ℕ
  pub height : ℕ
  pub bytes : ℕ
  pub frame_delta : ℕ
  pub pts_delta : ℤ
  pub created_at_us : ℤ
  pub expires_at_us : ℤ

abbrev pub make_record : Names → Origin → Picture → Accuracy → EvidenceRecord
make_record n o p accuracy = record {
  evidence_id = n.evidence_id;
  event_id = n.event_id;
  channel_id = n.channel_id;
  stream_epoch = o.stream_epoch;
  frame_id = o.frame_id;
  source_pts_valid = o.source_pts_valid;
  source_pts = o.source_pts;
  source_timebase = o.source_timebase;
  capture_time_us = o.capture_time_us;
  width = p.width;
  height = p.height;
  bytes = p.bytes;
  sha256 = n.sha256;
  accuracy = accuracy;
  frame_delta = p.frame_delta;
  pts_delta = p.pts_delta;
  created_at_us = p.created_at_us;
  expires_at_us = p.expires_at_us;
  storage_state = n.storage_state;
  delivery_state = n.delivery_state;
  path = [];
}

-- What record_from_json requires of the values.
unfoldable pub consistent : Names → Text → Origin → Picture → Bool
unfolding valid_component valid_sha256 text_eq
consistent n object_key o p =
    valid_component n.evidence_id
    && valid_sha256 n.sha256
    && text_eq object_key (n.evidence_id ++ codes ".jpg")
    && not (
        ltb uint32_max p.width
        || ltb uint32_max p.height
        || ltb uint32_max o.source_timebase.num
        || ltb uint32_max o.source_timebase.den)
    && not (o.source_pts_valid && (o.source_timebase.num == 0 || o.source_timebase.den == 0))

unfoldable pub if_consistent :
    ℤ → Names → Text → Origin → Picture → Accuracy → Option EvidenceRecord
if_consistent version names object_key origin picture accuracy =
    if pos_part version == metadata_version && consistent names object_key origin picture
    then some (make_record names origin picture accuracy)
    else none

module _ (J : JsonLib) where
  open J use {Json, text, number, boolean, object, member, as_number, truncated, below_zero}

  -- json_string, json_u64 and json_i64 of evidence_cache.c
  unfoldable pub need_text : Json → Text → ℕ → Option Text
  unfolding copy_text
  need_text o key cap = do t ← read_name J o key; if is_nil t then none else some (copy_text cap t)

  unfoldable pub need_u64 : Json → Text → Option ℕ
  need_u64 o key = do
    v ← member key o
    x ← as_number v
    if below_zero x then none else some (pos_part (truncated x))

  unfoldable pub need_i64 : Json → Text → Option ℤ
  need_i64 o key = do v ← member key o; x ← as_number v; some (truncated x)

  unfoldable pub record_members : EvidenceRecord → List (Text × Json)
  unfolding evidence_accuracy_name
  record_members r =
      (codes "v", json_nat J metadata_version)
      ∷ (codes "evidence_id", text r.evidence_id)
      ∷ (codes "event_id", text r.event_id)
      ∷ (codes "channel_id", text r.channel_id)
      ∷ (codes "stream_epoch", json_nat J r.stream_epoch)
      ∷ (codes "frame_id", json_nat J r.frame_id)
      ∷ (codes "source_pts_valid", boolean r.source_pts_valid)
      ∷ (codes "source_pts", json_int J r.source_pts)
      ∷ (codes "source_timebase_num", json_nat J r.source_timebase.num)
      ∷ (codes "source_timebase_den", json_nat J r.source_timebase.den)
      ∷ (codes "capture_time_us", json_int J r.capture_time_us)
      ∷ (codes "width", json_nat J r.width)
      ∷ (codes "height", json_nat J r.height)
      ∷ (codes "bytes", json_nat J r.bytes)
      ∷ (codes "sha256", text r.sha256)
      ∷ (codes "accuracy", text (evidence_accuracy_name r.accuracy))
      ∷ (codes "frame_delta", json_nat J r.frame_delta)
      ∷ (codes "pts_delta", json_int J r.pts_delta)
      ∷ (codes "created_at_us", json_int J r.created_at_us)
      ∷ (codes "expires_at_us", json_int J r.expires_at_us)
      ∷ (codes "storage_state", text r.storage_state)
      ∷ (codes "delivery_state", text r.delivery_state)
      ∷ (codes "object_key", text (r.evidence_id ++ codes ".jpg"))
      ∷ []

  -- record_to_json
  unfoldable pub metadata_json : EvidenceRecord → Json
  unfolding record_members
  metadata_json r = object (record_members r)

  unfoldable pub need_names : Json → Option Names
  unfolding need_text
  need_names o = do
    evidence_id ← need_text o (codes "evidence_id") evidence_id_max
    event_id ← need_text o (codes "event_id") event_id_max
    channel_id ← need_text o (codes "channel_id") channel_id_max
    sha256 ← need_text o (codes "sha256") sha256_max
    storage_state ← need_text o (codes "storage_state") state_max
    delivery_state ← need_text o (codes "delivery_state") state_max
    some (record {
      evidence_id = evidence_id;
      event_id = event_id;
      channel_id = channel_id;
      sha256 = sha256;
      storage_state = storage_state;
      delivery_state = delivery_state;
    })

  unfoldable pub need_origin : Json → Option Origin
  unfolding need_u64 need_i64
  need_origin o = do
    stream_epoch ← need_u64 o (codes "stream_epoch")
    frame_id ← need_u64 o (codes "frame_id")
    source_pts_valid ← read_bool J o (codes "source_pts_valid")
    source_pts ← need_i64 o (codes "source_pts")
    num ← need_u64 o (codes "source_timebase_num")
    den ← need_u64 o (codes "source_timebase_den")
    capture_time_us ← need_i64 o (codes "capture_time_us")
    some (record {
      stream_epoch = stream_epoch;
      frame_id = frame_id;
      source_pts_valid = source_pts_valid;
      source_pts = source_pts;
      source_timebase = record { num = num; den = den };
      capture_time_us = capture_time_us;
    })

  unfoldable pub need_picture : Json → Option Picture
  unfolding need_u64 need_i64
  need_picture o = do
    width ← need_u64 o (codes "width")
    height ← need_u64 o (codes "height")
    bytes ← need_u64 o (codes "bytes")
    frame_delta ← need_u64 o (codes "frame_delta")
    pts_delta ← need_i64 o (codes "pts_delta")
    created_at_us ← need_i64 o (codes "created_at_us")
    expires_at_us ← need_i64 o (codes "expires_at_us")
    some (record {
      width = width;
      height = height;
      bytes = bytes;
      frame_delta = frame_delta;
      pts_delta = pts_delta;
      created_at_us = created_at_us;
      expires_at_us = expires_at_us;
    })

  -- record_from_json; none for false
  unfoldable pub record_of_json : Json → Option EvidenceRecord
  unfolding need_names need_origin need_picture parse_accuracy if_consistent
  record_of_json o = do
    version ← need_i64 o (codes "v")
    names ← need_names o
    origin ← need_origin o
    picture ← need_picture o
    object_key ← need_text o (codes "object_key") evidence_path_max
    spelled ← read_name J o (codes "accuracy")
    accuracy ← parse_accuracy spelled
    if_consistent version names object_key origin picture accuracy
