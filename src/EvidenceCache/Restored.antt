-- ===== src/EvidenceCache/Restored.antt =====
-- The metadata that is written for a record is read back as that record.
use rv1126_custom_part.Base.{
  ℕ, ◌-◌, ◌≤◌, ◌<◌, ℤ, pos, true, false, ◌&&◌, ◌||◌, ◌==◌, some, [], ◌∷◌, ◌++◌, length,
  length-append, Text, codes, copy_text, take_short, text_eq, text_eq_refl, ◌≡◌, ◌≢◌, refl, arith,
}
use rv1126_custom_part.Observation.Types.{channel_id_max}
use rv1126_custom_part.EventEngine.Types.{event_id_max}
use rv1126_custom_part.EventEngine.Timeline.{uint32_max}
use rv1126_custom_part.EventCodec.Json.{JsonLib, safe_integer, magnitude, find_member}
use rv1126_custom_part.EventCodec.Fields.{read_bool-boolean, read_name-text}
use rv1126_custom_part.EventCodec.Encode.{json_int, json_nat}
use rv1126_custom_part.EventCodec.Decode.{evidence_id_max}
use rv1126_custom_part.EvidenceCache.Types.{
  evidence_path_max, Accuracy, evidence_accuracy_name, EvidenceRecord,
}
use rv1126_custom_part.EvidenceCache.Select.{is_nil}
use rv1126_custom_part.EvidenceCache.Ids.{valid_component, valid_sha256}
use rv1126_custom_part.EvidenceCache.Metadata.{
  sha256_max, state_max, parse_accuracy, Names, Origin, Picture, consistent, need_text, need_u64,
  need_i64, record_members, metadata_json, need_names, need_origin, need_picture, record_of_json,
}

-- A text that a buffer holds, and that is not empty.
abbrev pub Held : Text → ℕ → Type 0
Held t cap = (is_nil t ≡ false) × (length t < cap)

-- The records whose metadata is accepted: texts that fit and are not empty, a safe name and a digest of
-- 64 digits, numbers within what a double holds, sizes and timebase of 32 bits, a timebase if there is
-- a timestamp, and an accuracy.
pub record IsRestorable (r : EvidenceRecord) : Type 0 where
  pub id_held : Held r.evidence_id evidence_id_max
  pub id_valid : valid_component r.evidence_id ≡ true
  pub event_id_held : Held r.event_id event_id_max
  pub channel_id_held : Held r.channel_id channel_id_max
  pub sha_held : Held r.sha256 sha256_max
  pub sha_valid : valid_sha256 r.sha256 ≡ true
  pub storage_held : Held r.storage_state state_max
  pub delivery_held : Held r.delivery_state state_max
  pub epoch_fits : r.stream_epoch ≤ safe_integer
  pub frame_fits : r.frame_id ≤ safe_integer
  pub pts_fits : magnitude r.source_pts ≤ safe_integer
  pub num_fits : r.source_timebase.num ≤ uint32_max
  pub den_fits : r.source_timebase.den ≤ uint32_max
  pub timed :
      (r.source_pts_valid && (r.source_timebase.num == 0 || r.source_timebase.den == 0)) ≡ false
  pub time_fits : magnitude r.capture_time_us ≤ safe_integer
  pub width_fits : r.width ≤ uint32_max
  pub height_fits : r.height ≤ uint32_max
  pub bytes_fit : r.bytes ≤ safe_integer
  pub frame_delta_fits : r.frame_delta ≤ safe_integer
  pub pts_delta_fits : magnitude r.pts_delta ≤ safe_integer
  pub created_fits : magnitude r.created_at_us ≤ safe_integer
  pub expires_fits : magnitude r.expires_at_us ≤ safe_integer
  pub matched : r.accuracy ≢ Accuracy.unmatched

parse_accuracy-evidence_accuracy_name :
    (a : Accuracy) → a ≢ Accuracy.unmatched → parse_accuracy (evidence_accuracy_name a) ≡ some a
unfolding parse_accuracy evidence_accuracy_name
parse_accuracy-evidence_accuracy_name Accuracy.unmatched h = ground arith
parse_accuracy-evidence_accuracy_name Accuracy.exact h = refl
parse_accuracy-evidence_accuracy_name Accuracy.approximate h = refl

fits_u32 : (n : ℕ) → n ≤ uint32_max → n ≤ safe_integer
fits_u32 n h = omega arith

is_nil-append : (t u : Text) → is_nil t ≡ false → is_nil (t ++ u) ≡ false
is_nil-append [] u h = ground arith
is_nil-append (c ∷ cs) u h = refl

module _ (J : JsonLib) where
  open J use {
    Json, of_int, text, number, object, member, as_number-number, truncated-of_int,
    below_zero-of_int, member-object,
  }

  need_text-text :
      (o : Json) (key t : Text) (cap : ℕ)
      → member key o ≡ some (text t)
      → Held t cap
      → need_text J o key cap ≡ some t
  unfolding need_text copy_text
  need_text-text o key t cap h (full, fits) =
      rw (read_name-text J o key t h, full, take_short (cap - 1) t (omega arith))

  need_u64-number :
      (o : Json) (key : Text) (n : ℕ)
      → member key o ≡ some (json_nat J n)
      → n ≤ safe_integer
      → need_u64 J o key ≡ some n
  unfolding need_u64
  need_u64-number o key n h k = rw (
    h,
    as_number-number (of_int (pos n)),
    below_zero-of_int n,
    truncated-of_int (pos n) (omega arith),
  )

  need_i64-number :
      (o : Json) (key : Text) (z : ℤ)
      → member key o ≡ some (json_int J z)
      → magnitude z ≤ safe_integer
      → need_i64 J o key ≡ some z
  unfolding need_i64
  need_i64-number o key z h k = rw (h, as_number-number (of_int z), truncated-of_int z k)

  module _ (r : EvidenceRecord) (ok : IsRestorable r) where
    document : Json
    document = object (record_members J r)

    at : (key : Text) → member key document ≡ find_member key (record_members J r)
    unfolding document
    at key = member-object key (record_members J r)

    names : Names
    names = record {
      evidence_id = r.evidence_id;
      event_id = r.event_id;
      channel_id = r.channel_id;
      sha256 = r.sha256;
      storage_state = r.storage_state;
      delivery_state = r.delivery_state;
    }

    need_names-document : need_names J document ≡ some names
    unfolding need_names record_members find_member text_eq names
    need_names-document = rw (
      need_text-text document (codes "evidence_id") r.evidence_id evidence_id_max
          (at (codes "evidence_id")) ok.id_held,
      need_text-text document (codes "event_id") r.event_id event_id_max (at (codes "event_id"))
          ok.event_id_held,
      need_text-text document (codes "channel_id") r.channel_id channel_id_max
          (at (codes "channel_id")) ok.channel_id_held,
      need_text-text document (codes "sha256") r.sha256 sha256_max (at (codes "sha256"))
          ok.sha_held,
      need_text-text document (codes "storage_state") r.storage_state state_max
          (at (codes "storage_state")) ok.storage_held,
      need_text-text document (codes "delivery_state") r.delivery_state state_max
          (at (codes "delivery_state")) ok.delivery_held,
    )

    origin : Origin
    origin = record {
      stream_epoch = r.stream_epoch;
      frame_id = r.frame_id;
      source_pts_valid = r.source_pts_valid;
      source_pts = r.source_pts;
      source_timebase = r.source_timebase;
      capture_time_us = r.capture_time_us;
    }

    need_origin-document : need_origin J document ≡ some origin
    unfolding need_origin record_members find_member text_eq origin
    need_origin-document = rw (
      need_u64-number document (codes "stream_epoch") r.stream_epoch (at (codes "stream_epoch"))
          ok.epoch_fits,
      need_u64-number document (codes "frame_id") r.frame_id (at (codes "frame_id")) ok.frame_fits,
      read_bool-boolean J document (codes "source_pts_valid") r.source_pts_valid
          (at (codes "source_pts_valid")),
      need_i64-number document (codes "source_pts") r.source_pts (at (codes "source_pts"))
          ok.pts_fits,
      need_u64-number document (codes "source_timebase_num") r.source_timebase.num
          (at (codes "source_timebase_num")) (fits_u32 r.source_timebase.num ok.num_fits),
      need_u64-number document (codes "source_timebase_den") r.source_timebase.den
          (at (codes "source_timebase_den")) (fits_u32 r.source_timebase.den ok.den_fits),
      need_i64-number document (codes "capture_time_us") r.capture_time_us
          (at (codes "capture_time_us")) ok.time_fits,
    )

    picture : Picture
    picture = record {
      width = r.width;
      height = r.height;
      bytes = r.bytes;
      frame_delta = r.frame_delta;
      pts_delta = r.pts_delta;
      created_at_us = r.created_at_us;
      expires_at_us = r.expires_at_us;
    }

    need_picture-document : need_picture J document ≡ some picture
    unfolding need_picture record_members find_member text_eq picture
    need_picture-document = rw (
      need_u64-number document (codes "width") r.width (at (codes "width"))
          (fits_u32 r.width ok.width_fits),
      need_u64-number document (codes "height") r.height (at (codes "height"))
          (fits_u32 r.height ok.height_fits),
      need_u64-number document (codes "bytes") r.bytes (at (codes "bytes")) ok.bytes_fit,
      need_u64-number document (codes "frame_delta") r.frame_delta (at (codes "frame_delta"))
          ok.frame_delta_fits,
      need_i64-number document (codes "pts_delta") r.pts_delta (at (codes "pts_delta"))
          ok.pts_delta_fits,
      need_i64-number document (codes "created_at_us") r.created_at_us (at (codes "created_at_us"))
          ok.created_fits,
      need_i64-number document (codes "expires_at_us") r.expires_at_us (at (codes "expires_at_us"))
          ok.expires_fits,
    )

    object_key : Text
    object_key = r.evidence_id ++ codes ".jpg"

    need_text-object_key :
        need_text J document (codes "object_key") evidence_path_max ≡ some object_key
    unfolding record_members find_member text_eq object_key
    need_text-object_key =
        need_text-text document (codes "object_key") object_key evidence_path_max
          (at (codes "object_key"))
          (
            is_nil-append r.evidence_id (codes ".jpg") ok.id_held.0,
            (let short = ok.id_held.1 in omega (arith, length-append r.evidence_id (codes ".jpg"))),
          )

    consistent-document : consistent names object_key origin picture ≡ true
    unfolding consistent names object_key origin picture
    consistent-document = ground (
      arith,
      ok.id_valid,
      ok.sha_valid,
      text_eq_refl (r.evidence_id ++ codes ".jpg"),
      ok.width_fits,
      ok.height_fits,
      ok.num_fits,
      ok.den_fits,
      ok.timed,
    )

  -- The metadata of a restorable record is read back as the record, but for the path, which is not
  -- written. A record is restorable when its texts fit and are not empty, its name is safe, its digest
  -- has 64 digits, its numbers are within 2^53 - 1, its sizes and timebase within 32 bits, a timestamp
  -- comes with a timebase, and its accuracy is exact or approximate.
  pub record_of_json-metadata_json :
      (r : EvidenceRecord)
      → IsRestorable r
      → record_of_json J (metadata_json J r) ≡ some (record r { path = [] })
  unfolding record_of_json metadata_json document record_members find_member text_eq names origin
      picture
  record_of_json-metadata_json r ok = rw (
    need_i64-number (document r ok) (codes "v") (pos 2) (at r ok (codes "v")) (omega arith),
    need_names-document r ok,
    need_origin-document r ok,
    need_picture-document r ok,
    need_text-object_key r ok,
    read_name-text J (document r ok) (codes "accuracy") (evidence_accuracy_name r.accuracy)
        (at r ok (codes "accuracy")),
    parse_accuracy-evidence_accuracy_name r.accuracy ok.matched,
    consistent-document r ok,
  )
