-- ===== src/EvidenceCache/Window.antt =====
-- The recent notes and frames, media_engine/src/analytics/evidence_cache.c.
use rv1126_custom_part.Base.{
  ℕ, ◌+◌, ◌-◌, ◌%◌, ◌^◌, ℤ, Bool, false, not, ◌&&◌, ◌||◌, ltb, leb, ◌==◌, if◌then◌else◌, Option,
  none, some, List, [], ◌∷◌, ◌++◌, map, length, copy_text, Text,
}
use rv1126_custom_part.Observation.Types.{channel_id_max, Timebase}
use rv1126_custom_part.EvidenceCache.Types.{
  note_limit, FrameNote, zero_note, JpegFrame, EvidenceCache,
}
use rv1126_custom_part.EvidenceCache.Select.{is_nil, same_pts, latest_note_for_pts}

-- The loop that pops the oldest note while there are more than `note_limit`.
unfoldable pub limit_notes : List FrameNote → List FrameNote
limit_notes [] = []
limit_notes (note ∷ notes) =
    let rest = limit_notes notes in
    if ltb note_limit (length (note ∷ notes)) then rest else note ∷ notes

-- apply_note_to_frame, for a frame without a channel that has the note's timestamp.
unfoldable pub apply_note : FrameNote → JpegFrame → JpegFrame
unfolding same_pts
apply_note note frame =
    if is_nil frame.note.channel_id
      && same_pts note frame.note.source_pts_valid frame.note.source_pts
    then record frame { note = note }
    else frame

-- What note_frame does under the lock.
unfoldable pub take_note : EvidenceCache → FrameNote → EvidenceCache
unfolding limit_notes apply_note
take_note cache note = record cache {
  notes = limit_notes (cache.notes ++ note ∷ []);
  frames = map (apply_note note) cache.frames;
}

-- me_evidence_cache_note_frame; none for -1
unfoldable pub note_frame :
    EvidenceCache → Text → ℕ → ℕ → Bool → ℤ → Timebase → ℕ → ℕ → Option EvidenceCache
unfolding take_note copy_text
note_frame cache channel_id stream_epoch frame_id source_pts_valid source_pts source_timebase width
      height =
    if is_nil channel_id || stream_epoch == 0 || frame_id == 0
    then none
    else some (
        take_note cache (record {
          channel_id = copy_text channel_id_max channel_id;
          stream_epoch = stream_epoch;
          frame_id = frame_id;
          source_pts_valid = source_pts_valid;
          source_pts = source_pts;
          source_timebase = source_timebase;
          width = width;
          height = height;
        }))

abbrev last_two : List ℕ → Bool
last_two [] = false
last_two (a ∷ []) = false
last_two (a ∷ b ∷ []) = a == 255 && b == 217
last_two (a ∷ b ∷ c ∷ cs) = last_two (b ∷ c ∷ cs)

-- At least four bytes, with the markers that begin and end a JPEG.
unfoldable pub is_jpeg : List ℕ → Bool
is_jpeg (a ∷ b ∷ c ∷ d ∷ rest) = a == 255 && b == 216 && last_two (c ∷ d ∷ rest)
is_jpeg _ = false

-- A uint64_t that stops at zero.
abbrev pub less : ℕ → ℕ → ℕ
less total size = if leb size total then total - size else 0

pub record Window : Type 0 where
  pub kept : List JpegFrame
  pub total : ℕ

-- The loop that pops the oldest frame while the bytes are more than the limit.
unfoldable pub trim_frames : ℕ → List JpegFrame → ℕ → Window
trim_frames limit [] total = record { kept = []; total = total }
trim_frames limit (old ∷ frames) total =
    let rest = trim_frames limit frames (less total (length old.jpeg)) in
    if ltb limit total then rest else record { kept = old ∷ frames; total = total }

abbrev pub note_or : Option FrameNote → FrameNote → FrameNote
note_or none note = note
note_or (some found) note = found

abbrev pub add_size : ℕ → ℕ → ℕ
add_size total size = (total + size) % 2 ^ 64

-- The new frame, with the newest note of its timestamp if there is one.
unfoldable pub jpeg_frame : List FrameNote → List ℕ → Bool → ℤ → JpegFrame
unfolding latest_note_for_pts
jpeg_frame notes jpeg source_pts_valid source_pts = record {
  jpeg = jpeg;
  note =
      note_or (latest_note_for_pts notes source_pts_valid source_pts)
        (record zero_note { source_pts_valid = source_pts_valid; source_pts = source_pts });
}

abbrev set_window : EvidenceCache → Window → EvidenceCache
set_window cache window = record cache { frames = window.kept; frame_cache_bytes = window.total }

unfoldable pub take_frame : EvidenceCache → JpegFrame → EvidenceCache
unfolding trim_frames
take_frame cache frame = set_window cache (
    trim_frames cache.frame_cache_max_bytes (cache.frames ++ frame ∷ [])
      (add_size cache.frame_cache_bytes (length frame.jpeg)))

-- me_evidence_cache_push_jpeg; none for -1
unfoldable pub push_jpeg : EvidenceCache → List ℕ → Bool → ℤ → Option EvidenceCache
unfolding is_jpeg jpeg_frame take_frame
push_jpeg cache jpeg source_pts_valid source_pts =
    if not (is_jpeg jpeg)
    then none
    else some (take_frame cache (jpeg_frame cache.notes jpeg source_pts_valid source_pts))
