-- ===== src/EvidenceCache/Select.antt =====
-- The choice of a frame for an event, media_engine/src/analytics/evidence_cache.c. A difference of two
-- timestamps is taken as it is; past int64_t the subtraction of the code is undefined.
use rv1126_custom_part.Base.{
  ℕ, zero, suc, ◌-◌, ℤ, pos, negsuc, leb_ℤ, gap, Bool, true, false, not, ◌&&◌, ◌||◌, ltb, ◌==◌,
  if◌then◌else◌, Option, none, some, List, [], ◌∷◌, Text, text_eq,
}
use rv1126_custom_part.Observation.Types.{Timebase}
use rv1126_custom_part.EventEngine.Types.{Event}
use rv1126_custom_part.EventEngine.Timeline.{int64_max}
use rv1126_custom_part.EvidenceCache.Types.{FrameNote, JpegFrame, Accuracy}

abbrev eq_ℤ : ℤ → ℤ → Bool
eq_ℤ a b = leb_ℤ a b && leb_ℤ b a

unfoldable pub same_pts : FrameNote → Bool → ℤ → Bool
same_pts left valid pts = valid && left.source_pts_valid && eq_ℤ left.source_pts pts

unfoldable pub same_timebase : Timebase → Timebase → Bool
same_timebase left right =
    not (left.num == 0) && not (left.den == 0) && left.num == right.num && left.den == right.den

-- The newest note of that timestamp.
unfoldable pub latest_note_for_pts : List FrameNote → Bool → ℤ → Option FrameNote
unfolding same_pts
latest_note_for_pts [] valid pts = none
latest_note_for_pts (note ∷ notes) valid pts = elim (latest_note_for_pts notes valid pts) [
  | some newer ↦ some newer
  | none ↦ if same_pts note valid pts then some note else none
]

abbrev pub is_nil : Text → Bool
is_nil [] = true
is_nil _ = false

unfoldable pub frame_matches_event : JpegFrame → Event → Bool
unfolding text_eq
frame_matches_event frame event =
    not (is_nil frame.note.channel_id)
    && not (frame.note.stream_epoch == 0)
    && text_eq frame.note.channel_id event.channel_id
    && frame.note.stream_epoch == event.stream_epoch

-- Both have a timestamp, in the same timebase.
unfoldable pub comparable : JpegFrame → Event → Bool
unfolding same_timebase
comparable frame event =
    event.source_pts_valid
    && frame.note.source_pts_valid
    && same_timebase frame.note.source_timebase event.source_timebase

unfoldable pub frame_is_exact : JpegFrame → Event → Bool
unfolding frame_matches_event comparable
frame_is_exact frame event =
    if not (frame_matches_event frame event)
    then false
    else if comparable frame event
    then eq_ℤ frame.note.source_pts event.source_pts
    else ltb 0 event.frame_id && frame.note.frame_id == event.frame_id

unfoldable pub abs_i64_delta : ℤ → ℤ → ℕ
abs_i64_delta left right = if leb_ℤ right left then gap left right else gap right left

unfoldable pub pts_distance : JpegFrame → Event → ℕ
unfolding abs_i64_delta
pts_distance frame event = abs_i64_delta frame.note.source_pts event.source_pts

-- What the loop holds: the frame that it returned with, or `nearest` and `nearest_delta`.
pub data Search : Type 0 where
  found : JpegFrame → Search
  searching : Option JpegFrame → ℕ → Search

abbrev is_none : Option JpegFrame → Bool
is_none none = true
is_none (some f) = false

-- A matching frame that is not exact.
unfoldable pub consider : Event → JpegFrame → Option JpegFrame → ℕ → Search
consider event frame nearest nearest_delta =
    if comparable frame event
    then if ltb (pts_distance frame event) nearest_delta
      then searching (some frame) (pts_distance frame event)
      else searching nearest nearest_delta
    else if (not event.source_pts_valid || not frame.note.source_pts_valid) && is_none nearest
    then searching (some frame) nearest_delta
    else searching nearest nearest_delta

-- One pass of the loop.
unfoldable pub look : Event → JpegFrame → Search → Search
unfolding frame_is_exact consider
look event frame (found newer) = found newer
look event frame (searching nearest nearest_delta) =
    if frame_is_exact frame event
    then found frame
    else if not (frame_matches_event frame event)
    then searching nearest nearest_delta
    else consider event frame nearest nearest_delta

-- The loop, which runs from the newest frame to the oldest.
unfoldable pub scan_frames : Event → List JpegFrame → Search
unfolding look
scan_frames event [] = searching none int64_max
scan_frames event (frame ∷ newer) = look event frame (scan_frames event newer)

-- The frame with what select_frame_locked stores through its pointers.
pub record Selected : Type 0 where
  pub frame : JpegFrame
  pub accuracy : Accuracy
  pub frame_delta : ℕ
  pub pts_delta : ℤ

abbrev negated : ℕ → ℤ
negated zero = pos 0
negated (suc n) = negsuc n

abbrev sub_ℤ : ℤ → ℤ → ℤ
sub_ℤ a b = if leb_ℤ b a then pos (gap a b) else negated (gap b a)

unfoldable pub frame_distance : ℕ → ℕ → ℕ
frame_distance theirs ours =
    if ltb 0 ours && ltb 0 theirs
    then if ltb ours theirs then theirs - ours else ours - theirs
    else 0

-- What is stored for the frame that the loop ends with.
unfoldable pub selected : Event → Search → Option Selected
unfolding comparable frame_distance
selected event (found frame) =
    some (record { frame = frame; accuracy = Accuracy.exact; frame_delta = 0; pts_delta = pos 0 })
selected event (searching none nearest_delta) = none
selected event (searching (some nearest) nearest_delta) = some (record {
  frame = nearest;
  accuracy = Accuracy.approximate;
  frame_delta = frame_distance nearest.note.frame_id event.frame_id;
  pts_delta =
      if comparable nearest event then sub_ℤ nearest.note.source_pts event.source_pts else pos 0;
})

-- select_frame_locked; none for NULL
unfoldable pub select_frame : List JpegFrame → Event → Option Selected
unfolding scan_frames selected
select_frame frames event = selected event (scan_frames event frames)
