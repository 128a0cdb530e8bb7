-- ===== src/EventEngine/Tracks.antt =====
-- The table of tracks, media_engine/src/analytics/event_engine.c.
pub mod Identity
use rv1126_custom_part.Base.{
  ℕ, suc, ◌+◌, ◌*◌, ◌/◌, pos, Bool, true, false, not, ◌&&◌, ◌||◌, ltb, leb, ◌==◌, if◌then◌else◌,
  Option, none, some, List, [], ◌∷◌, map, get_or, set,
}
use rv1126_custom_part.Observation.Types.{
  TrackClass, TrackState, BBox, TrackObservation, Observation,
}
use rv1126_custom_part.AnalyticsConfig.Settings.{AnalyticsConfig}
use rv1126_custom_part.EventEngine.Types.{TrackSlot, zero_track, Timeline}
use rv1126_custom_part.EventEngine.Timeline.{uint32_max, elapsed_at_least}

-- The index of the first slot that passes the test.
unfoldable pub find_slot {ℓ} : {A : Type ℓ} → (A → Bool) → List A → Option ℕ
find_slot test [] = none
find_slot test (x ∷ xs) =
    let rest = find_slot test xs in
    if test x then some 0 else elim rest [ none ↦ none | some i ↦ some (suc i) ]

abbrev pub holds_track : ℕ → TrackSlot → Bool
holds_track id slot = slot.in_use && slot.track_id == id

unfoldable pub find_track : List TrackSlot → ℕ → Option ℕ
find_track tracks id = find_slot (holds_track id) tracks

abbrev pub fresh_track : ℕ → TrackSlot
fresh_track id = record zero_track { in_use = true; track_id = id }

-- The slot, and the table in which it is taken.
unfoldable pub allocate_track : List TrackSlot → ℕ → Option (ℕ × List TrackSlot)
allocate_track tracks id = elim (find_slot (λ (slot : TrackSlot). not slot.in_use) tracks) [
  | none ↦ none
  | some i ↦ some (i, set tracks i (fresh_track id))
]

unfoldable pub track_inside : AnalyticsConfig → BBox → Bool
track_inside c box =
    let center_x = (box.left + box.right) / 2 in
    let center_y = (box.top + box.bottom) / 2 in
    if not c.roi_enabled
    then true
    else leb c.roi.left center_x
      && leb center_x c.roi.right
      && leb c.roi.top center_y
      && leb center_y c.roi.bottom

abbrev pub clear_inside_candidate : TrackSlot → TrackSlot
clear_inside_candidate track = record track {
  inside_candidate = false;
  inside_candidate_valid = false;
  inside_candidate_since_us = pos 0;
}

abbrev pub same_bool : Bool → Bool → Bool
same_bool true b = b
same_bool false b = not b

unfoldable pub update_track_inside : AnalyticsConfig → TrackSlot → Bool → Timeline → TrackSlot
update_track_inside c track raw_inside now =
    let debounce_us = c.debounce_ms * 1000 in
    if not track.inside_initialized
    then clear_inside_candidate (record track { inside = raw_inside; inside_initialized = true })
    else if same_bool raw_inside track.inside
    then clear_inside_candidate track
    else if debounce_us == 0 || not now.valid
    then clear_inside_candidate (record track { inside = raw_inside })
    else if not track.inside_candidate_valid || not (same_bool track.inside_candidate raw_inside)
    then record track {
      inside_candidate = raw_inside;
      inside_candidate_valid = true;
      inside_candidate_since_us = now.us;
    }
    else if elapsed_at_least now track.inside_candidate_since_us true debounce_us
    then clear_inside_candidate (record track { inside = raw_inside })
    else track

unfoldable pub track_confirmed : AnalyticsConfig → TrackSlot → Timeline → Bool
track_confirmed c track now =
    ltb 0 c.confirm_frames && leb c.confirm_frames track.seen_frames
    || elapsed_at_least now track.first_timeline_us track.first_timeline_valid (c.confirm_ms * 1000)

-- What a track that is not yet confirmed gains from one more frame.
unfoldable pub count_frame : AnalyticsConfig → ℕ → Timeline → TrackSlot → TrackSlot
count_frame c frame_id now track =
    let seen =
      if ltb track.seen_frames uint32_max then track.seen_frames + 1 else track.seen_frames in
    let counted = record track { seen_frames = seen } in
    let dated =
      if seen == 1
      then record counted {
        first_frame_id = frame_id;
        first_timeline_us = now.us;
        first_timeline_valid = now.valid;
      }
      else counted in
    if track_confirmed c dated now then record dated { confirmed = true } else dated

-- The body of the loop for a track that has its slot.
unfoldable pub see_track : AnalyticsConfig → ℕ → Timeline → BBox → TrackSlot → TrackSlot
unfolding count_frame
see_track c frame_id now box slot =
    let placed = update_track_inside c (record slot { present = true }) (track_inside c box) now in
    let counted = if placed.confirmed then placed else count_frame c frame_id now placed in
    record counted {
      last_seen_frame_id = frame_id;
      last_timeline_us = now.us;
      last_timeline_valid = now.valid;
    }

-- memset of the slot that holds the track, if there is one.
unfoldable pub forget_track : List TrackSlot → ℕ → List TrackSlot
unfolding find_track
forget_track tracks id = elim (find_track tracks id) [
  | none ↦ tracks
  | some i ↦ set tracks i zero_track
]

-- The slot of the track, allocated if it has none, with the table that holds it.
unfoldable pub track_slot : List TrackSlot → ℕ → Option (ℕ × List TrackSlot)
unfolding find_track allocate_track
track_slot tracks id = elim (find_track tracks id) [
  | none ↦ allocate_track tracks id
  | some i ↦ some (i, tracks)
]

-- A full table leaves the track out.
unfoldable pub place_track :
    AnalyticsConfig → ℕ → Timeline → BBox → List TrackSlot → ℕ → List TrackSlot
unfolding track_slot
place_track c frame_id now box tracks id = elim (track_slot tracks id) [
  | none ↦ tracks
  | some (i, held) ↦ set held i (see_track c frame_id now box (get_or held i zero_track))
]

abbrev pub is_person : TrackClass → Bool
is_person TrackClass.person = true
is_person _ = false

-- NEW or ACTIVE: a detection of this frame.
abbrev pub is_detected : TrackState → Bool
is_detected TrackState.new = true
is_detected TrackState.active = true
is_detected _ = false

abbrev pub is_removed : TrackState → Bool
is_removed TrackState.removed = true
is_removed _ = false

-- The body of the loop over the tracks of the observation.
unfoldable pub observe_track :
    AnalyticsConfig → ℕ → Timeline → List TrackSlot → TrackObservation → List TrackSlot
unfolding forget_track place_track
observe_track c frame_id now tracks input =
    if not (is_person input.class_id)
    then tracks
    else if is_removed input.state
    then forget_track tracks input.track_id
    else if not (is_detected input.state) || ltb input.score_q c.score_threshold_q
    then tracks
    else place_track c frame_id now input.bbox tracks input.track_id

unfoldable pub observe_tracks :
    AnalyticsConfig → ℕ → Timeline → List TrackSlot → List TrackObservation → List TrackSlot
unfolding observe_track
observe_tracks c frame_id now tracks [] = tracks
observe_tracks c frame_id now tracks (input ∷ inputs) =
    observe_tracks c frame_id now (observe_track c frame_id now tracks input) inputs

-- The body of the loop that gives slots up.
unfoldable pub age_track : AnalyticsConfig → Timeline → TrackSlot → TrackSlot
age_track c now track =
    let grace_us = c.disappear_grace_ms * 1000 in
    if not track.in_use
    then track
    else if not track.confirmed && not track.present
    then zero_track
    else if not track.present
        && (grace_us == 0
            || elapsed_at_least now track.last_timeline_us track.last_timeline_valid grace_us)
    then zero_track
    else track

abbrev pub clear_present : TrackSlot → TrackSlot
clear_present track = record track { present = false }

abbrev pub is_counted : TrackSlot → Bool
is_counted track = track.in_use && track.present && track.confirmed && track.inside

unfoldable pub count_tracks : List TrackSlot → ℕ
count_tracks [] = 0
count_tracks (track ∷ tracks) =
    let rest = count_tracks tracks in if is_counted track then rest + 1 else rest

-- The table after the three passes of update_tracks; the person count is `count_tracks` of it.
unfoldable pub update_tracks :
    AnalyticsConfig → Observation → Timeline → List TrackSlot → List TrackSlot
unfolding observe_tracks age_track
update_tracks c o now tracks =
    map (age_track c now) (observe_tracks c o.frame_id now (map clear_present tracks) o.tracks)
