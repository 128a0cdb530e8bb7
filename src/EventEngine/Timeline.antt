-- ===== src/EventEngine/Timeline.antt =====
-- Local durations, media_engine/src/analytics/event_engine.c.
use rv1126_custom_part.Base.{
  ℕ, ◌+◌, ◌-◌, ◌*◌, ◌/◌, ◌%◌, ◌^◌, ℤ, pos, pos_part, ltb_ℤ, gap, Bool, true, false, not, ◌&&◌, ◌||◌,
  ltb, leb, ◌==◌, if◌then◌else◌, Option, none, some,
}
use rv1126_custom_part.Observation.Types.{ClockState, Observation}
use rv1126_custom_part.EventEngine.Types.{Timeline}

abbrev pub int64_max : ℕ
int64_max = 0x7fff_ffff_ffff_ffff

abbrev pub uint64_max : ℕ
uint64_max = 0xffff_ffff_ffff_ffff

abbrev pub uint32_max : ℕ
uint32_max = 0xffff_ffff

-- The product is a 128-bit word.
unfoldable pub scale_to_us : ℕ → ℕ → ℕ → Option ℤ
scale_to_us value numerator denominator =
    let result = value * numerator * 1000000 % 2 ^ 128 / denominator in
    if denominator == 0 then none else if ltb int64_max result then none else some (pos result)

unfoldable pub pts_to_us : Observation → Option ℤ
unfolding scale_to_us
pts_to_us o =
    if not o.source_pts_valid
      || ltb_ℤ o.source_pts (pos 0)
      || o.source_timebase.num == 0
      || o.source_timebase.den == 0
    then none
    else scale_to_us (pos_part o.source_pts) o.source_timebase.num o.source_timebase.den

-- The clock is synchronised or estimated, so the capture time means something.
abbrev pub has_wall_clock : ClockState → Bool
has_wall_clock ClockState.synced = true
has_wall_clock ClockState.estimated = true
has_wall_clock _ = false

abbrev pub no_timeline : Timeline
no_timeline = record { us = pos 0; valid = false }

abbrev pub timeline_at : ℤ → Timeline
timeline_at t = record { us = t; valid = true }

abbrev timeline_or : Option ℤ → Timeline → Timeline
timeline_or none other = other
timeline_or (some t) other = timeline_at t

-- The frame count over the configured rate.
unfoldable pub frame_timeline : ℤ → Observation → Timeline
unfolding scale_to_us
frame_timeline fps o =
    if ltb_ℤ (pos 0) fps && ltb 0 o.frame_id
    then timeline_or (scale_to_us (o.frame_id - 1) 1 (pos_part fps)) no_timeline
    else no_timeline

-- The engine is read for its configured rate only.
unfoldable pub observation_timeline : ℤ → Observation → Timeline
unfolding pts_to_us frame_timeline
observation_timeline fps o = timeline_or (pts_to_us o) (
    if has_wall_clock o.clock_state && ltb_ℤ (pos 0) o.capture_time_us
    then timeline_at o.capture_time_us
    else frame_timeline fps o)

unfoldable pub elapsed_at_least : Timeline → ℤ → Bool → ℕ → Bool
elapsed_at_least now since since_valid duration =
    if not now.valid || not since_valid || ltb_ℤ now.us since
    then false
    else leb duration (gap now.us since)

-- The int64_t sum, held at its largest value.
unfoldable pub time_add_ms : ℤ → ℕ → Option ℤ
time_add_ms start duration_ms =
    let duration_us = duration_ms * 1000 in
    if ltb_ℤ start (pos 0)
    then none
    else if ltb_ℤ (pos (int64_max - duration_us)) start
    then some (pos int64_max)
    else some (pos (pos_part start + duration_us))

unfoldable pub saturating_add_u32 : ℕ → ℕ → ℕ
saturating_add_u32 value addend =
    if ltb (uint32_max - value) addend then uint32_max else value + addend
