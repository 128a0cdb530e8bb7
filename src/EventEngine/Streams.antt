-- ===== src/EventEngine/Streams.antt =====
-- Streams and their clocks in media_engine/src/analytics/event_engine.c: which frames are passed
-- over, and the range of the timeline.
use rv1126_custom_part.Base.{
  ℕ, ◌-◌, ◌*◌, ◌/◌, ◌^◌, ◌≤◌, ◌<◌, ℤ, pos, pos_part, ◌≤ℤ◌, true, none, some, text_eq-true_iff, ltb,
  if◌then◌else◌, ◌≡◌, ◌⊎◌, arith, Option-cases, inl, inr,
}
use native.Mathlib.Nat.{mod-eq_of_lt}
use rv1126_custom_part.Observation.Types.{Observation}
use rv1126_custom_part.Observation.Validate.{validate}
use rv1126_custom_part.Observation.Valid.{IsValid, validate_iff}
use rv1126_custom_part.Observation.Order.{OrderResult, classify}
use rv1126_custom_part.EventEngine.Types.{Engine}
use rv1126_custom_part.EventEngine.Timeline.{
  int64_max, scale_to_us, pts_to_us, frame_timeline, observation_timeline,
}
use rv1126_custom_part.EventEngine.Outcomes.{quiet}
use rv1126_custom_part.EventEngine.Process.{
  process_classified, process_ordered, process_channel, process,
}

product_fits : (v n : ℕ) → v ≤ 2 ^ 64 → n ≤ 2 ^ 32 → v * n * 1000000 < 2 ^ 128
product_fits v n h k = grind arith

-- With a 64-bit value, a 32-bit numerator and a denominator that is not zero, the 128-bit product
-- does not wrap: the result is the exact quotient in microseconds, or nothing where that passes the
-- largest int64_t.
pub scale_to_us_lem :
    (value numerator denominator : ℕ)
    → value ≤ 2 ^ 64
    → numerator ≤ 2 ^ 32
    → 0 < denominator
    → scale_to_us value numerator denominator ≡ (
        if ltb int64_max (value * numerator * 1000000 / denominator)
        then none
        else some (pos (value * numerator * 1000000 / denominator)))
unfolding scale_to_us
scale_to_us_lem value numerator denominator h k d =
    let fits = product_fits value numerator h k in ground (arith, mod-eq_of_lt fits)

scale_to_us-range :
    (v n d : ℕ) (t : ℤ) → scale_to_us v n d ≡ some t → (pos 0 ≤ℤ t) × (t ≤ℤ pos int64_max)
unfolding scale_to_us
scale_to_us-range v n d t h = ground arith

abbrev InRange : ℤ → Type 0
InRange t = (pos 0 ≤ℤ t) × (t ≤ℤ pos int64_max)

pts_to_us-range : (o : Observation) (t : ℤ) → pts_to_us o ≡ some t → InRange t
unfolding pts_to_us
pts_to_us-range o t h =
    let scaled =
      scale_to_us-range (pos_part o.source_pts) o.source_timebase.num o.source_timebase.den t in
    ground (arith, scaled)

frame_timeline-range : (fps : ℤ) (o : Observation) → InRange (frame_timeline fps o).us
unfolding frame_timeline
frame_timeline-range fps o = elim (Option-cases (scale_to_us (o.frame_id - 1) 1 (pos_part fps))) [
  | inl e ↦ ground arith
  | inr (t, e) ↦ ground (arith, scale_to_us-range (o.frame_id - 1) 1 (pos_part fps) t e)
]

-- Every timeline lies between zero and the largest int64_t, as long as the capture time does not
-- pass that.
pub observation_timeline-range :
    (fps : ℤ) (o : Observation)
    → o.capture_time_us ≤ℤ pos int64_max
    → (pos 0 ≤ℤ (observation_timeline fps o).us)
      × ((observation_timeline fps o).us ≤ℤ pos int64_max)
unfolding observation_timeline
observation_timeline-range fps o h = elim (Option-cases (pts_to_us o)) [
  | inl e ↦ ground (arith, frame_timeline-range fps o)
  | inr (t, e) ↦ ground (arith, pts_to_us-range o t e)
]

classify-stale :
    (e : Engine) (o : Observation)
    → validate o ≡ none
    → e.order.initialized ≡ true
    → (o.stream_epoch < e.order.stream_epoch)
      ⊎ (o.stream_epoch ≡ e.order.stream_epoch) × (o.frame_id ≤ e.order.frame_id)
    → ((classify e.order o).1 ≡ OrderResult.duplicate)
      ⊎ ((classify e.order o).1 ≡ OrderResult.out_of_order)
unfolding classify
classify-stale e o v i s = ground arith

process_ordered-stale :
    (e : Engine) (o : Observation)
    → ((classify e.order o).1 ≡ OrderResult.duplicate)
      ⊎ ((classify e.order o).1 ≡ OrderResult.out_of_order)
    → process_ordered e o ≡ quiet 0 e
unfolding process_ordered
process_ordered-stale e o (inl d) = rw (d, process_ordered, process_classified)
process_ordered-stale e o (inr d) = rw (d, process_ordered, process_classified)

-- Once the order is initialized, a valid observation that is not of another channel than the
-- stream, if there is one, and does not come after the last accepted one, in epoch and frame,
-- changes nothing, emits nothing and returns 0.
pub process-stale :
    (e : Engine) (o : Observation)
    → IsValid o
    → e.order.initialized ≡ true
    → (e.have_stream ≡ true → e.channel_id ≡ o.channel_id)
    → (o.stream_epoch < e.order.stream_epoch)
      ⊎ (o.stream_epoch ≡ e.order.stream_epoch) × (o.frame_id ≤ e.order.frame_id)
    → process e o ≡ quiet 0 e
unfolding process process_channel
process-stale e o v i c s =
    let good = (validate_iff o).1 v in
    let still = process_ordered-stale e o (classify-stale e o good i s) in
    ground (arith, good, still, text_eq-true_iff e.channel_id o.channel_id)
