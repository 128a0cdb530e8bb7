-- ===== src/Observation/Order.antt =====
-- The ordering of a stream of observations, media_engine/src/analytics/observation.c.
use rv1126_custom_part.Base.{
  ℕ, ℤ, pos, ltb_ℤ, Bool, true, false, ◌&&◌, ltb, ◌==◌, if◌then◌else◌, not, Option, none, some,
}
use rv1126_custom_part.Observation.Types.{Observation}
use rv1126_custom_part.Observation.Validate.{ObservationError, validate}

pub data OrderResult : Type 0 where
  invalid first accepted duplicate out_of_order epoch_advance : OrderResult

-- The keys of the latest accepted observation.
pub record ObservationOrder : Type 0 where
  pub initialized : Bool
  pub stream_epoch : ℕ
  pub frame_id : ℕ
  pub source_pts : ℤ
  pub source_pts_valid : Bool

-- me_observation_order_init
abbrev pub order_init : ObservationOrder
order_init = record {
  initialized = false;
  stream_epoch = 0;
  frame_id = 0;
  source_pts = pos 0;
  source_pts_valid = false;
}

abbrev pub order_commit : Observation → ObservationOrder
order_commit o = record {
  initialized = true;
  stream_epoch = o.stream_epoch;
  frame_id = o.frame_id;
  source_pts = o.source_pts;
  source_pts_valid = o.source_pts_valid;
}

-- The comparison of the keys, once the observation is known to be valid.
unfoldable pub classify_valid : ObservationOrder → Observation → ObservationOrder × OrderResult
classify_valid order o =
    if not order.initialized
    then (order_commit o, first)
    else if ltb o.stream_epoch order.stream_epoch
    then (order, out_of_order)
    else if ltb order.stream_epoch o.stream_epoch
    then (order_commit o, epoch_advance)
    else if o.frame_id == order.frame_id
    then (order, duplicate)
    else if ltb o.frame_id order.frame_id
    then (order, out_of_order)
    else if o.source_pts_valid && order.source_pts_valid && ltb_ℤ o.source_pts order.source_pts
    then (order, out_of_order)
    else (order_commit o, accepted)

abbrev classify_checked :
    Option ObservationError → ObservationOrder → Observation → ObservationOrder × OrderResult
classify_checked (some err) order o = (order, invalid)
classify_checked none order o = classify_valid order o

-- me_observation_order_classify
unfoldable pub classify : ObservationOrder → Observation → ObservationOrder × OrderResult
unfolding classify_valid
classify order o = classify_checked (validate o) order o
