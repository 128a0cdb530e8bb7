-- ===== src/Observation/Examples.antt =====
-- Tests of the observation contract, and the theorems at concrete inputs.
use rv1126_custom_part.Base.{
  ℕ, pos, true, none, some, List, [], ◌∷◌, codes, ◌≡◌, ◌↔◌, refl, bounded_string, Apart,
}
use rv1126_custom_part.Observation.Types.{
  TrackClass, TrackState, TrackObservation, Observation, zero_observation,
}
use rv1126_custom_part.Observation.Validate.{validate, duplicate_track}
use rv1126_custom_part.Observation.Valid.{IsValid, validate_iff}
use rv1126_custom_part.Observation.Order.{OrderResult, order_init, classify}
use rv1126_custom_part.Observation.Progress.{
  Verdict, Keys, classify-Verdict_iff, admitted, Before, admitted-Apart,
}

abbrev walker : ℕ → TrackObservation
walker id = record {
  track_id = id;
  class_id = TrackClass.person;
  state = TrackState.new;
  bbox = record { left = 0; top = 0; right = 500; bottom = 900 };
  score_q = 8000;
}

abbrev picture : ℕ → List TrackObservation → Observation
picture n tracks = record zero_observation {
  contract_version = 2;
  channel_id = codes "gate";
  stream_epoch = 1;
  frame_id = n;
  source_pts = pos n;
  source_pts_valid = true;
  source_timebase = record { num = 1; den = 1000 };
  frame_width = 640;
  frame_height = 480;
  backend_name = codes "rockiva";
  backend_version = codes "1";
  model_version = codes "1";
  tracks = tracks;
}

picture_passes : validate (picture 1 (walker 4 ∷ walker 5 ∷ [])) ≡ none
unfolding validate bounded_string
picture_passes = refl

repeated_track : validate (picture 1 (walker 4 ∷ walker 4 ∷ [])) ≡ some duplicate_track
unfolding validate bounded_string
repeated_track = refl

validate_iff_example :
    (validate (picture 1 (walker 4 ∷ walker 5 ∷ [])) ≡ none)
    ↔ IsValid (picture 1 (walker 4 ∷ walker 5 ∷ []))
validate_iff_example = validate_iff (picture 1 (walker 4 ∷ walker 5 ∷ []))

classify-Verdict_iff_example :
    (((classify order_init (picture 3 [])).1 ≡ OrderResult.first)
      ↔ Verdict OrderResult.first order_init (picture 3 []))
    × ((classify order_init (picture 3 [])).0
        ≡ Keys (classify order_init (picture 3 [])).1 order_init (picture 3 []))
classify-Verdict_iff_example = classify-Verdict_iff OrderResult.first order_init (picture 3 [])

-- Two frames of four come late or twice.
abbrev jumbled : List Observation
jumbled = picture 2 [] ∷ picture 2 [] ∷ picture 1 [] ∷ picture 3 [] ∷ []

jumbled-admitted : admitted order_init jumbled ≡ picture 2 [] ∷ picture 3 [] ∷ []
unfolding admitted classify validate bounded_string
jumbled-admitted = refl

admitted-Apart_example : Apart Before (admitted order_init jumbled)
admitted-Apart_example = admitted-Apart order_init jumbled
