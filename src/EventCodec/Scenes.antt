-- ===== src/EventCodec/Scenes.antt =====
-- Documents for concrete runs: a document is a text that begins with its kind, and a list of texts is
-- packed into one by a shift of its bytes, with a stop behind each. Also an event that fits.
use rv1126_custom_part.Base.{
  ℕ, zero, suc, ◌+◌, ◌-◌, ℤ, pos, ltb_ℤ, negsuc, Bool, true, false, ◌==◌, if◌then◌else◌, Option,
  none, some, List, [], ◌∷◌, ◌++◌, map, All, Text, codes, ◌>>=◌, ◌≡◌, ◌≢◌, refl, ap, ◌∙◌, arith,
}
use rv1126_custom_part.Observation.Types.{ClockState, RuleType}
use rv1126_custom_part.EventEngine.Types.{Phase, Reason, Event, zero_event}
use rv1126_custom_part.EventCodec.Json.{JsonLib, JsonText, find_member}
use rv1126_custom_part.EventCodec.RoundTrip.{IsEncodable}

abbrev pub pack : List Text → Text
pack [] = []
pack ([] ∷ ts) = 1 ∷ pack ts
pack ((c ∷ cs) ∷ ts) = suc (suc c) ∷ pack (cs ∷ ts)

abbrev push : ℕ → List Text → List Text
push c [] = (c ∷ []) ∷ []
push c (t ∷ ts) = (c ∷ t) ∷ ts

abbrev unpack : Text → List Text
unpack [] = []
unpack (zero ∷ cs) = unpack cs
unpack (suc zero ∷ cs) = [] ∷ unpack cs
unpack (suc (suc c) ∷ cs) = push c (unpack cs)

pub unpack-pack : (ts : List Text) → unpack (pack ts) ≡ ts
unpack-pack [] = refl
unpack-pack ([] ∷ ts) = ap (λ us. [] ∷ us) (unpack-pack ts)
unpack-pack ((c ∷ cs) ∷ ts) = ap (push c) (unpack-pack (cs ∷ ts))

abbrev flatten : List (Text × Text) → List Text
flatten [] = []
flatten ((k, v) ∷ ms) = k ∷ v ∷ flatten ms

abbrev in_pairs : List Text → List (Text × Text)
in_pairs [] = []
in_pairs (k ∷ []) = []
in_pairs (k ∷ v ∷ ts) = (k, v) ∷ in_pairs ts

in_pairs-flatten : (ms : List (Text × Text)) → in_pairs (flatten ms) ≡ ms
in_pairs-flatten [] = refl
in_pairs-flatten ((k, v) ∷ ms) = ap (λ ns. (k, v) ∷ ns) (in_pairs-flatten ms)

-- The kinds: 0 a text, 1 a number from zero on, 2 one below, 3 false, 4 true, 5 an array, 6 an object.
abbrev number_text : ℤ → Text
number_text (pos n) = 1 ∷ n ∷ []
number_text (negsuc n) = 2 ∷ n ∷ []

abbrev boolean_text : Bool → Text
boolean_text false = 3 ∷ []
boolean_text true = 4 ∷ []

abbrev text_of : Text → Option Text
text_of (zero ∷ t) = some t
text_of _ = none

abbrev number_of : Text → Option ℤ
number_of (suc zero ∷ n ∷ []) = some (pos n)
number_of (suc (suc zero) ∷ n ∷ []) = some (negsuc n)
number_of _ = none

abbrev boolean_of : Text → Option Bool
boolean_of (suc (suc (suc zero)) ∷ []) = some false
boolean_of (suc (suc (suc (suc zero))) ∷ []) = some true
boolean_of _ = none

abbrev items_of : Text → Option (List Text)
items_of (suc (suc (suc (suc (suc zero)))) ∷ t) = some (unpack t)
items_of _ = none

abbrev members_of : Text → Option (List Text)
members_of (suc (suc (suc (suc (suc (suc zero))))) ∷ t) = some (unpack t)
members_of _ = none

abbrev is_some : Option (List Text) → Bool
is_some none = false
is_some (some _) = true

abbrev find_in : Text → Option (List Text) → Option Text
find_in key none = none
find_in key (some ts) = find_member key (in_pairs ts)

pub number_of-number_text : (z : ℤ) → number_of (number_text z) ≡ some z
number_of-number_text (pos n) = refl
number_of-number_text (negsuc n) = refl

pub boolean_of-boolean_text : (b : Bool) → boolean_of (boolean_text b) ≡ some b
boolean_of-boolean_text false = refl
boolean_of-boolean_text true = refl

pub find_in-flatten :
    (key : Text) (ms : List (Text × Text))
    → find_in key (some (unpack (pack (flatten ms)))) ≡ find_member key ms
find_in-flatten key ms =
    ap (λ ts. find_member key (in_pairs ts)) (unpack-pack (flatten ms))
    ∙ ap (find_member key) (in_pairs-flatten ms)

pub below_zero-pos : (n : ℕ) → ltb_ℤ (pos n) (pos 0) ≡ false
below_zero-pos n = ground arith

abbrev pub text_json : JsonLib
text_json = record {
  Json = Text;
  Number = ℤ;
  of_int = λ z. z;
  integral = λ z. some z;
  truncated = λ z. z;
  below_zero = λ z. ltb_ℤ z (pos 0);
  text = λ t. 0 ∷ t;
  number = number_text;
  boolean = boolean_text;
  array = λ items. 5 ∷ pack items;
  object = λ ms. 6 ∷ pack (flatten ms);
  member = λ key j. find_in key (members_of j);
  as_text = text_of;
  as_number = number_of;
  as_bool = boolean_of;
  elements = items_of;
  is_object = λ j. is_some (members_of j);
  integral-of_int = λ z h. refl;
  truncated-of_int = λ z h. refl;
  below_zero-of_int = λ n. below_zero-pos n;
  as_text-text = λ t. refl;
  as_number-number = number_of-number_text;
  as_bool-boolean = boolean_of-boolean_text;
  elements-array = λ items. ap some (unpack-pack items);
  is_object-object = λ ms. refl;
  member-object = find_in-flatten;
}

-- Printing shifts the bytes past the newline.
abbrev parse_text : Text → Option Text
parse_text [] = none
parse_text (c ∷ []) = if c == 10 then some [] else none
parse_text (c ∷ c' ∷ cs) = do rest ← parse_text (c' ∷ cs); some ((c - 11) ∷ rest)

pub parse_text-shift : (t : Text) → parse_text (map (λ c. c + 11) t ++ 10 ∷ []) ≡ some t
parse_text-shift [] = refl
parse_text-shift (c ∷ []) = ground arith
parse_text-shift (c ∷ c' ∷ cs) = ground (arith, parse_text-shift (c' ∷ cs))

pub shift-line : (t : Text) → All (λ c. c ≢ 10) (map (λ c. c + 11) t)
shift-line [] = tt
shift-line (c ∷ cs) = (ground arith, shift-line cs)

abbrev pub text_printer : JsonText text_json
text_printer = record {
  print = λ j. map (λ c. c + 11) j;
  parse = parse_text;
  parse-print = λ n j plain within. parse_text-shift j;
  print-line = shift-line;
}

abbrev pub good_event : Event
good_event = record zero_event {
  contract_version = 1;
  event_id = codes "ev1";
  channel_id = codes "ch0";
  stream_epoch = 7;
  event_type = RuleType.intrusion;
  rule_id = codes "door";
  phase = Phase.start;
  event_seq = 1;
  reason = Reason.confirmed;
  event_time_us = negsuc 4;
  clock_state = ClockState.synced;
  frame_id = 12;
  responsible_track_ids = 3 ∷ 9 ∷ [];
}

pub good_event-IsEncodable : IsEncodable good_event
good_event-IsEncodable = record {
  version_above = omega arith;
  version_fits = omega arith;
  event_id_above = omega arith;
  event_id_fits = omega arith;
  channel_id_above = omega arith;
  channel_id_fits = omega arith;
  epoch_above = omega arith;
  epoch_fits = omega arith;
  rule_type_valid = refl;
  rule_id_fits = omega arith;
  phase_set = ground arith;
  seq_above = omega arith;
  seq_fits = omega arith;
  reason_known = ground arith;
  time_fits = omega arith;
  clock_known = ground arith;
  pts_fits = omega arith;
  num_fits = omega arith;
  den_fits = omega arith;
  frame_above = omega arith;
  frame_fits = omega arith;
  person_fits = omega arith;
  delta_in_fits = omega arith;
  delta_out_fits = omega arith;
  config_fits = omega arith;
  evidence_id_fits = omega arith;
  track_count_fits = omega arith;
  ids_fit = ground arith;
}
