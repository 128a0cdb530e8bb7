-- ===== src/EventCodec/Examples.antt =====
-- The theorems at a record and documents that satisfy their conditions.
use rv1126_custom_part.Base.{some, inr, ◌≡◌, refl, arith, Text}
use rv1126_custom_part.EventCodec.Json.{JsonLib}
use rv1126_custom_part.EventCodec.Encode.{to_json, event_members}
use rv1126_custom_part.EventCodec.Decode.{from_json}
use rv1126_custom_part.EventCodec.RoundTrip.{from_json-to_json}
use rv1126_custom_part.EventCodec.Lines.{
  IsStorable, record_to_line, record_from_line, line_text, record_from_line-record_to_line,
}
use rv1126_custom_part.EventCodec.Scenes.{
  text_json, text_printer, good_event, good_event-IsEncodable,
}

from_json-to_json_example :
    (document : JsonLib.Json text_json) × (to_json text_json good_event ≡ some document)
    × (from_json text_json document ≡ inr good_event)
from_json-to_json_example = from_json-to_json text_json good_event good_event-IsEncodable

-- The line of that record under cursor 5.
abbrev good_line : Text
good_line =
    line_text text_json text_printer 5
      (JsonLib.object text_json (event_members text_json good_event))

record_to_line-good_event : record_to_line text_json text_printer 5 good_event ≡ some good_line
unfolding record_to_line to_json
record_to_line-good_event = refl

good_event-IsStorable : IsStorable text_json text_printer 5 good_event
good_event-IsStorable = record {
  above = omega arith;
  fits = omega arith;
  encodable = good_event-IsEncodable;
  epoch_exact = omega arith;
  seq_exact = omega arith;
  time_exact = omega arith;
  pts_exact = omega arith;
  frame_exact = omega arith;
  config_exact = omega arith;
  ids_exact = ground arith;
}

record_from_line-record_to_line_example :
    record_from_line text_json text_printer good_line ≡ some (5, good_event)
record_from_line-record_to_line_example =
    record_from_line-record_to_line text_json text_printer 5 good_event good_line
      good_event-IsStorable record_to_line-good_event
