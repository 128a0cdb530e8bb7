-- ===== src/EventEngine/Naming.antt =====
-- The identifiers of events, media_engine/src/analytics/event_engine.c.
use rv1126_custom_part.Base.{
  ℕ, zero, suc, ◌+◌, ◌*◌, ◌/◌, ◌%◌, ◌^◌, bit_xor, ltb, leb, ◌==◌, if◌then◌else◌, Option, none, some,
  [], ◌∷◌, ◌++◌, length, Text, codes,
}
use rv1126_custom_part.EventEngine.Types.{event_id_max}
use rv1126_custom_part.EventEngine.Timeline.{uint64_max}

-- FNV-1a over the bytes, in 64 bits.
unfoldable pub hash_from : ℕ → Text → ℕ
hash_from hash [] = hash
hash_from hash (byte ∷ bytes) = hash_from (bit_xor hash byte * 1099511628211 % 2 ^ 64) bytes

unfoldable pub channel_hash : Text → ℕ
unfolding hash_from
channel_hash channel_id = hash_from 1469598103934665603 channel_id

-- The character of a digit below 16.
unfoldable pub hex_digit : ℕ → ℕ
hex_digit d = if ltb d 10 then 48 + d else 87 + d

-- The low `places` hexadecimal digits: `%016llx` of a 64-bit word at 16 places.
unfoldable pub hex_digits : ℕ → ℕ → Text
unfolding hex_digit
hex_digits zero n = []
hex_digits (suc places) n = hex_digits places (n / 16) ++ hex_digit (n % 16) ∷ []

unfoldable pub event_id_text : Text → ℕ → ℕ → Text
event_id_text channel_id stream_epoch serial =
    codes "me-"
    ++ (hex_digits 16 (channel_hash channel_id)
        ++ (codes "-" ++ (hex_digits 16 stream_epoch ++ (codes "-" ++ hex_digits 16 serial))))

-- The identifier, which also advances the serial to the one in it.
unfoldable pub new_event_id : ℕ → Text → ℕ → Option Text
new_event_id next_event_serial channel_id stream_epoch =
    let id = event_id_text channel_id stream_epoch (next_event_serial + 1) in
    if next_event_serial == uint64_max
    then none
    else if leb event_id_max (length id)
    then none
    else some id
