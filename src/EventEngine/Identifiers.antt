-- ===== src/EventEngine/Identifiers.antt =====
-- The identifiers of events, of media_engine/src/analytics/event_engine.c.
use rv1126_custom_part.EventEngine.Naming.{
  channel_hash, hex_digit, hex_digits, event_id_text, new_event_id,
}
use rv1126_custom_part.Base.{
  ℕ, zero, suc, ◌+◌, ◌/◌, ◌%◌, ◌^◌, ◌<◌, some, [], ◌∷◌, ◌++◌, length, length-append, Text, ◌≡◌, ◌≢◌,
  refl, sym, ◌∙◌, arith,
}
use native.Mathlib.Nat.{pow-suc}
use rv1126_custom_part.EventEngine.Timeline.{uint64_max}

pub length-hex_digits : (places n : ℕ) → length (hex_digits places n) ≡ places
unfolding hex_digits
length-hex_digits zero n = refl
length-hex_digits (suc places) n = omega (
  arith,
  length-append (hex_digits places (n / 16)) (hex_digit (n % 16) ∷ []),
  length-hex_digits places (n / 16),
)

hex_digit-injective : (a b : ℕ) → a < 16 → b < 16 → hex_digit a ≡ hex_digit b → a ≡ b
unfolding hex_digit
hex_digit-injective a b h k e = ground arith

-- Two texts of one length end apart, or not at all.
append-injective :
    (xs ys us vs : Text) → length xs ≡ length ys → (xs ++ us) ≡ (ys ++ vs) → (xs ≡ ys) × (us ≡ vs)
append-injective [] [] us vs h e = (refl, e)
append-injective [] (y ∷ ys) us vs h e = absurd (omega arith)
append-injective (x ∷ xs) [] us vs h e = absurd (omega arith)
append-injective (x ∷ xs) (y ∷ ys) us vs h e =
    let rest : (xs ++ us) ≡ (ys ++ vs) = cc in
    let (front, back) = append-injective xs ys us vs (omega arith) rest in (cc, back)

hex_digits-injective :
    (places a b : ℕ)
    → a < 16 ^ places
    → b < 16 ^ places
    → hex_digits places a ≡ hex_digits places b
    → a ≡ b
unfolding hex_digits
hex_digits-injective zero a b h k e = omega arith
hex_digits-injective (suc places) a b h k e =
    let lengths = length-hex_digits places (a / 16) ∙ sym (length-hex_digits places (b / 16)) in
    let (high, low) =
      append-injective (hex_digits places (a / 16)) (hex_digits places (b / 16)) _ _ lengths e in
    let digit : hex_digit (a % 16) ≡ hex_digit (b % 16) = cc in
    let same_low = hex_digit-injective (a % 16) (b % 16) (omega arith) (omega arith) digit in
    let power = pow-suc 16 places in
    let same_high =
      hex_digits-injective places (a / 16) (b / 16) (omega (arith, power)) (omega (arith, power))
        high in
    omega (arith, same_low, same_high)

-- The identifier has 53 bytes, so the buffer of 96 always holds it.
pub length-event_id_text :
    (channel : Text) (epoch serial : ℕ) → length (event_id_text channel epoch serial) ≡ 53
unfolding event_id_text hex_digits
length-event_id_text channel epoch serial = refl

-- An identifier is refused only at the last serial.
pub new_event_id-some :
    (serial : ℕ) (channel : Text) (epoch : ℕ)
    → serial ≢ uint64_max
    → new_event_id serial channel epoch ≡ some (event_id_text channel epoch (serial + 1))
unfolding new_event_id
new_event_id-some serial channel epoch h =
    ground (arith, length-event_id_text channel epoch (serial + 1))

-- Identifiers of two stream epochs or serials, of 64 bits, differ, whatever their channels.
pub event_id_text-injective :
    (channel channel' : Text) (epoch epoch' serial serial' : ℕ)
    → epoch < 16 ^ 16
    → epoch' < 16 ^ 16
    → serial < 16 ^ 16
    → serial' < 16 ^ 16
    → event_id_text channel epoch serial ≡ event_id_text channel' epoch' serial'
    → (epoch ≡ epoch') × (serial ≡ serial')
unfolding event_id_text
event_id_text-injective channel channel' epoch epoch' serial serial' h h' k k' e =
    let hash = hex_digits 16 (channel_hash channel) in
    let hash' = hex_digits 16 (channel_hash channel') in
    let middle = hex_digits 16 epoch in
    let middle' = hex_digits 16 epoch' in
    let last = hex_digits 16 serial in
    let last' = hex_digits 16 serial' in
    let body : (hash ++ 45 ∷ (middle ++ 45 ∷ last)) ≡ (hash' ++ 45 ∷ (middle' ++ 45 ∷ last')) =
      cc in
    let lengths = λ (m n : ℕ). length-hex_digits 16 m ∙ sym (length-hex_digits 16 n) in
    let (_, dash) =
      append-injective hash hash' _ _ (lengths (channel_hash channel) (channel_hash channel'))
        body in
    let tail : (middle ++ 45 ∷ last) ≡ (middle' ++ 45 ∷ last') = cc in
    let (epochs, rest) = append-injective middle middle' _ _ (lengths epoch epoch') tail in
    let serials : last ≡ last' = cc in
    (
      hex_digits-injective 16 epoch epoch' h h' epochs,
      hex_digits-injective 16 serial serial' k k' serials,
    )
