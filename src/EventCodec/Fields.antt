-- ===== src/EventCodec/Fields.antt =====
-- The reading of one member, media_engine/src/analytics/event_codec.c.
use rv1126_custom_part.Base.{
  ℕ, zero, ◌+◌, ◌-◌, ◌*◌, ◌≤◌, ◌<◌, ℤ, pos, negsuc, pos_part, leb_ℤ, Bool, ◌&&◌, ◌||◌, ltb, leb,
  ◌==◌, if◌then◌else◌, Option, none, some, [], ◌∷◌, length, Text, ◌≡◌, arith,
}
use rv1126_custom_part.EventEngine.Timeline.{uint32_max, uint64_max, int64_max}
use rv1126_custom_part.EventCodec.Json.{JsonLib, safe_integer, magnitude}

abbrev is_digit : ℕ → Bool
is_digit c = leb 48 c && leb c 57

-- The value of a text that is all digits, after those already read.
unfoldable pub read_digits : ℕ → Text → Option ℕ
read_digits value [] = some value
read_digits value (c ∷ cs) =
    let rest = read_digits (value * 10 + (c - 48)) cs in if is_digit c then rest else none

abbrev at_most : ℕ → Option ℕ → Option ℕ
at_most limit none = none
at_most limit (some n) = if leb n limit then some n else none

-- strtoull of a text that begins with a digit, all of which is to be read, without overflow.
unfoldable pub parse_u64 : Text → Option ℕ
unfolding read_digits
parse_u64 [] = none
parse_u64 (c ∷ cs) = at_most uint64_max (read_digits 0 (c ∷ cs))

abbrev is_space : ℕ → Bool
is_space c = c == 32 || leb 9 c && leb c 13

unfoldable pub skip_spaces : Text → Text
skip_spaces [] = []
skip_spaces (c ∷ cs) = let rest = skip_spaces cs in if is_space c then rest else c ∷ cs

abbrev negated : Option ℕ → Option ℤ
negated none = none
negated (some zero) = some (pos 0)
negated (some n) = some (negsuc (n - 1))

abbrev unsigned : Option ℕ → Option ℤ
unsigned none = none
unsigned (some n) = some (pos n)

-- At least one digit, and nothing else.
abbrev digits : Text → Option ℕ
digits [] = none
digits (c ∷ cs) = read_digits 0 (c ∷ cs)

-- After the white space: a sign, if there is one, and digits.
unfoldable pub parse_signed : Text → Option ℤ
unfolding read_digits
parse_signed [] = none
parse_signed (c ∷ cs) =
    if c == 45
    then negated (at_most (int64_max + 1) (digits cs))
    else if c == 43
    then unsigned (at_most int64_max (digits cs))
    else unsigned (at_most int64_max (digits (c ∷ cs)))

-- strtoll of a text, all of which is to be read, without overflow.
unfoldable pub parse_i64 : Text → Option ℤ
unfolding skip_spaces parse_signed
parse_i64 t = parse_signed (skip_spaces t)

-- A double that is a whole number from zero on.
abbrev pub safe_ℕ : Option ℤ → Option ℕ
safe_ℕ none = none
safe_ℕ (some z) =
    if leb_ℤ (pos 0) z && leb (pos_part z) safe_integer then some (pos_part z) else none

abbrev pub safe_ℤ : Option ℤ → Option ℤ
safe_ℤ none = none
safe_ℤ (some z) = if leb (magnitude z) safe_integer then some z else none

module _ (J : JsonLib) where
  open J use {
    Json, of_int, integral, text, number, boolean, member, as_text, as_number, as_bool,
    integral-of_int, as_text-text, as_number-number, as_bool-boolean,
  }

  unfoldable pub u64_value : Json → Option ℕ
  unfolding parse_u64
  u64_value v = elim (as_number v) [
    | some x ↦ safe_ℕ (integral x)
    | none ↦ elim (as_text v) [ none ↦ none | some t ↦ parse_u64 t ]
  ]

  unfoldable pub i64_value : Json → Option ℤ
  unfolding parse_i64
  i64_value v = elim (as_number v) [
    | some x ↦ safe_ℤ (integral x)
    | none ↦ elim (as_text v) [
      | none ↦ none
      | some t ↦ if ltb 0 (length t) then parse_i64 t else none
    ]
  ]

  -- json_u64
  unfoldable pub read_u64 : Json → Text → Option ℕ
  unfolding u64_value
  read_u64 o key = elim (member key o) [ none ↦ none | some v ↦ u64_value v ]

  -- json_i64
  unfoldable pub read_i64 : Json → Text → Option ℤ
  unfolding i64_value
  read_i64 o key = elim (member key o) [ none ↦ none | some v ↦ i64_value v ]

  -- json_u32
  unfoldable pub read_u32 : Json → Text → Option ℕ
  unfolding read_u64
  read_u32 o key = at_most uint32_max (read_u64 o key)

  -- json_bool
  unfoldable pub read_bool : Json → Text → Option Bool
  read_bool o key = elim (member key o) [ none ↦ none | some v ↦ as_bool v ]

  -- The text of a member, of any length.
  unfoldable pub read_name : Json → Text → Option Text
  read_name o key = elim (member key o) [ none ↦ none | some v ↦ as_text v ]

  -- json_string, into a buffer of `cap` bytes
  unfoldable pub read_text : Json → Text → ℕ → Option Text
  unfolding read_name
  read_text o key cap = elim (read_name o key) [
    | none ↦ none
    | some t ↦ if ltb (length t) cap then some t else none
  ]

  module _ (o : Json) (key : Text) where
    pub read_u64-number :
        (n : ℕ)
        → member key o ≡ some (number (of_int (pos n)))
        → n ≤ safe_integer
        → read_u64 o key ≡ some n
    unfolding read_u64
    read_u64-number n h k =
        ground (arith, h, as_number-number (of_int (pos n)), integral-of_int (pos n) (omega arith))

    pub read_u32-number :
        (n : ℕ)
        → member key o ≡ some (number (of_int (pos n)))
        → n ≤ uint32_max
        → read_u32 o key ≡ some n
    unfolding read_u32
    read_u32-number n h k = ground (arith, read_u64-number n h (omega arith))

    pub read_i64-number :
        (z : ℤ)
        → member key o ≡ some (number (of_int z))
        → magnitude z ≤ safe_integer
        → read_i64 o key ≡ some z
    unfolding read_i64
    read_i64-number z h k = ground (arith, h, as_number-number (of_int z), integral-of_int z k)

    pub read_bool-boolean : (b : Bool) → member key o ≡ some (boolean b) → read_bool o key ≡ some b
    unfolding read_bool
    read_bool-boolean b h = ground (arith, h, as_bool-boolean b)

    pub read_name-text : (t : Text) → member key o ≡ some (text t) → read_name o key ≡ some t
    unfolding read_name
    read_name-text t h = ground (arith, h, as_text-text t)

    pub read_text-text :
        (t : Text) (cap : ℕ)
        → member key o ≡ some (text t)
        → length t < cap
        → read_text o key cap ≡ some t
    unfolding read_text
    read_text-text t cap h k = ground (arith, read_name-text t h)
