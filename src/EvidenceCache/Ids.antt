-- ===== src/EvidenceCache/Ids.antt =====
-- Names of evidence and of its files, media_engine/src/analytics/evidence_cache.c.
use rv1126_custom_part.Base.{
  ℕ, ◌+◌, ◌-◌, Bool, true, false, not, ◌&&◌, ◌||◌, ltb, leb, ◌==◌, if◌then◌else◌, Option, none,
  some, List, [], ◌∷◌, ◌++◌, length, take, Text, codes, text_eq,
}
use rv1126_custom_part.EventCodec.Decode.{evidence_id_max}
use rv1126_custom_part.EvidenceCache.Select.{is_nil}

-- g_ascii_isalnum, or one of "-_."
abbrev component_char : ℕ → Bool
component_char c =
    leb 48 c && leb c 57
    || leb 65 c && leb c 90
    || leb 97 c && leb c 122
    || c == 45
    || c == 95
    || c == 46

abbrev hex_char : ℕ → Bool
hex_char c = leb 48 c && leb c 57 || leb 65 c && leb c 70 || leb 97 c && leb c 102

unfoldable pub every_char : (ℕ → Bool) → Text → Bool
every_char test [] = true
every_char test (c ∷ cs) = test c && every_char test cs

unfoldable pub valid_component : Text → Bool
unfolding every_char text_eq
valid_component value =
    not (is_nil value)
    && not (text_eq value (codes "."))
    && not (text_eq value (codes ".."))
    && every_char component_char value

unfoldable pub valid_sha256 : Text → Bool
unfolding every_char
valid_sha256 value = length value == 64 && every_char hex_char value

-- What is before the suffix, if the text ends with it and is longer.
unfoldable pub before_suffix : Text → Text → Option Text
unfolding text_eq
before_suffix suffix [] = none
before_suffix suffix (c ∷ cs) = elim (before_suffix suffix cs) [
  | some rest ↦ some (c ∷ rest)
  | none ↦ if text_eq cs suffix then some (c ∷ []) else none
]

abbrev fitting_id : Option Text → Option Text
unfolding valid_component
fitting_id none = none
fitting_id (some id) =
    if not (ltb evidence_id_max (length id + 1)) && valid_component id then some id else none

unfoldable pub evidence_id_from_suffix : Text → Text → Option Text
unfolding before_suffix valid_component
evidence_id_from_suffix name suffix = fitting_id (before_suffix suffix name)

unfoldable pub starts_with : Text → Text → Bool
starts_with [] t = true
starts_with (p ∷ ps) [] = false
starts_with (p ∷ ps) (c ∷ cs) = p == c && starts_with ps cs

-- strstr: what is before the first `marker`, and what begins with it.
unfoldable pub split_at : Text → Text → Option (Text × Text)
unfolding starts_with
split_at marker [] = none
split_at marker (c ∷ cs) =
    let rest = split_at marker cs in
    if starts_with marker (c ∷ cs)
    then some ([], c ∷ cs)
    else elim rest [ none ↦ none | some (before, found) ↦ some (c ∷ before, found) ]

abbrev either : Option (Text × Text) → Option (Text × Text) → Option (Text × Text)
either (some found) other = some found
either none other = other

-- The tenth byte of what was found has to be there, for either marker.
unfoldable pub is_evidence_temp_file : Text → Bool
unfolding split_at valid_component
is_evidence_temp_file name =
    elim (either (split_at (codes ".jpg.tmp-") name) (split_at (codes ".json.tmp-") name)) [
      | none ↦ false
      | some (id, found) ↦
          not (is_nil id)
          && ltb 9 (length found)
          && not (ltb evidence_id_max (length id + 1))
          && valid_component id
    ]

-- What the buffer holds then, and whether it is an identifier.
pub record MadeId : Type 0 where
  pub text : Text
  pub good : Bool

module _ (sha256 : List ℕ → Option Text) where
  unfoldable pub make_evidence_id : Text → Text → MadeId
  unfolding valid_component
  make_evidence_id event_id buffer =
      if is_nil event_id then record { text = buffer; good = false } else elim (sha256 event_id) [
        | none ↦ record { text = buffer; good = false }
        | some digest ↦
            let id = codes "ev-" ++ digest in
            let written = take (evidence_id_max - 1) id in
            record {
              text = written;
              good = ltb (length id) evidence_id_max && valid_component written;
            }
      ]
