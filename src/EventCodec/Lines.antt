-- ===== src/EventCodec/Lines.antt =====
-- A line of the journal, media_engine/src/analytics/event_journal.c: the record as an object on one
-- line, with its version and its cursor, over the printer and the parser of cJSON.
use rv1126_custom_part.Base.{
  ℕ, ◌≤◌, ◌<◌, not, ◌==◌, if◌then◌else◌, Option, none, some, inl, inr, List, [], ◌∷◌, ◌++◌, map,
  All, Text, codes, text_eq, ◌≡◌, ◌≢◌, sym, subst, ◌∙◌, Option-cases, ◌>>=◌, arith,
}
use mathlib.Core.Option.{some-injective}
use rv1126_custom_part.EventEngine.Types.{Event}
use rv1126_custom_part.EventJournal.Types.{newline, LineCodec}
use rv1126_custom_part.EventCodec.Json.{
  JsonLib, JsonText, exact_integer, magnitude, find_member, Plain, PlainItems, PlainMembers,
  plain_text, plain_boolean, plain_int, plain_array, plain_object, no_items, item, no_members,
  entry,
}
use rv1126_custom_part.EventCodec.Fields.{read_u64, read_u64-number}
use rv1126_custom_part.EventCodec.Encode.{
  json_nat, timebase_json, tracks_json, event_members, to_json,
}
use rv1126_custom_part.EventCodec.Decode.{from_json}
use rv1126_custom_part.EventCodec.RoundTrip.{IsEncodable, from_json-to_json}

-- ME_EVENT_JOURNAL_VERSION
abbrev pub journal_version : ℕ
journal_version = 1

module _ (J : JsonLib) (T : JsonText J) where
  open J use {Json, object, member, is_object, is_object-object, member-object}
  open T use {print, parse, parse-print, print-line}

  abbrev pub line_members : ℕ → Json → List (Text × Json)
  line_members cursor event =
      (codes "v", json_nat J journal_version)
      ∷ (codes "cursor", json_nat J cursor)
      ∷ (codes "event", event)
      ∷ []

  abbrev pub line_text : ℕ → Json → Text
  line_text cursor event = print (object (line_members cursor event)) ++ newline ∷ []

  unfoldable pub record_to_line : ℕ → Event → Option Text
  record_to_line cursor event = elim (to_json J event) [
    | none ↦ none
    | some d ↦ some (line_text cursor d)
  ]

  abbrev record_event : ℕ → Option Json → Option (ℕ × Event)
  record_event cursor none = none
  record_event cursor (some d) = elim (from_json J d) [
    | inl err ↦ none
    | inr event ↦ some (cursor, event)
  ]

  abbrev record_from_root : Json → Option ℕ → Option ℕ → Option (ℕ × Event)
  record_from_root root (some version) (some cursor) =
      if not (version == journal_version)
      then none
      else if cursor == 0
      then none
      else record_event cursor (member (codes "event") root)
  record_from_root root _ _ = none

  -- A parsed line, which has to be an object.
  unfoldable pub record_of_root : Json → Option (ℕ × Event)
  record_of_root root =
      if is_object root
      then record_from_root root (read_u64 J root (codes "v")) (read_u64 J root (codes "cursor"))
      else none

  unfoldable pub record_from_line : Text → Option (ℕ × Event)
  unfolding record_of_root
  record_from_line line = parse line >>= record_of_root

  -- A cursor and a record whose integers are all printed exactly, and a record that fits.
  pub record IsStorable (cursor : ℕ) (event : Event) : Type 0 where
    pub above : 0 < cursor
    pub fits : cursor ≤ exact_integer
    pub encodable : IsEncodable event
    pub epoch_exact : event.stream_epoch ≤ exact_integer
    pub seq_exact : event.event_seq ≤ exact_integer
    pub time_exact : magnitude event.event_time_us ≤ exact_integer
    pub pts_exact : magnitude event.source_pts ≤ exact_integer
    pub frame_exact : event.frame_id ≤ exact_integer
    pub config_exact : event.config_version ≤ exact_integer
    pub ids_exact : All (λ id. id ≤ exact_integer) event.responsible_track_ids

  map-PlainItems :
      (ids : List ℕ) → All (λ id. id ≤ exact_integer) ids → PlainItems J 0 (map (json_nat J) ids)
  map-PlainItems [] h = no_items
  map-PlainItems (id ∷ ids) h = item (plain_int (ground (arith, h.0))) (map-PlainItems ids h.1)

  event_members-PlainMembers :
      (cursor : ℕ) (e : Event) → IsStorable cursor e → PlainMembers J 1 (event_members J e)
  unfolding event_members timebase_json tracks_json
  event_members-PlainMembers cursor e s =
      let ok = s.encodable in
      entry (plain_int (ground (arith, ok.version_fits))) (
        entry plain_text (
          entry plain_text (
            entry (plain_int (ground (arith, s.epoch_exact))) (
              entry plain_text (
                entry plain_text (
                  entry plain_text (
                    entry (plain_int (ground (arith, s.seq_exact))) (
                      entry plain_text (
                        entry (plain_int s.time_exact) (
                          entry plain_text (
                            entry plain_boolean (
                              entry (plain_int s.pts_exact) (
                                entry
                                  (plain_object {n = 0} (
                                    entry (plain_int (ground (arith, ok.num_fits)))
                                      (entry (plain_int (ground (arith, ok.den_fits))) no_members)))
                                  (entry (plain_int (ground (arith, s.frame_exact))) (
                                    entry (plain_int (ground (arith, ok.person_fits))) (
                                      entry (plain_int (ground (arith, ok.delta_in_fits))) (
                                        entry (plain_int (ground (arith, ok.delta_out_fits))) (
                                          entry (plain_int (ground (arith, s.config_exact))) (
                                            entry plain_text (
                                              entry
                                                (plain_int (ground (arith, ok.track_count_fits)))
                                                (entry
                                                  (plain_array {n = 0} (
                                                    map-PlainItems e.responsible_track_ids
                                                      s.ids_exact))
                                                  no_members)))))))))))))))))))))

  -- The root of a line.
  line_members-Plain :
      (cursor : ℕ) (event : Event) (d : Json)
      → IsStorable cursor event
      → to_json J event ≡ some d
      → Plain J 3 (object (line_members cursor d))
  unfolding to_json
  line_members-Plain cursor event d s made =
      let few = s.encodable.track_count_fits in
      let same : d ≡ object (event_members J event) = ground (arith, few, made) in
      let inner : Plain J 2 d =
        rw same (plain_object {n = 1} (event_members-PlainMembers cursor event s)) in
      plain_object {n = 2} (
        entry (plain_int (omega arith))
          (entry (plain_int (ground (arith, s.fits))) (entry inner no_members)))

  record_from_line-line_text :
      (cursor : ℕ) (event : Event) (d : Json)
      → IsStorable cursor event
      → Plain J 3 (object (line_members cursor d))
      → from_json J d ≡ inr event
      → record_from_line (line_text cursor d) ≡ some (cursor, event)
  unfolding record_from_line record_of_root find_member text_eq
  record_from_line-line_text cursor event d ok plain read =
      rw
        (
          parse-print 3 root plain (omega arith),
          is_object-object (line_members cursor d),
          read_u64-number J root (codes "v") 1 (member-object _ _) (omega arith),
          read_u64-number J root (codes "cursor") cursor (member-object _ _)
              (omega (arith, ok.fits)),
        )
        positive
    where
      root : Json
      root = object (line_members cursor d)

      positive :
          (if cursor == 0 then none else record_event cursor (member (codes "event") root))
          ≡ some (cursor, event)
      positive =
          ground (arith, ok.above, read, member-object (codes "event") (line_members cursor d))

  -- The line that `to_json` of a record leads to.
  record_to_line-inv :
      (cursor : ℕ) (event : Event) (line : Text)
      → record_to_line cursor event ≡ some line
      → (d : Json) × (to_json J event ≡ some d) × (line_text cursor d ≡ line)
  unfolding record_to_line
  record_to_line-inv cursor event line h = elim (Option-cases (to_json J event)) [
    | inl e ↦ ground (arith, e)
    | inr (d, e) ↦ (d, e, ground (arith, e))
  ]

  -- The line of a cursor from 1 on and of a record that fits is read back as that cursor and that
  -- record, if the cursor, the record's 64-bit fields and identities, and its two times without their
  -- sign are at most 2^52 - 1, up to which the printer writes every integer exactly.
  pub record_from_line-record_to_line :
      (cursor : ℕ) (event : Event) (line : Text)
      → IsStorable cursor event
      → record_to_line cursor event ≡ some line
      → record_from_line line ≡ some (cursor, event)
  record_from_line-record_to_line cursor event line ok h =
      let (d, made, same) = record_to_line-inv cursor event line h in
      let (d', made', read) = from_json-to_json J event ok.encodable in
      subst (λ l. record_from_line l ≡ some (cursor, event)) same
        (record_from_line-line_text cursor event d ok (line_members-Plain cursor event d ok made)
          (subst (λ o. from_json J o ≡ inr event) (some-injective _ _ (sym made' ∙ made)) read))

  pub record_to_line-whole :
      (cursor : ℕ) (event : Event) (line : Text)
      → record_to_line cursor event ≡ some line
      → (body : Text) × (line ≡ body ++ newline ∷ []) × All (λ c. c ≢ newline) body
  record_to_line-whole cursor event line h =
      let (d, made, same) = record_to_line-inv cursor event line h in
      let root = object (line_members cursor d) in (print root, sym same, print-line root)

  -- The format of the journal's lines.
  abbrev pub line_codec : LineCodec
  line_codec = record {
    to_line = record_to_line;
    from_line = record_from_line;
    Encodable = IsStorable;
    from_line-to_line = record_from_line-record_to_line;
    to_line-whole = record_to_line-whole;
  }
