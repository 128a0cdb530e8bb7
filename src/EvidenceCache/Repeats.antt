-- ===== src/EvidenceCache/Repeats.antt =====
-- Evidence that has been captured is found under its identifier, and captured again without change.
use rv1126_custom_part.Base.{
  ℕ, ◌+◌, ◌-◌, ◌%◌, ◌^◌, ◌<◌, pos, true, false, not, ◌&&◌, ◌||◌, ◌==◌, ltb, Option, some, List, [],
  ◌∷◌, length, length-take, take_short, codes, ◌++◌, subst, copy_text, Text, text_eq_refl, ◌≡◌, inl,
  inr, refl, sym, ◌∙◌, arith, Bool-cases, Option-cases,
}
use rv1126_custom_part.EventEngine.Types.{Event}
use rv1126_custom_part.EventCodec.Decode.{evidence_id_max}
use rv1126_custom_part.EvidenceCache.Types.{EvidenceRecord, EvidenceCache}
use rv1126_custom_part.EvidenceCache.Select.{is_nil, select_frame}
use rv1126_custom_part.EvidenceCache.Ids.{valid_component, make_evidence_id}
use rv1126_custom_part.EvidenceCache.Store.{lookup, prune_expired, cache_lookup}
use rv1126_custom_part.EvidenceCache.Capture.{
  is_start, with_id, candidate, given_id, CaptureCode, CaptureIo, Captured, capture, capture_locked,
  capture_new, make_room, publish,
}

-- What a capture that returns 0 leaves.
pub record IsKept (event : Event) (out : Captured) : Type 0 where
  pub found : EvidenceRecord
  pub copied_found : out.copied ≡ some found
  pub stored : lookup event.evidence_id out.cache.records ≡ some found
  pub same_event : out.event ≡ event

publish-IsKept :
    (cache : EvidenceCache) (event : Event) (found : EvidenceRecord) (io : CaptureIo)
    → found.evidence_id ≡ event.evidence_id
    → (publish cache event found io).code ≡ CaptureCode.captured
    → IsKept event (publish cache event found io)
unfolding publish lookup
publish-IsKept cache event found io same h =
    elim (Bool-cases (io.jpeg_published && io.serialized && io.metadata_published)) [
      | inl e ↦
          rw (e, publish)
            (record {
              found = found;
              copied_found = refl;
              stored = rw (same, text_eq_refl event.evidence_id, lookup);
              same_event = refl;
            })
      | inr e ↦ absurd (ground (arith, e))
    ]

make_room-IsKept :
    (cache : EvidenceCache) (event : Event) (found : EvidenceRecord) (now : ℕ) (io : CaptureIo)
    → found.evidence_id ≡ event.evidence_id
    → (make_room cache event found now io).code ≡ CaptureCode.captured
    → IsKept event (make_room cache event found now io)
unfolding make_room
make_room-IsKept cache event found now io same h =
    let pruned = (prune_expired cache (pos now)).cache in
    elim (Bool-cases (ltb cache.max_bytes found.bytes)) [
      | inl e ↦ absurd (ground (arith, e))
      | inr e ↦
          elim (Bool-cases (ltb pruned.max_bytes ((pruned.stored_bytes + found.bytes) % 2 ^ 64))) [
            | inl f ↦ absurd (ground (arith, e, f))
            | inr f ↦ rw (e, f) (publish-IsKept pruned event found io same (ground (arith, e, f)))
          ]
    ]

is_nil-valid_component : (t : Text) → valid_component t ≡ true → is_nil t ≡ false
unfolding valid_component
is_nil-valid_component [] h = ground arith
is_nil-valid_component (c ∷ cs) h = refl

module _ (sha256 : List ℕ → Option Text) (build_filename : Text → Text → Text) where
  capture_new-IsKept :
      (cache : EvidenceCache) (event : Event) (now : ℕ) (io : CaptureIo)
      → length event.evidence_id < evidence_id_max
      → (capture_new sha256 build_filename cache event now io).code ≡ CaptureCode.captured
      → IsKept event (capture_new sha256 build_filename cache event now io)
  unfolding capture_new candidate copy_text
  capture_new-IsKept cache event now io fits h =
      elim (Option-cases (select_frame cache.frames event)) [
        | inl e ↦ absurd (ground (arith, e))
        | inr (s, e) ↦ elim (Option-cases (sha256 s.frame.jpeg)) [
          | inl d ↦ absurd (ground (arith, e, d))
          | inr (digest, d) ↦
              rw (e, d, capture_new)
                (make_room-IsKept cache event
                  (candidate sha256 build_filename cache event s now digest) now io
                  (take_short 95 event.evidence_id (omega arith)) (rw (e, d, capture_new) at h))
        ]
      ]

  capture_locked-IsKept :
      (cache : EvidenceCache) (event : Event) (now : ℕ) (io : CaptureIo)
      → length event.evidence_id < evidence_id_max
      → (capture_locked sha256 build_filename cache event now io).code ≡ CaptureCode.captured
      → IsKept event (capture_locked sha256 build_filename cache event now io)
  unfolding capture_locked
  capture_locked-IsKept cache event now io fits h =
      elim (Option-cases (lookup event.evidence_id cache.records)) [
        | inr (r, e) ↦
            rw (e, capture_locked)
              (record { found = r; copied_found = refl; stored = e; same_event = refl })
        | inl e ↦ elim (Bool-cases (not (is_start event.phase))) [
          | inl p ↦ absurd (ground (arith, e, p))
          | inr p ↦
              rw (e, p, capture_locked)
                (capture_new-IsKept cache event now io fits (rw (e, p, capture_locked) at h))
        ]
      ]

  length-make_evidence_id :
      (event_id buffer : Text)
      → length buffer < evidence_id_max
      → length (make_evidence_id sha256 event_id buffer).text < evidence_id_max
  unfolding make_evidence_id
  length-make_evidence_id event_id buffer fits = elim (Bool-cases (is_nil event_id)) [
    | inl n ↦ rw (n, make_evidence_id) fits
    | inr n ↦ elim (Option-cases (sha256 event_id)) [
      | inl d ↦ rw (n, d, make_evidence_id) fits
      | inr (digest, d) ↦
          rw (n, d, make_evidence_id)
            (omega (arith, length-take (evidence_id_max - 1) (codes "ev-" ++ digest)))
    ]
  ]

  length-given_id :
      (event : Event)
      → length event.evidence_id < evidence_id_max
      → length (given_id sha256 build_filename event).text < evidence_id_max
  unfolding given_id
  length-given_id event fits = elim (Bool-cases (is_nil event.evidence_id)) [
    | inl n ↦ rw (n, given_id) (length-make_evidence_id event.event_id event.evidence_id fits)
    | inr n ↦ rw (n, given_id) fits
  ]

  -- The identity of the event is there, and its identifier is one.
  record IsNamed (event : Event) : Type 0 where
    identified :
        (is_nil event.event_id || is_nil event.channel_id || event.stream_epoch == 0) ≡ false
    valid : valid_component event.evidence_id ≡ true

  -- A capture that returns 0 has come to the table with a named event.
  capture-inv :
      (cache : EvidenceCache) (event : Event) (now : ℕ) (io : CaptureIo)
      → (capture sha256 build_filename cache event now io).code ≡ CaptureCode.captured
      → (id : Text) × ((id ≡ (given_id sha256 build_filename event).text)
          × (IsNamed (with_id event id)
              × (capture sha256 build_filename cache event now io
                  ≡ capture_locked sha256 build_filename cache (with_id event id) now io)))
  unfolding capture
  capture-inv cache event now io h =
      let made = given_id sha256 build_filename event in
      elim (Bool-cases
        (is_nil event.event_id || is_nil event.channel_id || event.stream_epoch == 0)) [
          | inl e ↦ absurd (ground (arith, e))
          | inr e ↦ elim (Bool-cases (not made.good)) [
            | inl g ↦ absurd (ground (arith, e, g))
            | inr g ↦ elim (Bool-cases (not (valid_component made.text))) [
              | inl v ↦ absurd (ground (arith, e, g, v))
              | inr v ↦ (
                made.text,
                (
                  refl,
                  (record { identified = e; valid = ground (arith, v) }, rw (e, g, v, capture)),
                ),
              )
            ]
          ]
        ]

  given_id-named :
      (event : Event)
      → is_nil event.evidence_id ≡ false
      → given_id sha256 build_filename event ≡ record { text = event.evidence_id; good = true }
  unfolding given_id
  given_id-named event h = rw h

  capture_named :
      (cache : EvidenceCache) (event : Event) (now : ℕ) (io : CaptureIo)
      → IsNamed event
      → capture sha256 build_filename cache event now io
        ≡ capture_locked sha256 build_filename cache event now io
  unfolding capture
  capture_named cache event now io n =
      let i = n.identified in
      let v = n.valid in
      rw (i, given_id-named event (is_nil-valid_component event.evidence_id v), v, capture)

  capture_locked-stored :
      (cache : EvidenceCache) (event : Event) (found : EvidenceRecord) (now : ℕ) (io : CaptureIo)
      → lookup event.evidence_id cache.records ≡ some found
      → capture_locked sha256 build_filename cache event now io
        ≡ record { cache = cache; event = event; copied = some found; code = CaptureCode.captured }
  unfolding capture_locked
  capture_locked-stored cache event found now io h = rw (h, capture_locked)

  -- A named event that has a record is given that record, and nothing changes.
  capture_stored :
      (cache : EvidenceCache) (event : Event) (found : EvidenceRecord) (now : ℕ) (io : CaptureIo)
      → IsNamed event
      → lookup event.evidence_id cache.records ≡ some found
      → capture sha256 build_filename cache event now io
        ≡ record { cache = cache; event = event; copied = some found; code = CaptureCode.captured }
  capture_stored cache event found now io n h =
      capture_named cache event now io n ∙ capture_locked-stored cache event found now io h

  -- A record is copied out, it is in the table, and a second capture finds it and changes nothing.
  abbrev pub IsRepeatable : Captured → ℕ → CaptureIo → Type 0
  IsRepeatable out now io =
      (found : EvidenceRecord) × ((out.copied ≡ some found)
        × ((cache_lookup out.cache out.event.evidence_id ≡ some found)
            × (capture sha256 build_filename out.cache out.event now io ≡ record {
              cache = out.cache;
              event = out.event;
              copied = some found;
              code = CaptureCode.captured;
            })))

  IsKept-IsRepeatable :
      (event : Event) (out : Captured) (now : ℕ) (io : CaptureIo)
      → IsNamed event
      → IsKept event out
      → IsRepeatable out now io
  unfolding cache_lookup
  IsKept-IsRepeatable event out now io n k =
      let e = k.same_event in
      let stored =
        subst (λ ev. lookup ev.evidence_id out.cache.records ≡ some k.found) (sym e) k.stored in
      (
        k.found,
        (
          k.copied_found,
          (
            stored,
            capture_stored out.cache out.event k.found now io (subst IsNamed (sym e) n) stored,
          ),
        ),
      )

  -- After a capture that returns 0, of an event whose identifier fits its array, the record copied out
  -- is in the cache under the identifier that the event then carries; and capturing that event again,
  -- at any time, returns 0 with the same record and leaves the cache and the event as they are.
  pub capture-IsRepeatable :
      (cache : EvidenceCache) (event : Event) (now now' : ℕ) (io io' : CaptureIo)
      → length event.evidence_id < evidence_id_max
      → (capture sha256 build_filename cache event now io).code ≡ CaptureCode.captured
      → IsRepeatable (capture sha256 build_filename cache event now io) now' io'
  capture-IsRepeatable cache event now now' io io' fits h =
      let (id, (made, (named, same))) = capture-inv cache event now io h in
      let event' = with_id event id in
      let short = subst (λ t. length t < evidence_id_max) (sym made) (length-given_id event fits) in
      let kept = capture_locked-IsKept cache event' now io short (rw same at h) in
      rw same (
        IsKept-IsRepeatable event' (capture_locked sha256 build_filename cache event' now io) now'
          io' named kept)
