-- ===== src/EvidenceCache/Copies.antt =====
-- A capture changes nothing of an event but the identifier of its evidence.
use rv1126_custom_part.Base.{
  ℕ, pos, not, ◌&&◌, ◌||◌, ◌==◌, ltb, Option, List, Text, ◌≡◌, refl, ap, Bool-cases, Option-cases,
  inl, inr,
}
use rv1126_custom_part.EventEngine.Types.{Event}
use rv1126_custom_part.EvidenceCache.Types.{EvidenceRecord, EvidenceCache}
use rv1126_custom_part.EvidenceCache.Select.{is_nil, select_frame}
use rv1126_custom_part.EvidenceCache.Ids.{valid_component}
use rv1126_custom_part.EvidenceCache.Window.{add_size}
use rv1126_custom_part.EvidenceCache.Store.{lookup, prune_expired}
use rv1126_custom_part.EvidenceCache.Capture.{
  is_start, with_id, candidate, given_id, CaptureIo, capture, capture_locked, capture_new,
  make_room, publish,
}

-- The same event, but for the identifier of its evidence.
abbrev pub SameEvent : Event → Event → Type 0
SameEvent event copy = with_id copy event.evidence_id ≡ event

publish-event :
    (cache : EvidenceCache) (event : Event) (found : EvidenceRecord) (io : CaptureIo)
    → (publish cache event found io).event ≡ event
unfolding publish
publish-event cache event found io =
    elim (Bool-cases (io.jpeg_published && io.serialized && io.metadata_published)) [
      | inl e ↦ rw (e, publish)
      | inr e ↦ rw (e, publish)
    ]

make_room-event :
    (cache : EvidenceCache) (event : Event) (found : EvidenceRecord) (now : ℕ) (io : CaptureIo)
    → (make_room cache event found now io).event ≡ event
unfolding make_room
make_room-event cache event found now io =
    let pruned = (prune_expired cache (pos now)).cache in
    elim (Bool-cases (ltb cache.max_bytes found.bytes)) [
      | inl e ↦ rw e refl
      | inr e ↦
          elim (Bool-cases (ltb pruned.max_bytes (add_size pruned.stored_bytes found.bytes))) [
            | inl f ↦ rw (e, f) refl
            | inr f ↦ rw (e, f) (publish-event pruned event found io)
          ]
    ]

module _ (sha256 : List ℕ → Option Text) (build_filename : Text → Text → Text) where
  capture_new-event :
      (cache : EvidenceCache) (event : Event) (now : ℕ) (io : CaptureIo)
      → (capture_new sha256 build_filename cache event now io).event ≡ event
  unfolding capture_new
  capture_new-event cache event now io = elim (Option-cases (select_frame cache.frames event)) [
    | inl e ↦ rw (e, capture_new)
    | inr (c, e) ↦ elim (Option-cases (sha256 c.frame.jpeg)) [
      | inl d ↦ rw (e, d, capture_new)
      | inr (digest, d) ↦
          rw (e, d, capture_new)
            (make_room-event cache event (candidate sha256 build_filename cache event c now digest)
              now io)
    ]
  ]

  capture_locked-event :
      (cache : EvidenceCache) (event : Event) (now : ℕ) (io : CaptureIo)
      → (capture_locked sha256 build_filename cache event now io).event ≡ event
  unfolding capture_locked
  capture_locked-event cache event now io =
      elim (Option-cases (lookup event.evidence_id cache.records)) [
        | inl e ↦ elim (Bool-cases (not (is_start event.phase))) [
          | inl p ↦ rw (e, p, capture_locked)
          | inr p ↦ rw (e, p, capture_locked) (capture_new-event cache event now io)
        ]
        | inr (found, e) ↦ rw (e, capture_locked)
      ]

  pub capture-SameEvent :
      (cache : EvidenceCache) (event : Event) (now : ℕ) (io : CaptureIo)
      → SameEvent event (capture sha256 build_filename cache event now io).event
  unfolding capture
  capture-SameEvent cache event now io =
      let made = given_id sha256 build_filename event in
      let locked = capture_locked-event cache (with_id event made.text) now io in
      elim (Bool-cases
        (is_nil event.event_id || is_nil event.channel_id || event.stream_epoch == 0)) [
          | inl e ↦ rw (e, capture) refl
          | inr e ↦ elim (Bool-cases (not made.good)) [
            | inl g ↦ rw (e, g, capture) refl
            | inr g ↦ elim (Bool-cases (not (valid_component made.text))) [
              | inl v ↦ rw (e, g, v, capture) refl
              | inr v ↦ rw (e, g, v, capture) (ap (λ ev. with_id ev event.evidence_id) locked)
            ]
          ]
        ]
