-- ===== src/EvidenceCache/Totals.antt =====
-- The count of the stored bytes is their sum, and within a bound that it has been within before.
use rv1126_custom_part.Base.{
  ℕ, ◌+◌, ◌%◌, ◌^◌, ◌≤◌, ◌<◌, ℤ, pos, not, ◌&&◌, ◌||◌, ◌==◌, ltb, Option, some, List, [], ◌∷◌, Text,
  text_eq, ◌≡◌, inl, inr, arith, Bool-cases, Option-cases,
}
use rv1126_custom_part.EventEngine.Types.{Event}
use rv1126_custom_part.EvidenceCache.Types.{EvidenceRecord, EvidenceCache}
use rv1126_custom_part.EvidenceCache.Select.{is_nil, select_frame}
use rv1126_custom_part.EvidenceCache.Ids.{valid_component}
use rv1126_custom_part.EvidenceCache.Window.{less}
use rv1126_custom_part.EvidenceCache.Store.{
  lookup, remove_key, remove_record, remove_all, prune_expired, expired_keys,
}
use rv1126_custom_part.EvidenceCache.Capture.{
  is_start, with_id, candidate, given_id, CaptureIo, capture, capture_locked, capture_new,
  make_room, publish,
}

abbrev pub record_bytes : List (Text × EvidenceRecord) → ℕ
record_bytes [] = 0
record_bytes ((key, found) ∷ rest) = found.bytes + record_bytes rest

-- The count is the sum, and within a bound that the limit is within too. Only the limit bounds a
-- capture, but what a start of the program loads from the directory is not compared with the limit:
-- the bound is then what was loaded, if that is more.
pub record IsStore (bound : ℕ) (cache : EvidenceCache) : Type 0 where
  pub counted : cache.stored_bytes ≡ record_bytes cache.records
  pub bounded : cache.stored_bytes ≤ bound
  pub limit_bounded : cache.max_bytes ≤ bound
  pub bound_fits : bound < 2 ^ 63

record_bytes-remove_key :
    (id : Text) (rs : List (Text × EvidenceRecord)) (found : EvidenceRecord)
    → lookup id rs ≡ some found
    → record_bytes (remove_key id rs) + found.bytes ≡ record_bytes rs
unfolding lookup remove_key
record_bytes-remove_key id [] found h = ground arith
record_bytes-remove_key id ((key, r) ∷ rs) found h = elim (Bool-cases (text_eq key id)) [
  | inl e ↦ ground (arith, e)
  | inr e ↦ ground (arith, e, record_bytes-remove_key id rs found)
]

remove_record-IsStore :
    (bound : ℕ) (cache : EvidenceCache) (id : Text)
    → IsStore bound cache
    → IsStore bound (remove_record cache id)
unfolding remove_record
remove_record-IsStore bound cache id s = elim (Option-cases (lookup id cache.records)) [
  | inl e ↦ rw (e, remove_record) s
  | inr (found, e) ↦ rw (e, remove_record) (kept found e)
]
  where
    kept :
        (found : EvidenceRecord)
        → lookup id cache.records ≡ some found
        → IsStore bound (record cache {
          stored_bytes = less cache.stored_bytes found.bytes;
          records = remove_key id cache.records;
        })
    kept found e =
        let sum = record_bytes-remove_key id cache.records found e in
        let counted = s.counted in
        let bounded = s.bounded in
        record {
          counted = ground arith;
          bounded = ground arith;
          limit_bounded = s.limit_bounded;
          bound_fits = s.bound_fits;
        }

remove_all-IsStore :
    (bound : ℕ) (ids : List Text) (cache : EvidenceCache)
    → IsStore bound cache
    → IsStore bound (remove_all cache ids)
unfolding remove_all
remove_all-IsStore bound [] cache s = s
remove_all-IsStore bound (id ∷ ids) cache s =
    remove_all-IsStore bound ids (remove_record cache id) (remove_record-IsStore bound cache id s)

-- Expiry keeps the count.
pub prune_expired-IsStore :
    (bound : ℕ) (cache : EvidenceCache) (now : ℤ)
    → IsStore bound cache
    → IsStore bound (prune_expired cache now).cache
unfolding prune_expired
prune_expired-IsStore bound cache now s =
    remove_all-IsStore bound (expired_keys now cache.records) cache s

publish-IsStore :
    (bound : ℕ) (cache : EvidenceCache) (event : Event) (found : EvidenceRecord) (io : CaptureIo)
    → IsStore bound cache
    → found.bytes < 2 ^ 63
    → (cache.stored_bytes + found.bytes) % 2 ^ 64 ≤ cache.max_bytes
    → IsStore bound (publish cache event found io).cache
unfolding publish
publish-IsStore bound cache event found io s small room =
    elim (Bool-cases (io.jpeg_published && io.serialized && io.metadata_published)) [
      | inl e ↦
          let counted = s.counted in
          let bounded = s.bounded in
          let limit = s.limit_bounded in
          let fits = s.bound_fits in
          rw e (record {
            counted = omega arith;
            bounded = ground (arith, room, limit);
            limit_bounded = s.limit_bounded;
            bound_fits = s.bound_fits;
          })
      | inr e ↦ rw e s
    ]

make_room-IsStore :
    (bound : ℕ) (cache : EvidenceCache) (event : Event) (found : EvidenceRecord) (now : ℕ)
    (io : CaptureIo)
    → IsStore bound cache
    → IsStore bound (make_room cache event found now io).cache
unfolding make_room
make_room-IsStore bound cache event found now io s =
    let pruned = (prune_expired cache (pos now)).cache in
    let kept = prune_expired-IsStore bound cache (pos now) s in
    elim (Bool-cases (ltb cache.max_bytes found.bytes)) [
      | inl e ↦ rw e s
      | inr e ↦
          elim (Bool-cases (ltb pruned.max_bytes ((pruned.stored_bytes + found.bytes) % 2 ^ 64))) [
            | inl f ↦ rw (e, f) kept
            | inr f ↦
                let limit = s.limit_bounded in
                let fits = s.bound_fits in
                rw (e, f)
                  (publish-IsStore bound pruned event found io kept (ground (arith, e))
                    (ground (arith, f)))
          ]
    ]

module _ (sha256 : List ℕ → Option Text) (build_filename : Text → Text → Text) where
  capture_new-IsStore :
      (bound : ℕ) (cache : EvidenceCache) (event : Event) (now : ℕ) (io : CaptureIo)
      → IsStore bound cache
      → IsStore bound (capture_new sha256 build_filename cache event now io).cache
  unfolding capture_new
  capture_new-IsStore bound cache event now io s =
      elim (Option-cases (select_frame cache.frames event)) [
        | inl e ↦ rw (e, capture_new) s
        | inr (c, e) ↦ elim (Option-cases (sha256 c.frame.jpeg)) [
          | inl d ↦ rw (e, d, capture_new) s
          | inr (digest, d) ↦
              rw (e, d, capture_new)
                (make_room-IsStore bound cache event
                  (candidate sha256 build_filename cache event c now digest) now io s)
        ]
      ]

  capture_locked-IsStore :
      (bound : ℕ) (cache : EvidenceCache) (event : Event) (now : ℕ) (io : CaptureIo)
      → IsStore bound cache
      → IsStore bound (capture_locked sha256 build_filename cache event now io).cache
  unfolding capture_locked
  capture_locked-IsStore bound cache event now io s =
      elim (Option-cases (lookup event.evidence_id cache.records)) [
        | inr (found, e) ↦ rw (e, capture_locked) s
        | inl e ↦ elim (Bool-cases (not (is_start event.phase))) [
          | inl p ↦ rw (e, p, capture_locked) s
          | inr p ↦ rw (e, p, capture_locked) (capture_new-IsStore bound cache event now io s)
        ]
      ]

  -- If the count of the stored bytes is the sum of the records' bytes, and within a bound below 2^63
  -- that the limit is within too, as the limit itself is when no more than it has been loaded, then so
  -- it is after a capture, however that ends.
  pub capture-IsStore :
      (bound : ℕ) (cache : EvidenceCache) (event : Event) (now : ℕ) (io : CaptureIo)
      → IsStore bound cache
      → IsStore bound (capture sha256 build_filename cache event now io).cache
  unfolding capture
  capture-IsStore bound cache event now io s =
      let made = given_id sha256 build_filename event in
      let locked = capture_locked-IsStore bound cache (with_id event made.text) now io s in
      elim (Bool-cases
        (is_nil event.event_id || is_nil event.channel_id || event.stream_epoch == 0)) [
          | inl e ↦ rw (e, capture) s
          | inr e ↦ elim (Bool-cases (not made.good)) [
            | inl g ↦ rw (e, g, capture) s
            | inr g ↦ elim (Bool-cases (not (valid_component made.text))) [
              | inl v ↦ rw (e, g, v, capture) s
              | inr v ↦ rw (e, g, v, capture) locked
            ]
          ]
        ]
