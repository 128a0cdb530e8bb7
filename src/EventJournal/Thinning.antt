-- ===== src/EventJournal/Thinning.antt =====
-- What making room keeps, in media_engine/src/analytics/event_journal.c: the order, the beginnings
-- and the ends of events; and that it comes to an end.
use rv1126_custom_part.Base.{
  ℕ, zero, suc, ◌+◌, ◌^◌, ◌≤◌, ◌<◌, true, some, List, [], ◌∷◌, length, All, ◌≡◌, ◌≢◌, refl, ◌∙◌,
  arith, Bool-cases, Option-cases, inl, inr,
}
use rv1126_custom_part.EventJournal.Types.{JournalRecord, LineCodec, is_update, sub_u64}
use rv1126_custom_part.EventJournal.Compaction.{
  take_update, has_room, squeezed, unfinished, squeeze,
}
use rv1126_custom_part.EventJournal.Invariant.{
  Rising, Below, total, boundaries, Rising-le, IsWritten,
}

take_update-parts :
    (xs : List JournalRecord) (u : JournalRecord) (us : List JournalRecord)
    → take_update xs ≡ some (u, us)
    → (is_update u.event.phase ≡ true)
      × (length xs ≡ suc (length us))
      × (total xs ≡ u.bytes + total us)
      × (boundaries us ≡ boundaries xs)
unfolding take_update total boundaries
take_update-parts [] u us h = absurd (ground arith)
take_update-parts (r ∷ rs) u us h = elim (Option-cases (take_update rs)) [
  | inl e ↦ ground arith
  | inr ((v, vs), e) ↦ ground (arith, take_update-parts rs v vs e)
]

take_update-Rising :
    (n : ℕ) (xs : List JournalRecord) (u : JournalRecord) (us : List JournalRecord)
    → take_update xs ≡ some (u, us)
    → Rising n xs
    → Rising n us
unfolding take_update
take_update-Rising n [] u us h v = absurd (ground arith)
take_update-Rising n (r ∷ rs) u us h v = elim (Bool-cases (is_update r.event.phase)) [
  | inl first ↦
      let e : rs ≡ us = ground arith in rw (← e) (Rising-le n r.cursor rs (omega arith) v.1)
  | inr later ↦ elim (Option-cases (take_update rs)) [
    | inl e ↦ absurd (ground arith)
    | inr ((w, ws), e) ↦
        let f : r ∷ ws ≡ us = ground arith in
        rw (← f) (v.0, take_update-Rising r.cursor rs w ws e v.1)
  ]
]

take_update-All {κ} :
    (P : JournalRecord → Type κ) (xs : List JournalRecord) (u : JournalRecord)
    (us : List JournalRecord)
    → take_update xs ≡ some (u, us)
    → All P xs
    → All P us
unfolding take_update
take_update-All P [] u us h v = absurd (ground arith)
take_update-All P (r ∷ rs) u us h v = elim (Bool-cases (is_update r.event.phase)) [
  | inl first ↦ let e : rs ≡ us = ground arith in rw (← e) v.1
  | inr later ↦ elim (Option-cases (take_update rs)) [
    | inl e ↦ absurd (ground arith)
    | inr ((w, ws), e) ↦
        let f : r ∷ ws ≡ us = ground arith in rw (← f) (v.0, take_update-All P rs w ws e v.1)
  ]
]

-- The loop that makes room ends: with more rounds than there are records it does not run out of them,
-- whatever the limits, the incoming size and the count of bytes are.
pub squeeze-ends :
    (rounds max_records max_bytes incoming : ℕ) (xs : List JournalRecord) (bytes : ℕ)
    → length xs < rounds
    → squeeze rounds max_records max_bytes incoming xs bytes ≢ unfinished
unfolding squeeze
squeeze-ends zero max_records max_bytes incoming xs bytes h = absurd (omega arith)
squeeze-ends (suc rounds) max_records max_bytes incoming xs bytes h =
    elim (Option-cases (take_update xs)) [
      | inl e ↦ ground arith
      | inr ((u, us), e) ↦ ground (
        arith,
        take_update-parts xs u us e,
        squeeze-ends rounds max_records max_bytes incoming us (sub_u64 bytes u.bytes),
      )
    ]

module _ (C : LineCodec) where
  -- The second list is the first without some of its updates.
  pub record Thinned (xs ys : List JournalRecord) : Type 0 where
    pub bounded : boundaries ys ≡ boundaries xs
    pub shorter : length ys ≤ length xs
    pub lighter : total ys ≤ total xs
    pub rises : (n : ℕ) → Rising n xs → Rising n ys
    pub stays : (n : ℕ) → Below n xs → Below n ys
    pub lines : All (IsWritten C) xs → All (IsWritten C) ys

  pub Thinned-refl : (xs : List JournalRecord) → Thinned xs xs
  Thinned-refl xs = record {
    bounded = refl;
    shorter = omega arith;
    lighter = omega arith;
    rises = λ n v. v;
    stays = λ n v. v;
    lines = λ v. v;
  }

  Thinned-trans : (xs ys zs : List JournalRecord) → Thinned xs ys → Thinned ys zs → Thinned xs zs
  Thinned-trans xs ys zs a b = record {
    bounded = b.bounded ∙ a.bounded;
    shorter = omega (arith, a.shorter, b.shorter);
    lighter = omega (arith, a.lighter, b.lighter);
    rises = λ n v. b.rises n (a.rises n v);
    stays = λ n v. b.stays n (a.stays n v);
    lines = λ v. b.lines (a.lines v);
  }

  take_update-Thinned :
      (xs : List JournalRecord) (u : JournalRecord) (us : List JournalRecord)
      → take_update xs ≡ some (u, us)
      → Thinned xs us
  take_update-Thinned xs u us h =
      let (phase, count, bytes, kept) = take_update-parts xs u us h in
      record {
        bounded = kept;
        shorter = omega arith;
        lighter = omega arith;
        rises = λ n. take_update-Rising n xs u us h;
        stays = λ n. take_update-All (λ r. r.cursor ≤ n) xs u us h;
        lines = take_update-All (IsWritten C) xs u us h;
      }

  -- The loop that makes room takes updates away only, and what it leaves has room.
  pub squeeze-Thinned :
      (rounds max_records max_bytes incoming : ℕ) (xs ys : List JournalRecord) (bytes : ℕ)
      → bytes ≡ total xs
      → total xs < 2 ^ 64
      → squeeze rounds max_records max_bytes incoming xs bytes ≡ squeezed ys
      → Thinned xs ys × (has_room max_records max_bytes (length ys) (total ys) incoming ≡ true)
  unfolding squeeze
  squeeze-Thinned zero max_records max_bytes incoming xs ys bytes b h k = absurd (ground arith)
  squeeze-Thinned (suc rounds) max_records max_bytes incoming xs ys bytes b h k =
      elim (Bool-cases (has_room max_records max_bytes (length xs) bytes incoming)) [
        | inl fits ↦
            let same : xs ≡ ys = ground arith in rw (← same) (Thinned-refl xs, rw (← b) fits)
        | inr full ↦ elim (Option-cases (take_update xs)) [
          | inl e ↦ absurd (ground arith)
          | inr ((u, us), e) ↦
              let (phase, count, sum, kept) = take_update-parts xs u us e in
              let rest : squeeze rounds max_records max_bytes incoming us (sub_u64 bytes u.bytes)
                  ≡ squeezed ys =
                ground arith in
              let (thin, room_left) =
                squeeze-Thinned rounds max_records max_bytes incoming us ys (sub_u64 bytes u.bytes)
                  (omega arith) (omega arith) rest in
              (Thinned-trans xs us ys (take_update-Thinned xs u us e) thin, room_left)
        ]
      ]
