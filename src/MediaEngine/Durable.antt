-- ===== src/MediaEngine/Durable.antt =====
-- A record that is delivered is in the journal before.
use rv1126_custom_part.Base.{
  ℕ, ◌+◌, not, ◌&&◌, ◌==◌, Option, some, List, [], ◌∷◌, ◌++◌, length, Text, codes, text_case_eq,
  ◌≡◌, ◌⊎◌, inl, inr, refl, Bool-cases, Option-cases,
}
use mathlib.Core.List.{append-nil}
use rv1126_custom_part.EventEngine.Types.{Event}
use rv1126_custom_part.EventEngine.Timeline.{uint64_max}
use rv1126_custom_part.EventJournal.Types.{JournalRecord, LineCodec, Journal, AppendIo}
use rv1126_custom_part.EventJournal.Compaction.{Room, room, update_dropped, no_room, compact_to_fit}
use rv1126_custom_part.EventJournal.Appending.{
  Appended, appended, is_phase, write_line, write_if_room, append,
}
use rv1126_custom_part.EvidenceCache.Copies.{SameEvent, capture-SameEvent}
use rv1126_custom_part.EvidenceCache.Capture.{CaptureIo}
use rv1126_custom_part.MediaEngine.Delivery.{
  Delivery, dispatch_of, capture_evidence, attach_evidence, engine_analytics_event,
}

-- The last record of the journal has that cursor and that event.
abbrev pub EndsWith : Journal → ℕ → Event → Type 0
EndsWith j cursor event =
    (older : List JournalRecord) × ((r : JournalRecord) × ((j.records ≡ older ++ r ∷ [])
        × ((r.cursor ≡ cursor) × (r.event ≡ event))))

write_line-EndsWith :
    (io : AppendIo) (j : Journal) (cursor : ℕ) (event : Event) (line : Text)
    → ((write_line io j cursor event line).1 ≡ appended cursor)
        × EndsWith (write_line io j cursor event line).0 cursor event
      ⊎ (dispatch_of event (write_line io j cursor event line).1 ≡ [])
unfolding write_line
write_line-EndsWith io j cursor event line = elim (Bool-cases (not j.file_open)) [
  | inl c ↦ rw c (inr refl)
  | inr o ↦ elim (Bool-cases (io.sought && io.told && io.written && io.flushed && io.synced)) [
    | inl w ↦
        rw (o, w)
          (inl (
            refl,
            (
              j.records,
              (
                record { cursor = cursor; event = event; bytes = length line },
                (refl, (refl, refl)),
              ),
            ),
          ))
    | inr w ↦ rw (o, w) (inr refl)
  ]
]

-- A result that is dispatched is of a record that the journal now ends with.
abbrev Kept : Event → ℕ → Journal × Appended → Type 0
Kept event cursor (j, result) =
    ((result ≡ appended cursor) × EndsWith j cursor event) ⊎ (dispatch_of event result ≡ [])

write_if_room-Kept :
    (io : AppendIo) (cursor : ℕ) (event : Event) (line : Text) (r : Journal × Room)
    → Kept event cursor (write_if_room io cursor event line r)
write_if_room-Kept io cursor event line (j, room) = write_line-EndsWith io j cursor event line
write_if_room-Kept io cursor event line (j, update_dropped) = inr refl
write_if_room-Kept io cursor event line (j, no_room error) = inr refl

append-Kept :
    (C : LineCodec) (io : AppendIo) (j : Journal) (event : Event)
    → Kept event (j.next_cursor + 1) (append C io j event)
unfolding append
append-Kept C io j event = elim (Bool-cases (not (is_phase event.phase))) [
  | inl p ↦ rw (p, append) (inr refl)
  | inr p ↦ elim (Bool-cases (j.next_cursor == uint64_max)) [
    | inl u ↦ rw (p, u, append) (inr refl)
    | inr u ↦ elim (Option-cases (LineCodec.to_line C (j.next_cursor + 1) event)) [
      | inl l ↦ rw (p, u, l, append) (inr refl)
      | inr (line, l) ↦
          rw (p, u, l, append)
            (write_if_room-Kept io (j.next_cursor + 1) event line
              (compact_to_fit C io.rewrite j (length line) event.phase))
    ]
  ]
]

module _ (sha256 : List ℕ → Option Text) (build_filename : Text → Text → Text) (C : LineCodec) where
  -- The record goes into the journal as it is, but for the identifier of its evidence; if it is
  -- appended, it is the last there under the next cursor, and it is dispatched under that cursor, and
  -- if it is not, nothing is.
  abbrev pub Delivers : Delivery → Journal → Event → AppendIo → Delivery → Type 0
  Delivers d j event io d' =
      (copy : Event) × (SameEvent event copy
        × ((d'.event_journal ≡ some (append C io j copy).0)
            × ((((append C io j copy).1 ≡ appended (j.next_cursor + 1))
                  × (EndsWith (append C io j copy).0 (j.next_cursor + 1) copy
                      × (d'.dispatched ≡ d.dispatched ++ (j.next_cursor + 1, copy) ∷ [])))
                ⊎ ((dispatch_of copy (append C io j copy).1 ≡ [])
                    × (d'.dispatched ≡ d.dispatched)))))

  attach_evidence-SameEvent :
      (d : Delivery) (event : Event) (now : ℕ) (io : CaptureIo)
      → SameEvent event (attach_evidence sha256 build_filename C d event now io).1
  unfolding attach_evidence capture_evidence
  attach_evidence-SameEvent d event now io =
      elim (Bool-cases (text_case_eq d.evidence_mode (codes "exact_evidence"))) [
        | inr m ↦ rw m refl
        | inl m ↦ elim (Option-cases d.evidence_cache) [
          | inl e ↦ rw (m, e) refl
          | inr (cache, e) ↦ rw (m, e) (capture-SameEvent sha256 build_filename cache event now io)
        ]
      ]

  -- With a journal open, whatever the calls on files do, an analytics record is appended before it is
  -- dispatched: what is dispatched is then the journal's last record, under its next cursor, and
  -- differs from the record that was emitted at most in the identifier of its evidence; a record that
  -- is not appended is not dispatched.
  pub engine_analytics_event-Delivers :
      (d : Delivery) (j : Journal) (event : Event) (now : ℕ) (capture_io : CaptureIo)
      (append_io : AppendIo)
      → d.event_journal ≡ some j
      → Delivers d j event append_io
          (engine_analytics_event sha256 build_filename C d event now capture_io append_io)
  unfolding engine_analytics_event
  engine_analytics_event-Delivers d j event now capture_io append_io h =
      let copy = (attach_evidence sha256 build_filename C d event now capture_io).1 in
      let same = attach_evidence-SameEvent d event now capture_io in
      rw (h, engine_analytics_event)
        (
          copy,
          (
            same,
            (
              refl,
              elim (append-Kept C append_io j copy) [
                | inl (done, last) ↦ inl (done, (last, rw done))
                | inr undone ↦ inr (undone, rw (undone, append-nil))
              ],
            ),
          ),
        )
