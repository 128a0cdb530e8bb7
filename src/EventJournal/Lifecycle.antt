-- ===== src/EventJournal/Lifecycle.antt =====
-- What an append keeps, in media_engine/src/analytics/event_journal.c.
use rv1126_custom_part.Base.{
  ℕ, ◌+◌, true, ◌&&◌, ◌==◌, some, List, [], ◌∷◌, ◌++◌, length, Text, ◌≡◌, refl, arith, Bool-cases,
  Option-cases, inl, inr, ◌⊎◌,
}
use rv1126_custom_part.EventEngine.Types.{Event}
use rv1126_custom_part.EventEngine.Timeline.{uint64_max}
use rv1126_custom_part.EventJournal.Types.{
  JournalRecord, LineCodec, Journal, AppendIo, JournalError, invalid_phase, cursor_exhausted,
  unserializable, append_failed, add_u64, is_update,
}
use rv1126_custom_part.EventJournal.Compaction.{Room, compact_to_fit}
use rv1126_custom_part.EventJournal.Appending.{
  Appended, appended, dropped, rejected, null_stream, is_phase, torn_file, write_line,
  write_if_room, append,
}
use rv1126_custom_part.EventJournal.Invariant.{boundaries, boundaries-append, IsJournal}
use rv1126_custom_part.EventJournal.Making.{
  compacted, HasRoom, Makes, had_room, drops, refuses, loses, makes, compact_to_fit-Makes,
  compacted-IsJournal, drop_update-IsJournal, new_record, extended-IsJournal,
}

module _ (C : LineCodec) where
  open C use {to_line, Encodable}

  -- The file can be cut back and opened again, whatever else fails.
  pub record Repairs (io : AppendIo) : Type 0 where
    pub cut : io.truncated ≡ true
    pub reopens : io.rewrite.reopened && io.rewrite.placed ≡ true

  write_line-cases :
      (io : AppendIo) (j : Journal) (cursor : ℕ) (event : Event) (line : Text)
      → j.file_open ≡ true
      → (write_line io j cursor event line ≡ (
        record j {
          records = j.records ++ new_record C cursor event line ∷ [];
          file = j.file ++ line;
          bytes = add_u64 j.bytes (length line);
          next_cursor = cursor;
        },
        appended cursor,
      ))
        ⊎ (write_line io j cursor event line
            ≡ (record j { file = torn_file io j.file line }, rejected append_failed))
  unfolding write_line
  write_line-cases io j cursor event line h = ground (arith, h)

  torn_file-cut :
      (io : AppendIo) (file line : Text) → io.truncated ≡ true → torn_file io file line ≡ file
  unfolding torn_file
  torn_file-cut io file line h = ground (arith, h)

  append-cases :
      (io : AppendIo) (j : Journal) (event : Event)
      → ((error : JournalError) × (append C io j event ≡ (j, rejected error)))
        ⊎ (line : Text) × (to_line (j.next_cursor + 1) event ≡ some line)
          × (append C io j event
              ≡ write_if_room io
                  (j.next_cursor + 1)
                  event
                  line
                  (compact_to_fit C io.rewrite j (length line) event.phase))
  unfolding append
  append-cases io j event = elim (Bool-cases (is_phase event.phase)) [
    | inr other ↦ inl (invalid_phase, rw (other, append))
    | inl phase ↦ elim (Bool-cases (j.next_cursor == uint64_max)) [
      | inl last ↦ inl (cursor_exhausted, rw (phase, last, append))
      | inr more ↦ elim (Option-cases (to_line (j.next_cursor + 1) event)) [
        | inl mute ↦ inl (unserializable, rw (phase, more, mute, append))
        | inr (line, lined) ↦ inr (line, lined, rw (phase, more, lined, append))
      ]
    ]
  ]

  write_line-IsJournal :
      (io : AppendIo) (j : Journal) (event : Event) (line : Text)
      → Repairs io
      → IsJournal C j
      → HasRoom C j (length line)
      → to_line (j.next_cursor + 1) event ≡ some line
      → Encodable (j.next_cursor + 1) event
      → IsJournal C (write_line io j (j.next_cursor + 1) event line).0
  write_line-IsJournal io j event line repairs v roomy lined e =
      elim (write_line-cases io j (j.next_cursor + 1) event line v.streaming) [
        | inl ok ↦ rw ok (extended-IsJournal C j event line v roomy lined e)
        | inr failed ↦
            let same : torn_file io j.file line ≡ j.file =
              torn_file-cut io j.file line repairs.cut in
            rw failed (rw same v)
      ]

  -- An append, whether it succeeds or not and whichever call on the file fails, keeps the cursors
  -- rising, the limits on records and bytes, and the file equal to the lines of the records: as long
  -- as the event can be read again with its cursor, and the file can be cut back and opened again.
  pub append-IsJournal :
      (io : AppendIo) (j : Journal) (event : Event)
      → Repairs io
      → Encodable (j.next_cursor + 1) event
      → IsJournal C j
      → IsJournal C (append C io j event).0
  unfolding append
  append-IsJournal io j event repairs e v = elim (append-cases io j event) [
    | inl (error, refused) ↦ rw refused v
    | inr (line, lined, passed) ↦
        rw passed
          (roomed line lined (compact_to_fit-Makes C io.rewrite j (length line) event.phase v))
  ]
    where
      roomed :
          (line : Text)
          → to_line (j.next_cursor + 1) event ≡ some line
          → {r : Journal × Room} → Makes C io.rewrite j (length line) event.phase r
          → IsJournal C (write_if_room io (j.next_cursor + 1) event line r).0
      roomed line lined (had_room q roomy) =
          rw q (write_line-IsJournal io j event line repairs v roomy lined e)
      roomed line lined (drops q update) = rw q (drop_update-IsJournal C j v)
      roomed line lined (refuses error q) = rw q v
      roomed line lined (loses keep q gone) = cc (repairs.reopens, gone)
      roomed line lined (makes keep q thin roomy) = rw q (
          write_line-IsJournal io (compacted C j keep) event line repairs
            (compacted-IsJournal C j keep v thin) roomy lined e)

  -- What became of an event.
  abbrev pub Accounted : Journal → Event → Journal × Appended → Type 0
  Accounted j event (j', appended cursor) =
      (cursor ≡ j.next_cursor + 1)
      × (j'.next_cursor ≡ cursor)
      × ((r : JournalRecord) × (r.cursor ≡ cursor)
          × (r.event ≡ event)
          × ((older : List JournalRecord) × (j'.records ≡ older ++ r ∷ []))
          × (boundaries j'.records ≡ boundaries (j.records ++ r ∷ [])))
  Accounted j event (j', dropped) =
      (is_update event.phase ≡ true)
      × (j'.records ≡ j.records)
      × (j'.next_cursor ≡ j.next_cursor)
      × (j'.dropped_updates ≡ add_u64 j.dropped_updates 1)
  Accounted j event (j', rejected error) =
      (boundaries j'.records ≡ boundaries j.records) × (j'.next_cursor ≡ j.next_cursor)
  Accounted j event (j', null_stream) = ⊥

  write_line-Accounted :
      (io : AppendIo) (j j' : Journal) (event : Event) (line : Text)
      → boundaries j'.records ≡ boundaries j.records
      → j'.next_cursor ≡ j.next_cursor
      → j'.file_open ≡ true
      → Accounted j event (write_line io j' (j.next_cursor + 1) event line)
  unfolding write_line
  write_line-Accounted io j j' event line same cursor streaming =
      let r = new_record C (j.next_cursor + 1) event line in
      elim (write_line-cases io j' (j.next_cursor + 1) event line streaming) [
        | inl ok ↦ rw ok (
          refl,
          refl,
          (
            r,
            refl,
            refl,
            (j'.records, refl),
            rw (boundaries-append j'.records (r ∷ []), same, boundaries-append j.records (r ∷ []))
                refl,
          ),
        )
        | inr failed ↦ rw failed (same, cursor)
      ]

  -- Whatever the calls on the file do, an append to a valid journal either adds the event under the
  -- next cursor, as the last of the records, or drops it, and then it is an UPDATE, which is counted, or reports an error; in
  -- each case every START and every END that was in the journal stays.
  pub append-Accounted :
      (io : AppendIo) (j : Journal) (event : Event)
      → IsJournal C j
      → Accounted j event (append C io j event)
  append-Accounted io j event v = elim (append-cases io j event) [
    | inl (error, refused) ↦ rw refused (refl, refl)
    | inr (line, lined, passed) ↦
        rw passed (roomed line (compact_to_fit-Makes C io.rewrite j (length line) event.phase v))
  ]
    where
      roomed :
          (line : Text) {r : Journal × Room}
          → Makes C io.rewrite j (length line) event.phase r
          → Accounted j event (write_if_room io (j.next_cursor + 1) event line r)
      roomed line (had_room q roomy) =
          rw q (write_line-Accounted io j j event line refl refl v.streaming)
      roomed line (drops q update) = rw q (update, refl, refl, refl)
      roomed line (refuses error q) = rw q (refl, refl)
      roomed line (loses keep q gone) = rw q (refl, refl)
      roomed line (makes keep q thin roomy) =
          rw q (write_line-Accounted io j (compacted C j keep) event line thin.bounded refl refl)
