-- ===== src/EventJournal/Appending.antt =====
-- me_event_journal_append, media_engine/src/analytics/event_journal.c.
use rv1126_custom_part.Base.{
  ℕ, ◌+◌, Bool, true, false, not, ◌&&◌, ◌||◌, ◌==◌, if◌then◌else◌, none, some, [], ◌∷◌, ◌++◌,
  length, take, Text,
}
use rv1126_custom_part.EventEngine.Types.{Phase, Event}
use rv1126_custom_part.EventEngine.Timeline.{uint64_max}
use rv1126_custom_part.EventJournal.Types.{
  LineCodec, Journal, AppendIo, JournalError, invalid_phase, cursor_exhausted, unserializable,
  append_failed, add_u64,
}
use rv1126_custom_part.EventJournal.Compaction.{Room, room, update_dropped, no_room, compact_to_fit}

-- 0 with the cursor, 1 or -1; `null_stream` where the code would use the stream that a failed rewrite
-- has lost.
pub data Appended : Type 0 where
  appended : ℕ → Appended
  dropped : Appended
  rejected : JournalError → Appended
  null_stream : Appended

abbrev pub is_phase : Phase → Bool
is_phase Phase.unset = false
is_phase _ = true

-- The file after a write that failed: cut back to its old end, where that was known.
unfoldable pub torn_file : AppendIo → Text → Text → Text
torn_file io file line =
    if not io.sought || not io.told
    then file
    else if io.truncated
    then file
    else file ++ take io.partial line

-- The write, once there is room.
unfoldable pub write_line : AppendIo → Journal → ℕ → Event → Text → Journal × Appended
unfolding torn_file
write_line io j cursor event line =
    if not j.file_open
    then (j, null_stream)
    else if io.sought && io.told && io.written && io.flushed && io.synced
    then (
      record j {
        records =
            j.records ++ (record { cursor = cursor; event = event; bytes = length line }) ∷ [];
        file = j.file ++ line;
        bytes = add_u64 j.bytes (length line);
        next_cursor = cursor;
      },
      appended cursor,
    )
    else (record j { file = torn_file io j.file line }, rejected append_failed)

abbrev pub write_if_room : AppendIo → ℕ → Event → Text → Journal × Room → Journal × Appended
write_if_room io cursor event line (j, room) = write_line io j cursor event line
write_if_room io cursor event line (j, update_dropped) = (j, dropped)
write_if_room io cursor event line (j, no_room error) = (j, rejected error)

-- me_event_journal_append
unfoldable pub append : (C : LineCodec) → AppendIo → Journal → Event → Journal × Appended
unfolding write_line
append C io j event =
    if not (is_phase event.phase)
    then (j, rejected invalid_phase)
    else if j.next_cursor == uint64_max
    then (j, rejected cursor_exhausted)
    else elim (LineCodec.to_line C (j.next_cursor + 1) event) [
      | none ↦ (j, rejected unserializable)
      | some line ↦
          write_if_room io (j.next_cursor + 1) event line
            (compact_to_fit C io.rewrite j (length line) event.phase)
    ]
