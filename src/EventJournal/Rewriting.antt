-- ===== src/EventJournal/Rewriting.antt =====
-- The replacement of the journal's file, media_engine/src/analytics/event_journal.c.
use rv1126_custom_part.Base.{
  ℕ, zero, suc, Bool, true, false, not, ◌&&◌, ◌||◌, ◌==◌, if◌then◌else◌, Option, none, some, List,
  [], ◌∷◌, ◌++◌, length, Text,
}
use rv1126_custom_part.EventJournal.Types.{JournalRecord, LineCodec, Journal, RewriteIo, add_u64}

pub record Written : Type 0 where
  pub done : List JournalRecord
  pub text : Text
  pub total : ℕ
  pub whole : Bool

unfoldable pub has_cursor : List JournalRecord → ℕ → Bool
has_cursor [] cursor = false
has_cursor (r ∷ rs) cursor = r.cursor == cursor || has_cursor rs cursor

module _ (C : LineCodec) where
  open C use {to_line}

  -- The line of a record, where it has one.
  unfoldable pub line_of : JournalRecord → Text
  line_of r = elim (to_line r.cursor r.event) [ none ↦ [] | some line ↦ line ]

  -- record->bytes = line_bytes
  abbrev pub resize : JournalRecord → JournalRecord
  resize r = record r { bytes = length (line_of r) }

  -- The records that are written before the first failure; fwrite succeeds `writes` times.
  unfoldable pub write_records : ℕ → List JournalRecord → Written
  unfolding line_of
  write_records writes [] = record { done = []; text = []; total = 0; whole = true }
  write_records zero (r ∷ rs) = record { done = []; text = []; total = 0; whole = false }
  write_records (suc writes) (r ∷ rs) =
      let rest = write_records writes rs in
      elim (to_line r.cursor r.event) [
        | none ↦ record { done = []; text = []; total = 0; whole = false }
        | some line ↦ record {
          done = resize r ∷ rest.done;
          text = line ++ rest.text;
          total = add_u64 (length line) rest.total;
          whole = rest.whole;
        }
      ]

  -- The sizes are written into the records that the queue shares with the array.
  unfoldable pub adopt_sizes : List JournalRecord → List JournalRecord → List JournalRecord
  unfolding has_cursor line_of
  adopt_sizes done [] = []
  adopt_sizes done (r ∷ rs) =
      (if has_cursor done r.cursor then resize r else r) ∷ adopt_sizes done rs

  abbrev pub rewrite_saved : RewriteIo → Written → Bool
  rewrite_saved io w = w.whole && io.flushed && io.synced && io.closed && io.renamed

  -- rewrite_locked: the journal afterwards, and what was written if it succeeds.
  unfoldable pub rewrite : RewriteIo → Journal → List JournalRecord → Journal × Option Written
  unfolding write_records adopt_sizes
  rewrite io j keep =
      let w = write_records io.writes keep in
      let sized = record j { records = adopt_sizes w.done j.records } in
      if not io.opened || not io.streamed
      then (j, none)
      else if not (rewrite_saved io w)
      then (sized, none)
      else if not io.reopened || not io.placed
      then (record sized { file = w.text; file_open = io.reopened }, none)
      else (record sized { file = w.text; file_open = true }, some w)
