-- ===== src/EventJournal/Replay.antt =====
-- me_event_journal_snapshot_after, media_engine/src/analytics/event_journal.c: what a reader that has
-- seen a cursor is still to see, and whether records are missing in between.
use rv1126_custom_part.Base.{
  ℕ, ◌-◌, ltb, leb, Bool, false, ◌&&◌, ◌||◌, if◌then◌else◌, List, [], ◌∷◌,
}
use rv1126_custom_part.EventEngine.Types.{Event}
use rv1126_custom_part.EventJournal.Types.{JournalRecord, Journal}

pub record Snapshot : Type 0 where
  pub records : List (ℕ × Event)
  pub replay_gap : Bool
  pub oldest_cursor : ℕ
  pub latest_cursor : ℕ

-- The loop, with the cursor that was seen last.
unfoldable pub collect : ℕ → ℕ → List JournalRecord → List (ℕ × Event) × Bool
collect after previous [] = ([], false)
collect after previous (r ∷ rs) =
    let skipped = collect after previous rs in
    let taken = collect after r.cursor rs in
    if leb r.cursor after then skipped else (
      (r.cursor, r.event) ∷ taken.0,
      ltb previous r.cursor && ltb 1 (r.cursor - previous) || taken.1,
    )

unfoldable pub first_cursor : List JournalRecord → ℕ
first_cursor [] = 0
first_cursor (r ∷ rs) = r.cursor

unfoldable pub last_cursor : List JournalRecord → ℕ
last_cursor [] = 0
last_cursor (r ∷ []) = r.cursor
last_cursor (r ∷ r' ∷ rs) = last_cursor (r' ∷ rs)

unfoldable pub snapshot_after : Journal → ℕ → Snapshot
unfolding collect first_cursor last_cursor
snapshot_after j after =
    let (records, gap) = collect after after j.records in
    record {
      records = records;
      replay_gap = gap;
      oldest_cursor = first_cursor j.records;
      latest_cursor = last_cursor j.records;
    }

-- me_event_journal_latest_cursor
abbrev pub latest_cursor : Journal → ℕ
latest_cursor j = j.next_cursor

-- me_event_journal_dropped_updates
abbrev pub dropped_updates : Journal → ℕ
dropped_updates j = j.dropped_updates
