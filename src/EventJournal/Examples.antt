-- ===== src/EventJournal/Examples.antt =====
-- Runs of the journal, and the theorems at them.
use rv1126_custom_part.Base.{false, ◌++◌, codes, inr, ◌≡◌, ◌≢◌, ◌↔◌, refl, arith}
use rv1126_custom_part.EventEngine.Types.{Phase}
use rv1126_custom_part.EventJournal.Rewriting.{rewrite}
use rv1126_custom_part.EventJournal.Compaction.{squeeze, unfinished, compact_to_fit}
use rv1126_custom_part.EventJournal.Appending.{appended, append}
use rv1126_custom_part.EventJournal.Opening.{open_journal}
use rv1126_custom_part.EventJournal.Replay.{last_cursor, snapshot_after}
use rv1126_custom_part.EventJournal.Invariant.{IsJournal}
use rv1126_custom_part.EventJournal.Thinning.{squeeze-ends}
use rv1126_custom_part.EventJournal.Lifecycle.{append-IsJournal, Accounted, append-Accounted}
use rv1126_custom_part.EventJournal.Recovery.{open_journal-recovers}
use rv1126_custom_part.EventJournal.Gaps.{later, Consecutive, snapshot_after_lem}
use rv1126_custom_part.EventJournal.Scenes.{
  dot_codec, event_of, three_records, full_journal, full_journal-IsJournal, good_append, good_open,
}

-- The oldest update makes room for an END.
kept_boundaries : (append dot_codec good_append full_journal (event_of Phase.end)).1 ≡ appended 4
unfolding append compact_to_fit rewrite
kept_boundaries = refl

append-IsJournal_example :
    IsJournal dot_codec (append dot_codec good_append full_journal (event_of Phase.end)).0
append-IsJournal_example =
    append-IsJournal dot_codec good_append full_journal (event_of Phase.end)
      (record { cut = refl; reopens = refl }) refl full_journal-IsJournal

append-Accounted_example :
    Accounted dot_codec full_journal
      (event_of Phase.end)
      (append dot_codec good_append full_journal (event_of Phase.end))
append-Accounted_example =
    append-Accounted dot_codec good_append full_journal (event_of Phase.end) full_journal-IsJournal

squeeze-ends_example : squeeze 4 3 100 6 three_records 12 ≢ unfinished
squeeze-ends_example = squeeze-ends 4 3 100 6 three_records 12 (omega arith)

-- The torn beginning of a fourth line.
open_journal-recovers_example :
    open_journal dot_codec good_open (codes "j") (full_journal.file ++ codes "E..") 3 100 ≡ (
      full_journal.file,
      inr (record full_journal { next_cursor = last_cursor three_records; dropped_updates = 0 }),
    )
open_journal-recovers_example =
    open_journal-recovers dot_codec good_open (codes "j") full_journal (codes "E..")
      (record {
        made_ok = refl;
        opened_ok = refl;
        sought_ok = refl;
        read_ok = refl;
        truncated_ok = refl;
        ended_ok = refl;
      })
      (omega arith) (omega arith) (omega arith) full_journal-IsJournal (omega arith)

snapshot_after_lem_example :
    ((snapshot_after full_journal 1).records ≡ later 1 three_records)
    × (((snapshot_after full_journal 1).replay_gap ≡ false) ↔ Consecutive 1 (later 1 three_records))
snapshot_after_lem_example = snapshot_after_lem full_journal 0 1 (omega arith)
