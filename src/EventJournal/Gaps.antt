-- ===== src/EventJournal/Gaps.antt =====
-- What a reader is told after a cursor, in media_engine/src/analytics/event_journal.c.
use rv1126_custom_part.Base.{
  ℕ, ◌+◌, ◌≤◌, ltb, leb, false, List, [], ◌∷◌, if◌then◌else◌, ◌≡◌, ◌↔◌, arith, Bool-cases, inl, inr,
}
use rv1126_custom_part.EventEngine.Types.{Event}
use rv1126_custom_part.EventJournal.Types.{JournalRecord, Journal}
use rv1126_custom_part.EventJournal.Replay.{collect, snapshot_after}
use rv1126_custom_part.EventJournal.Invariant.{Rising}

-- The records above a cursor.
unfoldable pub later : ℕ → List JournalRecord → List (ℕ × Event)
later after [] = []
later after (r ∷ rs) =
    let rest = later after rs in if ltb after r.cursor then (r.cursor, r.event) ∷ rest else rest

-- The cursors follow one another from the number on.
abbrev pub Consecutive : ℕ → List (ℕ × Event) → Type 0
Consecutive n [] = Unit
Consecutive n ((cursor, event) ∷ rs) = (cursor ≡ n + 1) × Consecutive cursor rs

collect-above :
    (after previous : ℕ) (rs : List JournalRecord)
    → after ≤ previous
    → Rising previous rs
    → ((collect after previous rs).0 ≡ later after rs)
      × (((collect after previous rs).1 ≡ false) ↔ Consecutive previous (later after rs))
unfolding collect later
collect-above after previous [] h v = ground arith
collect-above after previous (r ∷ rs) h v =
    ground (arith, collect-above after r.cursor rs (omega arith) v.1)

collect-lem :
    (after n : ℕ) (rs : List JournalRecord)
    → Rising n rs
    → ((collect after after rs).0 ≡ later after rs)
      × (((collect after after rs).1 ≡ false) ↔ Consecutive after (later after rs))
unfolding collect later
collect-lem after n [] v = ground arith
collect-lem after n (r ∷ rs) v = elim (Bool-cases (leb r.cursor after)) [
  | inl old ↦ ground (arith, old, collect-lem after r.cursor rs v.1)
  | inr new ↦ ground (arith, new, collect-above after r.cursor rs (ground (arith, new)) v.1)
]

-- Where the cursors rise, a snapshot has the records above the cursor that was seen, in their
-- order, and reports no gap exactly if their cursors follow that cursor one by one.
pub snapshot_after_lem :
    (j : Journal) (n after : ℕ)
    → Rising n j.records
    → ((snapshot_after j after).records ≡ later after j.records)
      × (((snapshot_after j after).replay_gap ≡ false) ↔ Consecutive after (later after j.records))
unfolding snapshot_after
snapshot_after_lem j n after v = collect-lem after n j.records v
