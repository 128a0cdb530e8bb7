-- ===== src/EventJournal/Compaction.antt =====
-- How the journal makes room, media_engine/src/analytics/event_journal.c: the oldest UPDATE goes
-- first, and a START or an END never does.
use rv1126_custom_part.Base.{
  ℕ, zero, suc, ◌+◌, ◌-◌, ltb, leb, Bool, ◌&&◌, if◌then◌else◌, Option, none, some, List, [], ◌∷◌,
  length,
}
use rv1126_custom_part.EventEngine.Types.{Phase}
use rv1126_custom_part.EventJournal.Types.{
  JournalRecord, LineCodec, Journal, RewriteIo, JournalError, over_limit, boundaries_protected,
  rewrite_failed, add_u64, sub_u64, one_more, is_update,
}
use rv1126_custom_part.EventJournal.Rewriting.{Written, rewrite}

-- The oldest UPDATE, and the records without it.
unfoldable pub take_update : List JournalRecord → Option (JournalRecord × List JournalRecord)
take_update [] = none
take_update (r ∷ rs) =
    let rest = take_update rs in
    if is_update r.event.phase
    then some (r, rs)
    else elim rest [ none ↦ none | some (u, us) ↦ some (u, r ∷ us) ]

unfoldable pub sum_bytes : List JournalRecord → ℕ
sum_bytes [] = 0
sum_bytes (r ∷ rs) = add_u64 r.bytes (sum_bytes rs)

-- There is room for one more record of `incoming` bytes.
abbrev pub has_room : ℕ → ℕ → ℕ → ℕ → ℕ → Bool
has_room max_records max_bytes count bytes incoming =
    leb (one_more count) max_records && leb bytes max_bytes && leb incoming (max_bytes - bytes)

pub data Squeezed : Type 0 where
  squeezed : List JournalRecord → Squeezed
  protected : Squeezed
  unfinished : Squeezed

-- The loop of compact_to_fit_locked; each round takes one record away, which bounds the rounds.
unfoldable pub squeeze : ℕ → ℕ → ℕ → ℕ → List JournalRecord → ℕ → Squeezed
unfolding take_update
squeeze zero max_records max_bytes incoming keep bytes = unfinished
squeeze (suc rounds) max_records max_bytes incoming keep bytes =
    let next : Squeezed = elim (take_update keep) [
      | none ↦ protected
      | some (u, us) ↦ squeeze rounds max_records max_bytes incoming us (sub_u64 bytes u.bytes)
    ] in
    if has_room max_records max_bytes (length keep) bytes incoming then squeezed keep else next

pub data Room : Type 0 where
  room : Room
  update_dropped : Room
  no_room : JournalError → Room

abbrev pub drop_update : Journal → Journal
drop_update j = record j { dropped_updates = add_u64 j.dropped_updates 1 }

module _ (C : LineCodec) where
  -- What is done with an array that makes room.
  abbrev pub install_kept : Journal → List JournalRecord → Journal × Option Written → Journal × Room
  install_kept j keep (j', none) = (j', no_room rewrite_failed)
  install_kept j keep (j', some w) = (record j' { records = w.done; bytes = w.total }, room)

  abbrev pub after_squeeze : RewriteIo → Journal → Phase → Squeezed → Journal × Room
  after_squeeze io j phase (squeezed keep) = install_kept j keep (rewrite C io j keep)
  after_squeeze io j phase protected =
      if is_update phase then (drop_update j, update_dropped) else (j, no_room boundaries_protected)
  after_squeeze io j phase unfinished = (j, no_room boundaries_protected)

  -- compact_to_fit_locked
  unfoldable pub compact_to_fit : RewriteIo → Journal → ℕ → Phase → Journal × Room
  unfolding squeeze sum_bytes
  compact_to_fit io j incoming phase =
      if has_room j.max_records j.max_bytes (length j.records) j.bytes incoming
      then (j, room)
      else if ltb j.max_bytes incoming
      then if is_update phase then (drop_update j, update_dropped) else (j, no_room over_limit)
      else after_squeeze io j phase (
          squeeze (length j.records + 1) j.max_records j.max_bytes incoming j.records
            (sum_bytes j.records))
