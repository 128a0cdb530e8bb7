-- ===== src/EventJournal/Opening.antt =====
-- me_event_journal_open, media_engine/src/analytics/event_journal.c: reading what the file holds,
-- cutting a torn or corrupt tail off, and making the limits hold.
use rv1126_custom_part.Base.{
  ℕ, zero, suc, ◌+◌, ltb, leb, Bool, true, false, not, ◌&&◌, ◌||◌, ◌==◌, if◌then◌else◌, Option,
  none, some, List, [], ◌∷◌, ◌++◌, length, Text, ◌⊎◌, inl, inr,
}
use rv1126_custom_part.EventJournal.Types.{
  newline, JournalRecord, LineCodec, Journal, RewriteIo, sub_u64,
}
use rv1126_custom_part.EventJournal.Rewriting.{Written, rewrite}
use rv1126_custom_part.EventJournal.Compaction.{take_update, sum_bytes}

-- How the calls of an open come out: mkdir, fopen, fseek, no ferror, ftruncate, fseek to the end, and
-- those of a rewrite.
pub record OpenIo : Type 0 where
  pub made : Bool
  pub opened : Bool
  pub sought : Bool
  pub read : Bool
  pub truncated : Bool
  pub ended : Bool
  pub rewrite : RewriteIo

pub data OpenError : Type 0 where
  bad_arguments no_directory not_opened not_sought not_read not_truncated : OpenError
  not_ended cannot_protect not_rewritten : OpenError

-- What getline gives: the lines with their newlines, and what is left without one.
unfoldable pub split_lines : Text → List Text × Text
split_lines [] = ([], [])
split_lines (c ∷ cs) =
    let rest = split_lines cs in
    if c == newline
    then ((c ∷ []) ∷ rest.0, rest.1)
    else elim rest.0 [ [] ↦ ([], c ∷ rest.1) | l ∷ ls ↦ ((c ∷ l) ∷ ls, rest.1) ]

-- The records read, the bytes they take, the last cursor, and whether the rest is corrupt.
pub record Scanned : Type 0 where
  pub records : List JournalRecord
  pub good : Text
  pub last : ℕ
  pub corrupt : Bool

abbrev pub stop_scan : ℕ → Scanned
stop_scan last = record { records = []; good = []; last = last; corrupt = true }

abbrev pub with_record : JournalRecord → Text → Scanned → Scanned
with_record r line s = record s { records = r ∷ s.records; good = line ++ s.good }

-- Why a file cannot be made to keep its limits.
pub data Trimmed : Type 0 where
  trimmed : List JournalRecord → Trimmed
  stuck : Trimmed
  unfinished : Trimmed

-- The loop that makes the limits hold; each round takes one record away.
unfoldable pub trim : ℕ → ℕ → ℕ → List JournalRecord → ℕ → Trimmed
unfolding take_update
trim zero max_records max_bytes all bytes = unfinished
trim (suc rounds) max_records max_bytes all bytes =
    let next : Trimmed = elim (take_update all) [
      | none ↦ stuck
      | some (u, us) ↦ trim rounds max_records max_bytes us (sub_u64 bytes u.bytes)
    ] in
    if ltb max_records (length all) || ltb max_bytes bytes && ltb 0 (length all)
    then next
    else trimmed all

module _ (C : LineCodec) where
  open C use {from_line}

  unfoldable pub scan : ℕ → List Text → Scanned
  scan last [] = record { records = []; good = []; last = last; corrupt = false }
  scan last (line ∷ lines) = elim (from_line line) [
    | none ↦ stop_scan last
    | some (cursor, event) ↦
        let rest = scan cursor lines in
        if leb cursor last
        then stop_scan last
        else with_record (record { cursor = cursor; event = event; bytes = length line }) line rest
  ]

  -- A tail without a newline ends the reading too, if the lines before it do not.
  unfoldable pub read_file : Text → Scanned
  unfolding split_lines scan
  read_file file =
      let (lines, tail) = split_lines file in
      let s = scan 0 lines in record s { corrupt = s.corrupt || ltb 0 (length tail) }

  abbrev pub loaded : ℕ → ℕ → Text → Scanned → Journal
  loaded max_records max_bytes file s = record {
    records = s.records;
    file = file;
    file_open = true;
    max_records = max_records;
    max_bytes = max_bytes;
    bytes = sum_bytes s.records;
    next_cursor = s.last;
    dropped_updates = 0;
  }

  abbrev pub after_rewrite : Journal → Journal × Option Written → Text × (OpenError ⊎ Journal)
  after_rewrite j (j', none) = (j'.file, inl not_rewritten)
  after_rewrite j (j', some w) = (j'.file, inr (record j' { records = w.done; bytes = w.total }))

  abbrev pub after_trim : RewriteIo → Journal → Trimmed → Text × (OpenError ⊎ Journal)
  after_trim io j (trimmed all) =
      after_rewrite j (rewrite C io (record j { records = all; bytes = sum_bytes all }) all)
  after_trim io j stuck = (j.file, inl cannot_protect)
  after_trim io j unfinished = (j.file, inl cannot_protect)

  -- The limits, for what was read.
  unfoldable pub keep_limits : RewriteIo → Journal → Text × (OpenError ⊎ Journal)
  unfolding trim
  keep_limits io j =
      if ltb j.max_records (length j.records) || ltb j.max_bytes j.bytes
      then after_trim io j (trim (length j.records + 1) j.max_records j.max_bytes j.records j.bytes)
      else (j.file, inr j)

  -- What follows the reading of the file.
  unfoldable pub open_scanned : OpenIo → ℕ → ℕ → Text → Scanned → Text × (OpenError ⊎ Journal)
  unfolding keep_limits
  open_scanned io max_records max_bytes file s =
      if not io.read
      then (file, inl not_read)
      else if s.corrupt && not io.truncated
      then (file, inl not_truncated)
      else let cut = if s.corrupt then s.good else file in
        if not io.ended
        then (cut, inl not_ended)
        else keep_limits io.rewrite (loaded max_records max_bytes cut s)

  -- me_event_journal_open: what the file then holds, and the journal or why there is none. The file
  -- is empty where there was none.
  unfoldable pub open_journal : OpenIo → Text → Text → ℕ → ℕ → Text × (OpenError ⊎ Journal)
  unfolding read_file open_scanned
  open_journal io path file max_records max_bytes =
      if length path == 0 || max_records == 0 || max_bytes == 0
      then (file, inl bad_arguments)
      else if not io.made
      then (file, inl no_directory)
      else if not io.opened
      then (file, inl not_opened)
      else if not io.sought
      then (file, inl not_sought)
      else open_scanned io max_records max_bytes file (read_file file)
