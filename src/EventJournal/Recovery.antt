-- ===== src/EventJournal/Recovery.antt =====
-- Opening a journal again, in media_engine/src/analytics/event_journal.c.
use rv1126_custom_part.Base.{
  ℕ, ◌≤◌, ◌<◌, true, false, ltb, List, [], ◌∷◌, ◌++◌, map, length, All, Text, ◌≡◌, ◌≢◌, inr, refl,
  ap, ◌∙◌, arith,
}
use mathlib.Core.List.{append-nil, append_assoc}
use rv1126_custom_part.EventJournal.Types.{newline, JournalRecord, LineCodec, Journal}
use rv1126_custom_part.EventJournal.Rewriting.{line_of}
use rv1126_custom_part.EventJournal.Compaction.{sum_bytes}
use rv1126_custom_part.EventJournal.Opening.{
  OpenIo, split_lines, Scanned, scan, read_file, loaded, keep_limits, open_scanned, open_journal,
}
use rv1126_custom_part.EventJournal.Replay.{last_cursor}
use rv1126_custom_part.EventJournal.Invariant.{
  Rising, sum_bytes-eq-total, IsWritten, render, IsJournal,
}

abbrev IsTorn : Text → Type 0
IsTorn = All (λ c. c ≢ newline)

split_lines-torn : (torn : Text) → IsTorn torn → split_lines torn ≡ ([], torn)
unfolding split_lines
split_lines-torn [] h = refl
split_lines-torn (c ∷ cs) h = ground (arith, split_lines-torn cs h.1)

split_lines-line :
    (body rest : Text)
    → IsTorn body
    → split_lines ((body ++ newline ∷ []) ++ rest)
      ≡ ((body ++ newline ∷ []) ∷ (split_lines rest).0, (split_lines rest).1)
unfolding split_lines
split_lines-line [] rest h = refl
split_lines-line (c ∷ cs) rest h = ground (arith, split_lines-line cs rest h.1)

-- The last cursor, or the number where there is none.
unfoldable last_from : ℕ → List JournalRecord → ℕ
last_from n [] = n
last_from n (r ∷ rs) = last_from r.cursor rs

last_from-last_cursor :
    (n : ℕ) (r : JournalRecord) (rs : List JournalRecord)
    → last_from n (r ∷ rs) ≡ last_cursor (r ∷ rs)
unfolding last_from last_cursor
last_from-last_cursor n r [] = refl
last_from-last_cursor n r (x ∷ xs) = last_from-last_cursor r.cursor x xs

last_from-zero : (rs : List JournalRecord) → last_from 0 rs ≡ last_cursor rs
unfolding last_from last_cursor
last_from-zero [] = refl
last_from-zero (r ∷ rs) = last_from-last_cursor 0 r rs

module _ (C : LineCodec) where
  open C use {to_line, from_line, Encodable, from_line-to_line, to_line-whole}

  split_lines-render :
      (rs : List JournalRecord) (torn : Text)
      → All (IsWritten C) rs
      → IsTorn torn
      → split_lines (render C rs ++ torn) ≡ (map (line_of C) rs, torn)
  unfolding render
  split_lines-render [] torn v h = split_lines-torn torn h
  split_lines-render (r ∷ rs) torn v h =
      let (body, line, whole) = to_line-whole r.cursor r.event (line_of C r) v.0.lined in
      let ih = split_lines-render rs torn v.1 h in
      rw (append_assoc (line_of C r) (render C rs) torn)
        (rw line (rw (split_lines-line body (render C rs ++ torn) whole, ih) refl))

  scan-render :
      (n : ℕ) (rs : List JournalRecord)
      → All (IsWritten C) rs
      → Rising n rs
      → scan C n (map (line_of C) rs)
        ≡ record { records = rs; good = render C rs; last = last_from n rs; corrupt = false }
  unfolding scan render last_from
  scan-render n [] v h = refl
  scan-render n (r ∷ rs) v h =
      let read = from_line-to_line r.cursor r.event (line_of C r) v.0.encodable v.0.lined in
      ground (arith, read, v.0.measured, h.0, scan-render r.cursor rs v.1 h.1)

  read_file-render :
      (rs : List JournalRecord) (torn : Text)
      → All (IsWritten C) rs
      → Rising 0 rs
      → IsTorn torn
      → read_file C (render C rs ++ torn) ≡ record {
        records = rs;
        good = render C rs;
        last = last_cursor rs;
        corrupt = ltb 0 (length torn);
      }
  unfolding read_file
  read_file-render rs torn v h t =
      rw (split_lines-render rs torn v t, scan-render 0 rs v h, last_from-zero rs) refl

  -- Every call of the open succeeds.
  pub record Opens (io : OpenIo) : Type 0 where
    pub made_ok : io.made ≡ true
    pub opened_ok : io.opened ≡ true
    pub sought_ok : io.sought ≡ true
    pub read_ok : io.read ≡ true
    pub truncated_ok : io.truncated ≡ true
    pub ended_ok : io.ended ≡ true

  keep_limits-within :
      (io : OpenIo) (j : Journal)
      → length j.records ≤ j.max_records
      → j.bytes ≤ j.max_bytes
      → keep_limits C io.rewrite j ≡ (j.file, inr j)
  unfolding keep_limits
  keep_limits-within io j h k = ground arith

  open_journal-reads :
      (io : OpenIo) (path file : Text) (max_records max_bytes : ℕ)
      → Opens io
      → 0 < length path
      → 0 < max_records
      → 0 < max_bytes
      → open_journal C io path file max_records max_bytes
        ≡ open_scanned C io max_records max_bytes file (read_file C file)
  unfolding open_journal
  open_journal-reads io path file max_records max_bytes ok p m b = ground arith

  -- A torn line is cut off, and nothing else.
  open_scanned-cut :
      (io : OpenIo) (max_records max_bytes : ℕ) (good torn : Text) (s : Scanned)
      → Opens io
      → s.good ≡ good
      → s.corrupt ≡ ltb 0 (length torn)
      → open_scanned C io max_records max_bytes (good ++ torn) s
        ≡ keep_limits C io.rewrite (loaded C max_records max_bytes good s)
  unfolding open_scanned
  open_scanned-cut io max_records max_bytes good [] s ok g c = rw append-nil (ground arith)
  open_scanned-cut io max_records max_bytes good (x ∷ xs) s ok g c = ground arith

  -- A journal that was valid when the process ended is read again as it was, from its file with a
  -- torn line behind, which is cut off: the records, their sizes and the limits are the same, the
  -- next cursor follows the last record, and no update counts as dropped. The path and the limits
  -- are not empty, and the calls on the file succeed.
  pub open_journal-recovers :
      (io : OpenIo) (path : Text) (j : Journal) (torn : Text)
      → Opens io
      → 0 < length path
      → 0 < j.max_records
      → 0 < j.max_bytes
      → IsJournal C j
      → All (λ c. c ≢ newline) torn
      → open_journal C io path (j.file ++ torn) j.max_records j.max_bytes
        ≡ (j.file, inr (record j { next_cursor = last_cursor j.records; dropped_updates = 0 }))
  open_journal-recovers io path j torn ok p m b v t =
      let s : Scanned = record {
        records = j.records;
        good = render C j.records;
        last = last_cursor j.records;
        corrupt = ltb 0 (length torn);
      } in
      let back : Journal = loaded C j.max_records j.max_bytes (render C j.records) s in
      let sum = sum_bytes-eq-total j.records in
      let fits : sum_bytes j.records ≡ j.bytes =
        omega (arith, sum, v.counted, v.within, v.representable) in
      let same : back ≡ record j {
        file = render C j.records;
        next_cursor = last_cursor j.records;
        dropped_updates = 0;
      } =
        ground (arith, fits, v.streaming) in
      open_journal-reads io path (j.file ++ torn) j.max_records j.max_bytes ok p m b
      ∙ rw (v.mirrored, read_file-render j.records torn v.written v.rising t)
          (open_scanned-cut io j.max_records j.max_bytes (render C j.records) torn s ok refl refl
            ∙ keep_limits-within io back v.short (omega (arith, fits, v.within))
            ∙ ap (λ x. (render C j.records, inr x)) same)
