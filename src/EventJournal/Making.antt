-- ===== src/EventJournal/Making.antt =====
-- How making room comes out, and what it and a new line keep of a valid journal, in
-- media_engine/src/analytics/event_journal.c.
use rv1126_custom_part.Base.{
  ℕ, ◌+◌, ◌≤◌, true, false, ◌&&◌, ltb, some, List, [], ◌∷◌, ◌++◌, length, length-append, All-snoc,
  Text, ◌≡◌, refl, ap, arith, Bool-cases, inl, inr,
}
use mathlib.Core.List.{append-nil}
use rv1126_custom_part.EventEngine.Types.{Phase, Event}
use rv1126_custom_part.EventJournal.Types.{
  JournalRecord, LineCodec, Journal, RewriteIo, JournalError, over_limit, boundaries_protected,
  rewrite_failed, add_u64, is_update,
}
use rv1126_custom_part.EventJournal.Rewriting.{line_of}
use rv1126_custom_part.EventJournal.Compaction.{
  has_room, sum_bytes, Squeezed, squeezed, protected, unfinished, Room, room, update_dropped,
  no_room, drop_update, after_squeeze, compact_to_fit,
}
use rv1126_custom_part.EventJournal.Invariant.{
  total, sum_bytes-eq-total, Rising-snoc, Below-le, total-append, IsWritten, render, render-append,
  IsJournal,
}
use rv1126_custom_part.EventJournal.Thinning.{Thinned, squeeze-Thinned}
use rv1126_custom_part.EventJournal.Stored.{rewrite-cases}

module _ (C : LineCodec) where
  open C use {to_line, Encodable}

  -- The file and the journal after some updates have made room.
  abbrev pub compacted : Journal → List JournalRecord → Journal
  compacted j keep = record j {
    records = keep;
    file = render C keep;
    file_open = true;
    bytes = total keep;
  }

  abbrev pub HasRoom : Journal → ℕ → Type 0
  HasRoom j incoming = has_room j.max_records j.max_bytes (length j.records) j.bytes incoming ≡ true

  -- The five ways in which making room comes out.
  pub data Makes (io : RewriteIo) (j : Journal) (incoming : ℕ) (phase : Phase) (r : Journal × Room)
      : Type 0 where
    had_room : r ≡ (j, room) → HasRoom j incoming → Makes io j incoming phase r
    drops :
        r ≡ (drop_update j, update_dropped) → is_update phase ≡ true → Makes io j incoming phase r
    refuses : (error : JournalError) → r ≡ (j, no_room error) → Makes io j incoming phase r
    loses :
        (keep : List JournalRecord)
        → r ≡ (record j { file = render C keep; file_open = io.reopened }, no_room rewrite_failed)
        → io.reopened && io.placed ≡ false
        → Makes io j incoming phase r
    makes :
        (keep : List JournalRecord)
        → r ≡ (compacted j keep, room)
        → Thinned C j.records keep
        → HasRoom (compacted j keep) incoming
        → Makes io j incoming phase r

  after_squeeze-Makes :
      (io : RewriteIo) (j : Journal) (incoming : ℕ) (phase : Phase) (s : Squeezed)
      → IsJournal C j
      → ((keep : List JournalRecord)
          → s ≡ squeezed keep
          → Thinned C j.records keep × HasRoom (compacted j keep) incoming)
      → Makes io j incoming phase (after_squeeze C io j phase s)
  after_squeeze-Makes io j incoming phase (squeezed keep) v h =
      let (thin, roomy) = h keep refl in
      elim (rewrite-cases C io j keep v.written (thin.lines v.written)) [
        | inl e ↦ refuses rewrite_failed (rw e)
        | inr (inl (e, gone)) ↦ loses keep (rw e) gone
        | inr (inr (w, e, all, sum)) ↦
            makes keep
              (ground (arith, e, all, sum, thin.lighter, v.counted, v.within, v.representable)) thin
              roomy
      ]
  after_squeeze-Makes io j incoming phase protected v h = elim (Bool-cases (is_update phase)) [
    | inl update ↦ drops (rw update) update
    | inr boundary ↦ refuses boundaries_protected (rw boundary)
  ]
  after_squeeze-Makes io j incoming phase unfinished v h = refuses boundaries_protected refl

  pub compact_to_fit-Makes :
      (io : RewriteIo) (j : Journal) (incoming : ℕ) (phase : Phase)
      → IsJournal C j
      → Makes io j incoming phase (compact_to_fit C io j incoming phase)
  unfolding compact_to_fit
  compact_to_fit-Makes io j incoming phase v =
      elim (Bool-cases (has_room j.max_records j.max_bytes (length j.records) j.bytes incoming)) [
        | inl fits ↦ had_room (rw (fits, compact_to_fit)) fits
        | inr full ↦ elim (Bool-cases (ltb j.max_bytes incoming)) [
          | inl wide ↦ elim (Bool-cases (is_update phase)) [
            | inl update ↦ drops (rw (full, wide, update, compact_to_fit)) update
            | inr boundary ↦ refuses over_limit (rw (full, wide, boundary, compact_to_fit))
          ]
          | inr fair ↦
              rw (full, fair, compact_to_fit)
                (after_squeeze-Makes io j incoming phase _ v (λ keep e.
                  squeeze-Thinned C _ j.max_records j.max_bytes incoming j.records keep
                    (sum_bytes j.records)
                    (omega
                      (arith, sum_bytes-eq-total j.records, v.counted, v.within, v.representable))
                    (omega (arith, v.counted, v.within, v.representable)) e))
        ]
      ]

  pub compacted-IsJournal :
      (j : Journal) (keep : List JournalRecord)
      → IsJournal C j
      → Thinned C j.records keep
      → IsJournal C (compacted j keep)
  compacted-IsJournal j keep v thin = record {
    rising = thin.rises 0 v.rising;
    below = thin.stays j.next_cursor v.below;
    short = omega (arith, thin.shorter, v.short);
    narrow = v.narrow;
    counted = refl;
    within = omega (arith, thin.lighter, v.counted, v.within);
    representable = v.representable;
    written = thin.lines v.written;
    mirrored = refl;
    streaming = refl;
  }

  pub drop_update-IsJournal : (j : Journal) → IsJournal C j → IsJournal C (drop_update j)
  drop_update-IsJournal j v = record {
    rising = v.rising;
    below = v.below;
    short = v.short;
    narrow = v.narrow;
    counted = v.counted;
    within = v.within;
    representable = v.representable;
    written = v.written;
    mirrored = v.mirrored;
    streaming = v.streaming;
  }

  abbrev pub new_record : ℕ → Event → Text → JournalRecord
  new_record cursor event line = record { cursor = cursor; event = event; bytes = length line }

  -- The journal with one more record at its end.
  abbrev pub extended : Journal → Event → Text → Journal
  extended j event line = record j {
    records = j.records ++ new_record (j.next_cursor + 1) event line ∷ [];
    file = j.file ++ line;
    bytes = add_u64 j.bytes (length line);
    next_cursor = j.next_cursor + 1;
  }

  new_record-IsWritten :
      (cursor : ℕ) (event : Event) (line : Text)
      → to_line cursor event ≡ some line
      → Encodable cursor event
      → IsWritten C (new_record cursor event line)
        × (line_of C (new_record cursor event line) ≡ line)
  unfolding line_of
  new_record-IsWritten cursor event line h e =
      let same : line_of C (new_record cursor event line) ≡ line = ground (arith, h) in
      (record { lined = rw same h; measured = ap length same; encodable = e }, same)

  pub extended-IsJournal :
      (j : Journal) (event : Event) (line : Text)
      → IsJournal C j
      → HasRoom j (length line)
      → to_line (j.next_cursor + 1) event ≡ some line
      → Encodable (j.next_cursor + 1) event
      → IsJournal C (extended j event line)
  unfolding total render
  extended-IsJournal j event line v roomy lined e =
      let r = new_record (j.next_cursor + 1) event line in
      let (written, text) = new_record-IsWritten (j.next_cursor + 1) event line lined e in
      let fits : (length j.records + 1 ≤ j.max_records) × (j.bytes + length line ≤ j.max_bytes) =
        ground (arith, roomy, v.short, v.narrow, v.within) in
      record {
        rising =
            Rising-snoc 0 j.next_cursor j.records r v.rising v.below (omega arith) (omega arith);
        below = (All-snoc (λ x. x.cursor ≤ j.next_cursor + 1) j.records r).1 (
          Below-le j.next_cursor (j.next_cursor + 1) j.records (omega arith) v.below,
          omega arith,
        );
        short = omega (arith, length-append j.records (r ∷ []), fits);
        narrow = v.narrow;
        counted = omega (arith, total-append j.records (r ∷ []), v.counted, fits, v.representable);
        within = omega (arith, fits, v.representable);
        representable = v.representable;
        written = (All-snoc (IsWritten C) j.records r).1 (v.written, written);
        mirrored = rw (render-append C j.records (r ∷ [])) (rw (text, v.mirrored, append-nil) refl);
        streaming = v.streaming;
      }
