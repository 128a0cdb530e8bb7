-- ===== src/EventJournal/Scenes.antt =====
-- A line format of one byte for the phase and one for each step of the cursor, and small journals over
-- it, for concrete runs.
use rv1126_custom_part.Base.{
  ℕ, zero, suc, ◌+◌, ◌==◌, if◌then◌else◌, true, Option, none, some, List, [], ◌∷◌, ◌++◌, length,
  replicate, All, Text, ◌≡◌, ◌≢◌, refl, sym, ap, arith,
}
use rv1126_custom_part.EventEngine.Types.{Phase, Event, zero_event}
use rv1126_custom_part.EventJournal.Types.{
  newline, JournalRecord, LineCodec, Journal, RewriteIo, AppendIo,
}
use rv1126_custom_part.EventJournal.Opening.{OpenIo}
use rv1126_custom_part.EventJournal.Rewriting.{line_of}
use rv1126_custom_part.EventJournal.Invariant.{total, IsWritten, render, IsJournal}

abbrev phase_byte : Phase → ℕ
phase_byte Phase.start = 83
phase_byte Phase.update = 85
phase_byte Phase.end = 69
phase_byte Phase.unset = 48

abbrev byte_phase : ℕ → Phase
byte_phase c = if c == 83 then Phase.start else if c == 85 then Phase.update else Phase.end

abbrev pub event_of : Phase → Event
event_of phase = record zero_event { phase = phase }

-- A run of dots, and the newline.
abbrev dots : ℕ → Text
dots n = replicate n 46 ++ newline ∷ []

abbrev count_dots : Text → Option ℕ
count_dots [] = none
count_dots (c ∷ []) = if c == newline then some 0 else none
count_dots (c ∷ c' ∷ cs) = elim (count_dots (c' ∷ cs)) [ none ↦ none | some n ↦ some (suc n) ]

count_dots-dots : (n : ℕ) → count_dots (dots n) ≡ some n
count_dots-dots zero = refl
count_dots-dots (suc zero) = refl
count_dots-dots (suc (suc n)) = ground (arith, count_dots-dots (suc n))

abbrev pub read_line : Text → Option (ℕ × Event)
read_line [] = none
read_line (c ∷ cs) = elim (count_dots cs) [
  | none ↦ none
  | some n ↦ some (n, event_of (byte_phase c))
]

abbrev pub write_one : ℕ → Event → Option Text
write_one cursor event = some (phase_byte event.phase ∷ dots cursor)

-- The events that carry nothing but their phase.
abbrev pub Plain : Event → Type 0
Plain event = event ≡ event_of (byte_phase (phase_byte event.phase))

pub read_line-write_one :
    (cursor : ℕ) (event : Event) (line : Text)
    → Plain event
    → write_one cursor event ≡ some line
    → read_line line ≡ some (cursor, event)
read_line-write_one cursor event line plain h =
    let same : phase_byte event.phase ∷ dots cursor ≡ line = cc in
    rw (← same) (rw (count_dots-dots cursor, read_line) (ap (λ x. some (cursor, x)) (sym plain)))

dots-whole : (n : ℕ) → All (λ c. c ≢ newline) (replicate n 46)
dots-whole zero = tt
dots-whole (suc n) = (omega arith, dots-whole n)

phase_byte-ne-newline : (phase : Phase) → phase_byte phase ≢ newline
phase_byte-ne-newline Phase.start = omega arith
phase_byte-ne-newline Phase.update = omega arith
phase_byte-ne-newline Phase.end = omega arith
phase_byte-ne-newline Phase.unset = omega arith

pub write_one-whole :
    (cursor : ℕ) (event : Event) (line : Text)
    → write_one cursor event ≡ some line
    → (body : Text) × (line ≡ body ++ newline ∷ []) × All (λ c. c ≢ newline) body
write_one-whole cursor event line h =
    let same : phase_byte event.phase ∷ dots cursor ≡ line = cc in
    (
      phase_byte event.phase ∷ replicate cursor 46,
      sym same,
      (phase_byte-ne-newline event.phase, dots-whole cursor),
    )

abbrev pub dot_codec : LineCodec
dot_codec = record {
  to_line = write_one;
  from_line = read_line;
  Encodable = λ cursor event. Plain event;
  from_line-to_line = read_line-write_one;
  to_line-whole = write_one-whole;
}

-- The record of a plain event under a cursor.
abbrev pub noted : ℕ → Phase → JournalRecord
noted cursor phase = record { cursor = cursor; event = event_of phase; bytes = cursor + 2 }

abbrev pub three_records : List JournalRecord
three_records = noted 1 Phase.start ∷ noted 2 Phase.update ∷ noted 3 Phase.update ∷ []

-- Room for three records, and three are there.
abbrev pub full_journal : Journal
full_journal = record {
  records = three_records;
  file = render dot_codec three_records;
  file_open = true;
  max_records = 3;
  max_bytes = 100;
  bytes = 12;
  next_cursor = 3;
  dropped_updates = 0;
}

noted-IsWritten :
    (cursor : ℕ) (phase : Phase)
    → length (line_of dot_codec (noted cursor phase)) ≡ cursor + 2
    → Plain (event_of phase)
    → IsWritten dot_codec (noted cursor phase)
unfolding line_of
noted-IsWritten cursor phase h plain = record { lined = refl; measured = h; encodable = plain }

pub full_journal-IsJournal : IsJournal dot_codec full_journal
unfolding total line_of
full_journal-IsJournal = record {
  rising = omega arith;
  below = omega arith;
  short = omega arith;
  narrow = omega arith;
  counted = refl;
  within = omega arith;
  representable = omega arith;
  written = (
    noted-IsWritten 1 Phase.start refl refl,
    (noted-IsWritten 2 Phase.update refl refl, (noted-IsWritten 3 Phase.update refl refl, tt)),
  );
  mirrored = refl;
  streaming = refl;
}

-- Every call on the file succeeds.
abbrev pub good_rewrite : RewriteIo
good_rewrite = record {
  opened = true;
  streamed = true;
  writes = 100;
  flushed = true;
  synced = true;
  closed = true;
  renamed = true;
  reopened = true;
  placed = true;
}

abbrev pub good_append : AppendIo
good_append = record {
  rewrite = good_rewrite;
  sought = true;
  told = true;
  written = true;
  flushed = true;
  synced = true;
  partial = 0;
  truncated = true;
}

abbrev pub good_open : OpenIo
good_open = record {
  made = true;
  opened = true;
  sought = true;
  read = true;
  truncated = true;
  ended = true;
  rewrite = good_rewrite;
}
