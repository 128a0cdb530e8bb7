-- ===== src/EventJournal/Invariant.antt =====
-- What holds of a journal between two calls of media_engine/src/analytics/event_journal.c.
use rv1126_custom_part.Base.{
  ℕ, ◌+◌, ◌%◌, ◌^◌, ◌≤◌, ◌<◌, true, if◌then◌else◌, some, List, [], ◌∷◌, ◌++◌, length, All, Text,
  ◌≡◌, refl, arith,
}
use mathlib.Core.List.{append_assoc}
use rv1126_custom_part.EventEngine.Timeline.{uint32_max}
use rv1126_custom_part.EventJournal.Types.{JournalRecord, LineCodec, Journal, is_update}
use rv1126_custom_part.EventJournal.Rewriting.{line_of}
use rv1126_custom_part.EventJournal.Compaction.{sum_bytes}

-- The cursors rise, and all are above the number.
abbrev pub Rising : ℕ → List JournalRecord → Type 0
Rising n [] = Unit
Rising n (r ∷ rs) = (n < r.cursor) × Rising r.cursor rs

-- No cursor is above the number.
abbrev pub Below : ℕ → List JournalRecord → Type 0
Below n = All (λ r. r.cursor ≤ n)

-- The bytes of all records, in no machine width.
unfoldable pub total : List JournalRecord → ℕ
total [] = 0
total (r ∷ rs) = r.bytes + total rs

-- The records that begin or end an event.
unfoldable pub boundaries : List JournalRecord → List JournalRecord
boundaries [] = []
boundaries (r ∷ rs) = let rest = boundaries rs in if is_update r.event.phase then rest else r ∷ rest

pub sum_bytes-eq-total : (rs : List JournalRecord) → sum_bytes rs ≡ total rs % 2 ^ 64
unfolding sum_bytes total
sum_bytes-eq-total [] = refl
sum_bytes-eq-total (r ∷ rs) = omega (arith, sum_bytes-eq-total rs)

pub Rising-le : (m n : ℕ) (rs : List JournalRecord) → m ≤ n → Rising n rs → Rising m rs
Rising-le m n [] h v = tt
Rising-le m n (r ∷ rs) h v = (omega arith, v.1)

pub Rising-snoc :
    (n m : ℕ) (rs : List JournalRecord) (r : JournalRecord)
    → Rising n rs
    → Below m rs
    → n ≤ m
    → m < r.cursor
    → Rising n (rs ++ r ∷ [])
Rising-snoc n m [] r v b h k = (omega arith, tt)
Rising-snoc n m (x ∷ xs) r v b h k = (v.0, Rising-snoc x.cursor m xs r v.1 b.1 b.0 k)

pub Below-le : (m n : ℕ) (rs : List JournalRecord) → m ≤ n → Below m rs → Below n rs
Below-le m n [] h v = tt
Below-le m n (r ∷ rs) h v = (omega arith, Below-le m n rs h v.1)

pub total-append : (xs ys : List JournalRecord) → total (xs ++ ys) ≡ total xs + total ys
unfolding total
total-append [] ys = omega arith
total-append (x ∷ xs) ys = omega (arith, total-append xs ys)

pub boundaries-append :
    (xs ys : List JournalRecord) → boundaries (xs ++ ys) ≡ boundaries xs ++ boundaries ys
unfolding boundaries
boundaries-append [] ys = refl
boundaries-append (x ∷ xs) ys = ground (arith, boundaries-append xs ys)

module _ (C : LineCodec) where
  open C use {to_line, Encodable}

  -- The record has a line that can be read again, of the size that it notes.
  pub record IsWritten (r : JournalRecord) : Type 0 where
    pub lined : to_line r.cursor r.event ≡ some (line_of C r)
    pub measured : length (line_of C r) ≡ r.bytes
    pub encodable : Encodable r.cursor r.event

  -- The lines of the records, one after the other.
  unfoldable pub render : List JournalRecord → Text
  render [] = []
  render (r ∷ rs) = line_of C r ++ render rs

  pub record IsJournal (j : Journal) : Type 0 where
    pub rising : Rising 0 j.records
    pub below : Below j.next_cursor j.records
    pub short : length j.records ≤ j.max_records
    pub narrow : j.max_records < uint32_max
    pub counted : j.bytes ≡ total j.records
    pub within : j.bytes ≤ j.max_bytes
    pub representable : j.max_bytes < 2 ^ 64
    pub written : All IsWritten j.records
    pub mirrored : j.file ≡ render j.records
    pub streaming : j.file_open ≡ true

  pub render-append : (xs ys : List JournalRecord) → render (xs ++ ys) ≡ render xs ++ render ys
  unfolding render
  render-append [] ys = refl
  render-append (x ∷ xs) ys = simp (render-append xs ys, append_assoc)
