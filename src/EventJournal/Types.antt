-- ===== src/EventJournal/Types.antt =====
-- The state of the journal, media_engine/src/analytics/event_journal.c, and its two interfaces: the
-- format of a line, and how each call on the file comes out.
use rv1126_custom_part.Base.{
  ℕ, ◌+◌, ◌-◌, ◌%◌, ◌^◌, Bool, true, false, Option, some, List, [], ◌∷◌, ◌++◌, All, Text, ◌≡◌, ◌≢◌,
}
use rv1126_custom_part.EventEngine.Types.{Phase, Event}

abbrev pub newline : ℕ
newline = 10

pub record JournalRecord : Type 0 where
  pub cursor : ℕ
  pub event : Event
  pub bytes : ℕ

-- The text of a line, with its newline, and back. An event that is `Encodable` with its cursor can
-- be read again.
pub record LineCodec : Type 1 where
  pub to_line : ℕ → Event → Option Text
  pub from_line : Text → Option (ℕ × Event)
  pub Encodable : ℕ → Event → Type 0
  pub from_line-to_line :
      (cursor : ℕ) (event : Event) (line : Text)
      → Encodable cursor event
      → to_line cursor event ≡ some line
      → from_line line ≡ some (cursor, event)
  pub to_line-whole :
      (cursor : ℕ) (event : Event) (line : Text)
      → to_line cursor event ≡ some line
      → (body : Text) × (line ≡ body ++ newline ∷ []) × All (λ c. c ≢ newline) body

-- `file` is what the file under the journal's path holds, `file_open` whether the stream is there.
pub record Journal : Type 0 where
  pub records : List JournalRecord
  pub file : Text
  pub file_open : Bool
  pub max_records : ℕ
  pub max_bytes : ℕ
  pub bytes : ℕ
  pub next_cursor : ℕ
  pub dropped_updates : ℕ

-- How the calls of a rewrite come out: open, fdopen, how many times fwrite succeeds, fflush, fsync,
-- fclose, rename, fopen of the new file, fseek there.
pub record RewriteIo : Type 0 where
  pub opened : Bool
  pub streamed : Bool
  pub writes : ℕ
  pub flushed : Bool
  pub synced : Bool
  pub closed : Bool
  pub renamed : Bool
  pub reopened : Bool
  pub placed : Bool

-- How the calls of an append come out; `partial` bytes are in the file when the write fails.
pub record AppendIo : Type 0 where
  pub rewrite : RewriteIo
  pub sought : Bool
  pub told : Bool
  pub written : Bool
  pub flushed : Bool
  pub synced : Bool
  pub partial : ℕ
  pub truncated : Bool

pub data JournalError : Type 0 where
  invalid_phase cursor_exhausted unserializable over_limit boundaries_protected : JournalError
  rewrite_failed append_failed : JournalError

-- A sum and a difference of two uint64_t.
abbrev pub add_u64 : ℕ → ℕ → ℕ
add_u64 a b = (a + b) % 2 ^ 64

abbrev pub sub_u64 : ℕ → ℕ → ℕ
sub_u64 a b = (a + 2 ^ 64 - b) % 2 ^ 64

-- A uint32_t length and one more.
abbrev pub one_more : ℕ → ℕ
one_more n = (n + 1) % 2 ^ 32

abbrev pub is_update : Phase → Bool
is_update Phase.update = true
is_update _ = false
