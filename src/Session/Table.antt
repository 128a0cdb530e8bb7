-- ===== src/Session/Table.antt =====
-- The data of media_engine/src/session/session.h and session_mgr.h, and what session_mgr.c uses of
-- GLib's hash table and of the media backend, neither of which is part of the program.
use rv1126_custom_part.Base.{ℕ, ◌+◌, ℤ, Option, none, some, List, Text, text_eq, if◌then◌else◌, ◌≡◌}

pub record SessionParams : Type 0 where
  pub session_id : Text
  pub channel_id : Text
  pub codec : Text
  pub width : ℤ
  pub height : ℤ
  pub fps : ℤ
  pub bitrate : ℤ
  pub dest_ip : Text
  pub dest_port : ℤ
  pub ssrc : ℕ
  pub payload_type : ℤ

pub record MediaSession : Type 0 where
  pub params : SessionParams
  pub last_activity_us : ℤ

-- GHashTable from session identifiers to sessions, with its documented behaviour. `first` is the
-- first step of an iteration, `keys` a whole one.
pub record SessionTable : Type 1 where
  pub Table : Type 0
  pub empty : Table
  pub lookup : Text → Table → Option MediaSession
  pub insert : Text → MediaSession → Table → Table
  pub remove : Text → Table → Table
  pub size : Table → ℕ
  pub first : Table → Option (Text × MediaSession)
  pub keys : Table → List Text
  pub size-empty : size empty ≡ 0
  pub lookup-insert :
      (j k : Text) (s : MediaSession) (t : Table)
      → lookup j (insert k s t) ≡ (if text_eq k j then some s else lookup j t)
  pub lookup-remove :
      (j k : Text) (t : Table) → lookup j (remove k t) ≡ (if text_eq k j then none else lookup j t)
  pub size-insert_new :
      (k : Text) (s : MediaSession) (t : Table)
      → lookup k t ≡ none
      → size (insert k s t) ≡ size t + 1
  pub size-insert_old :
      (k : Text) (s old : MediaSession) (t : Table)
      → lookup k t ≡ some old
      → size (insert k s t) ≡ size t
  pub size-remove :
      (k : Text) (old : MediaSession) (t : Table)
      → lookup k t ≡ some old
      → size t ≡ size (remove k t) + 1
  pub lookup-zero : (k : Text) (t : Table) → size t ≡ 0 → lookup k t ≡ none
  pub first-some :
      (k : Text) (s : MediaSession) (t : Table) → first t ≡ some (k, s) → lookup k t ≡ some s
  pub first-none : (k : Text) (t : Table) → first t ≡ none → lookup k t ≡ none

-- The media plane: its own state, and calls that return a code.
pub record LiveBackend : Type 1 where
  pub State : Type 0
  pub start_live : State → SessionParams → State × ℤ
  pub stop_live : State → Text → State × ℤ
