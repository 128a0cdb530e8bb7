-- ===== src/EventCodec/Encode.antt =====
-- Writing, media_engine/src/analytics/event_codec.c. That an allocation fails is not modelled.
use rv1126_custom_part.Base.{
  ℕ, ℤ, pos, ltb, if◌then◌else◌, Option, none, some, List, [], ◌∷◌, map, length, Text, codes,
}
use rv1126_custom_part.Observation.Types.{Timebase}
use rv1126_custom_part.Observation.Names.{rule_type_name, clock_state_name}
use rv1126_custom_part.EventEngine.Types.{event_max_tracks, Event}
use rv1126_custom_part.EventEngine.Names.{phase_name, reason_name}
use rv1126_custom_part.EventCodec.Json.{JsonLib}

module _ (J : JsonLib) where
  open J use {Json, of_int, text, number, boolean, array, object}

  -- (double) of an integer.
  abbrev pub json_int : ℤ → Json
  json_int z = number (of_int z)

  abbrev pub json_nat : ℕ → Json
  json_nat n = json_int (pos n)

  unfoldable pub timebase_json : Timebase → Json
  timebase_json t = object ((codes "num", json_nat t.num) ∷ (codes "den", json_nat t.den) ∷ [])

  unfoldable pub tracks_json : List ℕ → Json
  tracks_json ids = array (map json_nat ids)

  -- The members in the order in which they are added.
  unfoldable pub event_members : Event → List (Text × Json)
  unfolding timebase_json tracks_json
  event_members e =
      (codes "contract_version", json_nat e.contract_version)
      ∷ (codes "event_id", text e.event_id)
      ∷ (codes "channel_id", text e.channel_id)
      ∷ (codes "stream_epoch", json_nat e.stream_epoch)
      ∷ (codes "event_type", text (rule_type_name e.event_type))
      ∷ (codes "rule_id", text e.rule_id)
      ∷ (codes "phase", text (phase_name e.phase))
      ∷ (codes "event_seq", json_nat e.event_seq)
      ∷ (codes "reason", text (reason_name e.reason))
      ∷ (codes "event_time_us", json_int e.event_time_us)
      ∷ (codes "clock_state", text (clock_state_name e.clock_state))
      ∷ (codes "source_pts_valid", boolean e.source_pts_valid)
      ∷ (codes "source_pts", json_int e.source_pts)
      ∷ (codes "source_timebase", timebase_json e.source_timebase)
      ∷ (codes "frame_id", json_nat e.frame_id)
      ∷ (codes "person_count", json_nat e.person_count)
      ∷ (codes "delta_in", json_nat e.delta_in)
      ∷ (codes "delta_out", json_nat e.delta_out)
      ∷ (codes "config_version", json_nat e.config_version)
      ∷ (codes "evidence_id", text e.evidence_id)
      ∷ (codes "responsible_track_count", json_nat (length e.responsible_track_ids))
      ∷ (codes "responsible_track_ids", tracks_json e.responsible_track_ids)
      ∷ []

  -- me_analytics_event_to_json; none for NULL
  unfoldable pub to_json : Event → Option Json
  unfolding event_members
  to_json e =
      if ltb event_max_tracks (length e.responsible_track_ids)
      then none
      else some (object (event_members e))
