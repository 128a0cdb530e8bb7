-- ===== src/EventCodec/RoundTrip.antt =====
-- What has been written is read back.
use rv1126_custom_part.Base.{
  ℕ, ◌≤◌, ◌<◌, pos, true, some, inr, List, [], ◌∷◌, map, length, length-map, All, Text, codes,
  text_eq, ◌≡◌, ◌≢◌, refl, arith,
}
use rv1126_custom_part.Observation.Types.{channel_id_max, rule_id_max, ClockState, Timebase}
use rv1126_custom_part.Observation.Names.{rule_type_name, clock_state_name}
use rv1126_custom_part.Observation.Validate.{valid_rule_type}
use rv1126_custom_part.EventEngine.Types.{event_id_max, event_max_tracks, Phase, Reason, Event}
use rv1126_custom_part.EventEngine.Names.{phase_name, reason_name}
use rv1126_custom_part.EventEngine.Timeline.{uint32_max}
use rv1126_custom_part.EventCodec.Json.{JsonLib, safe_integer, magnitude, find_member}
use rv1126_custom_part.EventCodec.Fields.{
  read_u64-number, read_u32-number, read_i64-number, read_bool-boolean, read_name-text,
  read_text-text,
}
use rv1126_custom_part.EventCodec.Parse.{
  parse_rule_type-rule_type_name, parse_phase-phase_name, parse_reason-reason_name,
  parse_clock_state-clock_state_name,
}
use rv1126_custom_part.EventCodec.Encode.{
  json_nat, timebase_json, tracks_json, event_members, to_json,
}
use rv1126_custom_part.EventCodec.Decode.{
  evidence_id_max, phase_max, check_identity, read_identity, read_kinds, read_timing, read_ratio,
  read_timebase, read_payload, read_id, read_ids, read_tracks, from_json,
}

-- The records that fit: texts and 32-bit fields as their types have them, 64-bit fields and times
-- within what a double holds, names that exist, and no identity that is zero or empty.
pub record IsEncodable (e : Event) : Type 0 where
  pub version_above : 0 < e.contract_version
  pub version_fits : e.contract_version ≤ uint32_max
  pub event_id_above : 0 < length e.event_id
  pub event_id_fits : length e.event_id < event_id_max
  pub channel_id_above : 0 < length e.channel_id
  pub channel_id_fits : length e.channel_id < channel_id_max
  pub epoch_above : 0 < e.stream_epoch
  pub epoch_fits : e.stream_epoch ≤ safe_integer
  pub rule_type_valid : valid_rule_type e.event_type ≡ true
  pub rule_id_fits : length e.rule_id < rule_id_max
  pub phase_set : e.phase ≢ Phase.unset
  pub seq_above : 0 < e.event_seq
  pub seq_fits : e.event_seq ≤ safe_integer
  pub reason_known : e.reason ≢ Reason.other
  pub time_fits : magnitude e.event_time_us ≤ safe_integer
  pub clock_known : e.clock_state ≢ ClockState.other
  pub pts_fits : magnitude e.source_pts ≤ safe_integer
  pub num_fits : e.source_timebase.num ≤ uint32_max
  pub den_fits : e.source_timebase.den ≤ uint32_max
  pub frame_above : 0 < e.frame_id
  pub frame_fits : e.frame_id ≤ safe_integer
  pub person_fits : e.person_count ≤ uint32_max
  pub delta_in_fits : e.delta_in ≤ uint32_max
  pub delta_out_fits : e.delta_out ≤ uint32_max
  pub config_fits : e.config_version ≤ safe_integer
  pub evidence_id_fits : length e.evidence_id < evidence_id_max
  pub track_count_fits : length e.responsible_track_ids ≤ event_max_tracks
  pub ids_fit : All (λ id. id ≤ safe_integer) e.responsible_track_ids

length-phase_name : (p : Phase) → length (phase_name p) < phase_max
unfolding phase_name
length-phase_name Phase.unset = omega arith
length-phase_name Phase.start = omega arith
length-phase_name Phase.update = omega arith
length-phase_name Phase.end = omega arith

module _ (J : JsonLib) where
  open J use {
    Json, of_int, text, number, boolean, array, object, member, elements, is_object,
    integral-of_int, as_number-number, elements-array, is_object-object, member-object,
  }

  read_ids-map :
      (ids : List ℕ)
      → All (λ id. id ≤ safe_integer) ids
      → read_ids J (map (json_nat J) ids) ≡ some ids
  unfolding read_ids read_id
  read_ids-map [] fit = refl
  read_ids-map (id ∷ ids) fit = ground (
    arith,
    fit.0,
    read_ids-map ids fit.1,
    as_number-number (of_int (pos id)),
    integral-of_int (pos id) (omega arith),
  )

  read_ratio-timebase :
      (t : Timebase)
      → t.num ≤ uint32_max
      → t.den ≤ uint32_max
      → read_ratio J (timebase_json J t) ≡ some t
  unfolding read_ratio timebase_json find_member text_eq
  read_ratio-timebase t h k = rw (
    read_u32-number J (timebase_json J t) (codes "num") t.num (member-object _ _) h,
    read_u32-number J (timebase_json J t) (codes "den") t.den (member-object _ _) k,
  )

  module _ (e : Event) (ok : IsEncodable e) where
    document : Json
    document = object (event_members J e)

    at : (key : Text) → member key document ≡ find_member key (event_members J e)
    unfolding document
    at key = member-object key (event_members J e)

    read_identity-document :
        read_identity J document
        ≡ some (record {
          contract_version = e.contract_version;
          event_id = e.event_id;
          channel_id = e.channel_id;
          stream_epoch = e.stream_epoch;
          rule_id = e.rule_id;
        })
    unfolding read_identity event_members find_member text_eq
    read_identity-document = rw (
      read_u32-number J document (codes "contract_version") e.contract_version
          (at (codes "contract_version")) ok.version_fits,
      read_text-text J document (codes "event_id") e.event_id event_id_max (at (codes "event_id"))
          ok.event_id_fits,
      read_text-text J document (codes "channel_id") e.channel_id channel_id_max
          (at (codes "channel_id")) ok.channel_id_fits,
      read_u64-number J document (codes "stream_epoch") e.stream_epoch (at (codes "stream_epoch"))
          ok.epoch_fits,
      read_text-text J document (codes "rule_id") e.rule_id rule_id_max (at (codes "rule_id"))
          ok.rule_id_fits,
      read_text-text J document (codes "phase") (phase_name e.phase) phase_max (at (codes "phase"))
          (length-phase_name e.phase),
    )

    read_kinds-document :
        read_kinds J document
        ≡ inr (record {
          event_type = e.event_type;
          phase = e.phase;
          reason = e.reason;
          clock_state = e.clock_state;
        })
    unfolding read_kinds event_members find_member text_eq
    read_kinds-document = ground (
      arith,
      read_name-text J document (codes "event_type") (rule_type_name e.event_type)
          (at (codes "event_type")),
      read_name-text J document (codes "phase") (phase_name e.phase) (at (codes "phase")),
      read_name-text J document (codes "reason") (reason_name e.reason) (at (codes "reason")),
      read_name-text J document (codes "clock_state") (clock_state_name e.clock_state)
          (at (codes "clock_state")),
      parse_rule_type-rule_type_name e.event_type ok.rule_type_valid,
      parse_phase-phase_name e.phase ok.phase_set,
      parse_reason-reason_name e.reason ok.reason_known,
      parse_clock_state-clock_state_name e.clock_state ok.clock_known,
    )

    read_timing-document :
        read_timing J document
        ≡ some (record {
          event_seq = e.event_seq;
          event_time_us = e.event_time_us;
          source_pts_valid = e.source_pts_valid;
          source_pts = e.source_pts;
        })
    unfolding read_timing event_members find_member text_eq
    read_timing-document = rw (
      read_u64-number J document (codes "event_seq") e.event_seq (at (codes "event_seq"))
          ok.seq_fits,
      read_i64-number J document (codes "event_time_us") e.event_time_us
          (at (codes "event_time_us")) ok.time_fits,
      read_bool-boolean J document (codes "source_pts_valid") e.source_pts_valid
          (at (codes "source_pts_valid")),
      read_i64-number J document (codes "source_pts") e.source_pts (at (codes "source_pts"))
          ok.pts_fits,
    )

    read_timebase-document : read_timebase J document ≡ some e.source_timebase
    unfolding read_timebase event_members find_member text_eq timebase_json
    read_timebase-document = rw (
      at (codes "source_timebase"),
      is_object-object,
      read_ratio-timebase e.source_timebase ok.num_fits ok.den_fits,
    )

    read_payload-document :
        read_payload J document
        ≡ some (record {
          source_timebase = e.source_timebase;
          frame_id = e.frame_id;
          person_count = e.person_count;
          delta_in = e.delta_in;
          delta_out = e.delta_out;
          config_version = e.config_version;
          evidence_id = e.evidence_id;
          track_count = length e.responsible_track_ids;
        })
    unfolding read_payload event_members find_member text_eq
    read_payload-document = rw (
      read_timebase-document,
      read_u64-number J document (codes "frame_id") e.frame_id (at (codes "frame_id"))
          ok.frame_fits,
      read_u32-number J document (codes "person_count") e.person_count (at (codes "person_count"))
          ok.person_fits,
      read_u32-number J document (codes "delta_in") e.delta_in (at (codes "delta_in"))
          ok.delta_in_fits,
      read_u32-number J document (codes "delta_out") e.delta_out (at (codes "delta_out"))
          ok.delta_out_fits,
      read_u64-number J document (codes "config_version") e.config_version
          (at (codes "config_version")) ok.config_fits,
      read_text-text J document (codes "evidence_id") e.evidence_id evidence_id_max
          (at (codes "evidence_id")) ok.evidence_id_fits,
      read_u32-number J document (codes "responsible_track_count") (length e.responsible_track_ids)
          (at (codes "responsible_track_count")) few,
    )
      where
        few : length e.responsible_track_ids ≤ uint32_max
        few = let h = ok.track_count_fits in omega arith

    read_tracks-document :
        read_tracks J document (length e.responsible_track_ids) ≡ inr e.responsible_track_ids
    unfolding read_tracks event_members find_member text_eq tracks_json
    read_tracks-document = ground (
      arith,
      at (codes "responsible_track_ids"),
      elements-array (map (json_nat J) e.responsible_track_ids),
      length-map (json_nat J) e.responsible_track_ids,
      read_ids-map e.responsible_track_ids ok.ids_fit,
      ok.track_count_fits,
    )

    check_identity-same : check_identity e ≡ inr e
    unfolding check_identity
    check_identity-same = ground (
      arith, ok.version_above, ok.event_id_above, ok.channel_id_above, ok.epoch_above, ok.seq_above,
      ok.frame_above,
    )

  -- A record that fits (its texts and 32-bit fields fit their types, the 64-bit fields and times are
  -- within 2^53 - 1, the names exist, no identity is zero or empty, at most sixteen tracks) is written
  -- as a document, and that document is read back as the same record.
  pub from_json-to_json :
      (e : Event)
      → IsEncodable e
      → (document : Json) × (to_json J e ≡ some document) × (from_json J document ≡ inr e)
  unfolding from_json to_json document
  from_json-to_json e ok = (
    document e ok,
    ground (arith, ok.track_count_fits),
    rw
        (
          is_object-object,
          read_identity-document e ok,
          read_kinds-document e ok,
          read_timing-document e ok,
          read_payload-document e ok,
          read_tracks-document e ok,
        )
        (check_identity-same e ok),
  )
