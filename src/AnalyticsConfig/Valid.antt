-- ===== src/AnalyticsConfig/Valid.antt =====
-- What media_engine/src/analytics/config.c accepts.
use rv1126_custom_part.Base.{
  ◌%◌, ◌≤◌, ◌<◌, ℤ, pos, pos_part, ◌≤ℤ◌, true, none, ◌≡◌, ◌≢◌, ◌↔◌, ◌⊎◌, refl, arith, codes,
  text_case_eq, bounded_string,
}
use rv1126_custom_part.Observation.Types.{RuleType}
use rv1126_custom_part.Observation.Valid.{Fits, orelse-none}
use rv1126_custom_part.AnalyticsConfig.Settings.{
  AnalyticsConfig, config_defaults, evidence_mode_valid, check_source, check_region, check_rule,
  check_storage, config_validate,
}

-- A side of the frame is absent, or positive and even.
abbrev pub EvenSide : ℤ → Type 0
EvenSide side = (pos 0 ≤ℤ side) × (pos_part side % 2 ≡ 0)

pub record IsSourced (c : AnalyticsConfig) : Type 0 where
  pub backend_fits : Fits 32 c.backend
  pub backend_known : c.enabled ≡ true → text_case_eq c.backend (codes "rockiva") ≡ true
  pub width_even : EvenSide c.width
  pub height_even : EvenSide c.height
  pub fps_nonneg : pos 0 ≤ℤ c.fps
  pub runnable : c.enabled ≡ true → (pos 2 ≤ℤ c.width) × (pos 2 ≤ℤ c.height) × (pos 1 ≤ℤ c.fps)

pub record IsMeasured (c : AnalyticsConfig) : Type 0 where
  pub threshold : c.score_threshold_q ≤ 10000
  pub confirm_frames_pos : 0 < c.confirm_frames
  pub confirm_ms_pos : 0 < c.confirm_ms
  pub update_interval_pos : 0 < c.update_interval_ms
  pub region :
      c.roi_enabled ≡ true
      → (c.roi.left < c.roi.right)
        × (c.roi.top < c.roi.bottom)
        × (c.roi.right ≤ 10000)
        × (c.roi.bottom ≤ 10000)

pub record IsRuled (c : AnalyticsConfig) : Type 0 where
  pub line :
      c.line_enabled ≡ true
      → (c.line_x1 ≤ 10000)
        × (c.line_y1 ≤ 10000)
        × (c.line_x2 ≤ 10000)
        × (c.line_y2 ≤ 10000)
        × ((c.line_x1 ≢ c.line_x2) ⊎ (c.line_y1 ≢ c.line_y2))
  pub rule_named : Fits 64 c.rule_id
  pub rule_typed : (c.rule_type ≢ RuleType.unknown) × (c.rule_type ≢ RuleType.other)

pub record IsStored (c : AnalyticsConfig) : Type 0 where
  pub mode : evidence_mode_valid c.evidence_mode ≡ true
  pub max_bytes_pos : 0 < c.evidence_max_bytes
  pub retention_pos : 0 < c.evidence_retention_s
  pub quality_low : 1 ≤ c.evidence_jpeg_quality
  pub quality_high : c.evidence_jpeg_quality ≤ 100
  pub log_records_pos : 0 < c.event_log_max_records
  pub log_bytes_pos : 0 < c.event_log_max_bytes
  pub log_path_fits : Fits 256 c.event_log_path
  pub model_fits : c.enabled ≡ true → Fits 96 c.model

pub record IsValid (c : AnalyticsConfig) : Type 0 where
  pub sourced : IsSourced c
  pub measured : IsMeasured c
  pub ruled : IsRuled c
  pub stored : IsStored c

check_source_iff : (c : AnalyticsConfig) → (check_source c ≡ none) ↔ IsSourced c
unfolding check_source bounded_string
check_source_iff c = ground arith

check_region_iff : (c : AnalyticsConfig) → (check_region c ≡ none) ↔ IsMeasured c
unfolding check_region
check_region_iff c = ground arith

check_rule_iff : (c : AnalyticsConfig) → (check_rule c ≡ none) ↔ IsRuled c
unfolding check_rule bounded_string
check_rule_iff c = ground arith

check_storage_iff : (c : AnalyticsConfig) → (check_storage c ≡ none) ↔ IsStored c
unfolding check_storage bounded_string
check_storage_iff c = ground arith

-- A configuration passes every check exactly if it is valid.
pub config_validate_iff : (c : AnalyticsConfig) → (config_validate c ≡ none) ↔ IsValid c
unfolding config_validate
config_validate_iff c = (
  λ h.
      let (source, later) = (orelse-none (check_source c) _).0 h in
      let (region, last) = (orelse-none (check_region c) _).0 later in
      let (rule, storage) = (orelse-none (check_rule c) _).0 last in
      record {
        sourced = (check_source_iff c).0 source;
        measured = (check_region_iff c).0 region;
        ruled = (check_rule_iff c).0 rule;
        stored = (check_storage_iff c).0 storage;
      },
  λ v.
      rw
        (
          (check_source_iff c).1 v.sourced,
          (check_region_iff c).1 v.measured,
          (check_rule_iff c).1 v.ruled,
        )
        ((check_storage_iff c).1 v.stored),
)

config_defaults_pass : config_validate config_defaults ≡ none
unfolding config_validate config_defaults evidence_mode_valid bounded_string text_case_eq
config_defaults_pass = refl

-- The defaults are valid.
pub config_defaults-IsValid : IsValid config_defaults
config_defaults-IsValid = (config_validate_iff config_defaults).0 config_defaults_pass
