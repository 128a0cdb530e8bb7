-- ===== src/AnalyticsConfig/Settings.antt =====
-- The record, the defaults and the checks of media_engine/src/analytics/config.h and config.c.
-- `none` stands for the return value 0 of a check, an error for -1 with the source's message.
use rv1126_custom_part.Base.{
  ℕ, ◌*◌, ◌%◌, ℤ, pos, pos_part, ltb_ℤ, leb_ℤ, Bool, false, not, ◌&&◌, ◌||◌, ltb, leb, ◌==◌, Option,
  none, some, [], if◌then◌else◌, Text, codes, text_case_eq, bounded_string,
}
use rv1126_custom_part.Observation.Types.{coord_scale, rule_id_max, BBox, RuleType}
use rv1126_custom_part.Observation.Validate.{valid_rule_type, ◌orelse◌, reject_if}

abbrev pub backend_max : ℕ
backend_max = 32

abbrev pub model_max : ℕ
model_max = 96

abbrev pub event_log_path_max : ℕ
event_log_path_max = 256

pub record AnalyticsConfig : Type 0 where
  pub enabled : Bool
  pub backend : Text
  pub model : Text
  pub width : ℤ
  pub height : ℤ
  pub fps : ℤ
  pub score_threshold_q : ℕ
  pub confirm_frames : ℕ
  pub confirm_ms : ℕ
  pub debounce_ms : ℕ
  pub disappear_grace_ms : ℕ
  pub cooldown_ms : ℕ
  pub update_interval_ms : ℕ
  pub send_updates : Bool
  pub send_end : Bool
  pub roi_enabled : Bool
  pub roi : BBox
  pub line_enabled : Bool
  pub line_x1 : ℕ
  pub line_y1 : ℕ
  pub line_x2 : ℕ
  pub line_y2 : ℕ
  pub rule_id : Text
  pub rule_type : RuleType
  pub evidence_mode : Text
  pub evidence_max_bytes : ℕ
  pub evidence_retention_s : ℕ
  pub evidence_jpeg_quality : ℕ
  pub event_log_max_records : ℕ
  pub event_log_max_bytes : ℕ
  pub event_log_path : Text

-- memset (config, 0)
abbrev pub zero_config : AnalyticsConfig
zero_config = record {
  enabled = false;
  backend = [];
  model = [];
  width = pos 0;
  height = pos 0;
  fps = pos 0;
  score_threshold_q = 0;
  confirm_frames = 0;
  confirm_ms = 0;
  debounce_ms = 0;
  disappear_grace_ms = 0;
  cooldown_ms = 0;
  update_interval_ms = 0;
  send_updates = false;
  send_end = false;
  roi_enabled = false;
  roi = record { left = 0; top = 0; right = 0; bottom = 0 };
  line_enabled = false;
  line_x1 = 0;
  line_y1 = 0;
  line_x2 = 0;
  line_y2 = 0;
  rule_id = [];
  rule_type = RuleType.unknown;
  evidence_mode = [];
  evidence_max_bytes = 0;
  evidence_retention_s = 0;
  evidence_jpeg_quality = 0;
  event_log_max_records = 0;
  event_log_max_bytes = 0;
  event_log_path = [];
}

-- me_analytics_config_defaults
unfoldable pub config_defaults : AnalyticsConfig
config_defaults = record zero_config {
  backend = codes "rockiva";
  confirm_frames = 3;
  confirm_ms = 300;
  debounce_ms = 300;
  disappear_grace_ms = 1000;
  cooldown_ms = 5000;
  update_interval_ms = 5000;
  rule_id = codes "people-flow";
  rule_type = RuleType.occupancy;
  evidence_mode = codes "stock_wvp_pull";
  evidence_max_bytes = 512 * 1024 * 1024;
  evidence_retention_s = 72 * 60 * 60;
  evidence_jpeg_quality = 85;
  event_log_max_records = 4096;
  event_log_max_bytes = 64 * 1024 * 1024;
  event_log_path = codes "/data/media_engine/analytics-events.jsonl";
}

pub data ConfigError : Type 0 where
  bad_backend unsupported_backend negative_dimensions enabled_dimensions odd_dimensions :
      ConfigError
  bad_threshold bad_confirmation bad_roi bad_line bad_rule bad_evidence_mode bad_limits :
      ConfigError
  bad_log_path missing_model : ConfigError

unfoldable pub valid_rect : BBox → Bool
valid_rect rect =
    ltb rect.left rect.right
    && ltb rect.top rect.bottom
    && leb rect.right coord_scale
    && leb rect.bottom coord_scale

-- value & 1, of a value that is not negative
abbrev pub is_odd : ℤ → Bool
is_odd value = pos_part value % 2 == 1

-- me_analytics_evidence_mode_valid
unfoldable pub evidence_mode_valid : Text → Bool
evidence_mode_valid value =
    text_case_eq value (codes "stock_wvp_pull") || text_case_eq value (codes "exact_evidence")

-- The checks of the backend and of the frame size.
unfoldable pub check_source : AnalyticsConfig → Option ConfigError
check_source c =
    reject_if (not (bounded_string c.backend backend_max)) bad_backend
    orelse reject_if (c.enabled && not (text_case_eq c.backend (codes "rockiva")))
        unsupported_backend
    orelse reject_if (ltb_ℤ c.width (pos 0) || ltb_ℤ c.height (pos 0) || ltb_ℤ c.fps (pos 0))
        negative_dimensions
    orelse reject_if
        (c.enabled
          && (ltb_ℤ c.width (pos 2)
              || ltb_ℤ c.height (pos 2)
              || is_odd c.width
              || is_odd c.height
              || leb_ℤ c.fps (pos 0)))
        enabled_dimensions
    orelse reject_if
        (leb_ℤ c.width (pos 1) && leb_ℤ (pos 1) c.width
          || leb_ℤ c.height (pos 1) && leb_ℤ (pos 1) c.height
          || ltb_ℤ (pos 0) c.width && is_odd c.width
          || ltb_ℤ (pos 0) c.height && is_odd c.height)
        odd_dimensions

-- The checks of the thresholds and of the region.
unfoldable pub check_region : AnalyticsConfig → Option ConfigError
unfolding valid_rect
check_region c =
    reject_if (ltb coord_scale c.score_threshold_q) bad_threshold
    orelse reject_if (c.confirm_frames == 0 || c.confirm_ms == 0 || c.update_interval_ms == 0)
        bad_confirmation
    orelse reject_if (c.roi_enabled && not (valid_rect c.roi)) bad_roi

-- The checks of the line and of the rule.
unfoldable pub check_rule : AnalyticsConfig → Option ConfigError
check_rule c =
    reject_if
      (c.line_enabled
        && (ltb coord_scale c.line_x1
            || ltb coord_scale c.line_y1
            || ltb coord_scale c.line_x2
            || ltb coord_scale c.line_y2
            || c.line_x1 == c.line_x2 && c.line_y1 == c.line_y2))
      bad_line
    orelse reject_if
        (not (bounded_string c.rule_id rule_id_max) || not (valid_rule_type c.rule_type)) bad_rule

-- The checks of evidence, event log and model.
unfoldable pub check_storage : AnalyticsConfig → Option ConfigError
check_storage c =
    reject_if (not (evidence_mode_valid c.evidence_mode)) bad_evidence_mode
    orelse reject_if
        (c.evidence_max_bytes == 0
          || c.evidence_retention_s == 0
          || ltb c.evidence_jpeg_quality 1
          || ltb 100 c.evidence_jpeg_quality
          || c.event_log_max_records == 0
          || c.event_log_max_bytes == 0)
        bad_limits
    orelse reject_if (not (bounded_string c.event_log_path event_log_path_max)) bad_log_path
    orelse reject_if (c.enabled && not (bounded_string c.model model_max)) missing_model

-- me_analytics_config_validate
unfoldable pub config_validate : AnalyticsConfig → Option ConfigError
unfolding check_source check_region check_rule check_storage
config_validate c = check_source c orelse check_region c orelse check_rule c orelse check_storage c

-- me_analytics_rule_type_parse
unfoldable pub rule_type_parse : Text → Option RuleType
rule_type_parse value =
    if text_case_eq value (codes "occupancy")
    then some RuleType.occupancy
    else if text_case_eq value (codes "line_cross") || text_case_eq value (codes "line-cross")
    then some RuleType.line_cross
    else if text_case_eq value (codes "intrusion")
    then some RuleType.intrusion
    else none
