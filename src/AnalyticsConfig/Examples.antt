-- ===== src/AnalyticsConfig/Examples.antt =====
-- The theorems on configurations at concrete inputs.
use rv1126_custom_part.Base.{true, none, some, codes, ◌≡◌, ◌↔◌, ◌⊎◌, text_case_eq}
use rv1126_custom_part.Observation.Types.{RuleType}
use rv1126_custom_part.Observation.Validate.{valid_rule_type}
use rv1126_custom_part.Observation.Names.{rule_type_name}
use rv1126_custom_part.AnalyticsConfig.Settings.{config_defaults, config_validate, rule_type_parse}
use rv1126_custom_part.AnalyticsConfig.Valid.{IsValid, config_validate_iff}
use rv1126_custom_part.AnalyticsConfig.RuleTypes.{rule_type_parse_iff}

config_validate_iff_example : (config_validate config_defaults ≡ none) ↔ IsValid config_defaults
config_validate_iff_example = config_validate_iff config_defaults

rule_type_parse_iff_example : (rule_type_parse (codes "Line-Cross") ≡ some RuleType.line_cross) ↔ (
    (valid_rule_type RuleType.line_cross ≡ true)
    × ((text_case_eq (codes "Line-Cross") (rule_type_name RuleType.line_cross) ≡ true)
        ⊎ (RuleType.line_cross ≡ RuleType.line_cross)
          × (text_case_eq (codes "Line-Cross") (codes "line-cross") ≡ true)))
rule_type_parse_iff_example = rule_type_parse_iff (codes "Line-Cross") RuleType.line_cross
