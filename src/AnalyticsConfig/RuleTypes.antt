-- ===== src/AnalyticsConfig/RuleTypes.antt =====
-- Rule types in text: the reading of media_engine/src/analytics/config.c against the names of
-- media_engine/src/analytics/observation.c.
use rv1126_custom_part.Base.{
  true, some, map, Text, codes, to_lower, text_eq-true_iff, text_case_eq, ◌≡◌, ◌↔◌, ◌⊎◌, arith,
}
use rv1126_custom_part.Observation.Types.{RuleType}
use rv1126_custom_part.Observation.Validate.{valid_rule_type}
use rv1126_custom_part.Observation.Names.{rule_type_name}
use rv1126_custom_part.AnalyticsConfig.Settings.{rule_type_parse}

-- A text is read as a rule type exactly if the type is one of the three, and the text is its name
-- in any case, or the other spelling of a line crossing.
pub rule_type_parse_iff :
    (text : Text) (type : RuleType)
    → (rule_type_parse text ≡ some type) ↔ (
        (valid_rule_type type ≡ true)
        × ((text_case_eq text (rule_type_name type) ≡ true)
            ⊎ (type ≡ RuleType.line_cross) × (text_case_eq text (codes "line-cross") ≡ true)))
unfolding rule_type_parse rule_type_name text_case_eq
rule_type_parse_iff text type = ground (
  arith,
  text_eq-true_iff (map to_lower text) (codes "occupancy"),
  text_eq-true_iff (map to_lower text) (codes "line_cross"),
  text_eq-true_iff (map to_lower text) (codes "line-cross"),
  text_eq-true_iff (map to_lower text) (codes "intrusion"),
)
