-- ===== src/AnalyticsConfig.antt =====
-- The analytics configuration, media_engine/src/analytics/config.h and config.c.
pub mod Settings
pub mod Valid
pub mod RuleTypes
mod Examples
