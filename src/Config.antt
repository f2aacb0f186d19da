-- ===== src/Config.antt =====
-- internal/config/config.go: validation, defaults and environment overrides of the configuration.
pub mod Validate
pub mod Defaults
pub mod Env
pub mod SetUp
pub mod Again
pub mod Loading
pub mod Tests
