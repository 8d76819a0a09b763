-- ===== src/Config/Witnesses.antt =====
-- The default settings pass their tests.
use camouflare.Prelude.{none, ◌≡◌, refl}
use camouflare.Config.Numbers.{pos}
use camouflare.Config.Settings.{
  Settings, pool_tests, limit_tests, first_error, validate_settings, pool_settings,
}
use camouflare.Config.Validation.{IsUsable, validate_settings-IsUsable}

abbrev default_settings : Settings
default_settings = record {
  port = pos 8191;
  pool_min_browsers = pos 1;
  pool_max_browsers = pos 2;
  pool_max_contexts_per_browser = pos 1;
  pool_reserved_transient_contexts = pos 1;
  pool_acquire_timeout_ms = pos 30000;
  http_max_concurrency = pos 8;
  max_sessions = pos 32;
  session_ttl_minutes = pos 60;
  browser_max_uses = pos 200;
  browser_max_age_minutes = pos 120;
  max_request_body_bytes = pos 4194304;
  max_response_body_bytes = pos 33554432;
  max_screenshot_bytes = pos 16777216;
  max_solution_bytes = pos 67108864;
  max_timeout_ms = pos 300000;
  max_session_ttl_minutes = pos 1440;
  session_reaper_interval_seconds = pos 30;
  pool_maintenance_interval_seconds = pos 15;
  shutdown_timeout_seconds = pos 30;
  cleanup_timeout_seconds = pos 10;
  readiness_timeout_ms = pos 15000;
}

default_valid : validate_settings default_settings ≡ none
unfolding validate_settings pool_tests limit_tests first_error
default_valid = refl

validate_settings-IsUsable_example : IsUsable (pool_settings default_settings)
validate_settings-IsUsable_example = validate_settings-IsUsable default_settings default_valid
