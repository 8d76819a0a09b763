-- ===== src/Config/Settings.antt =====
-- camouflare/config.py: the numeric settings and their tests, and what they give to the pool.
use camouflare.Prelude.{
  ◌*◌, String, Bool, not, ◌&&◌, List, [], ◌∷◌, ◌++◌, Option, none, some, if◌then◌else◌,
}
use camouflare.Config.Numbers.{ℤ, pos, at_most, times, to_nat}
use camouflare.Pool.State.{Settings as PoolSettings}

pub record Settings : Type 0 where
  pub port : ℤ
  pub pool_min_browsers : ℤ
  pub pool_max_browsers : ℤ
  pub pool_max_contexts_per_browser : ℤ
  pub pool_reserved_transient_contexts : ℤ
  pub pool_acquire_timeout_ms : ℤ
  pub http_max_concurrency : ℤ
  pub max_sessions : ℤ
  pub session_ttl_minutes : ℤ
  pub browser_max_uses : ℤ
  pub browser_max_age_minutes : ℤ
  pub max_request_body_bytes : ℤ
  pub max_response_body_bytes : ℤ
  pub max_screenshot_bytes : ℤ
  pub max_solution_bytes : ℤ
  pub max_timeout_ms : ℤ
  pub max_session_ttl_minutes : ℤ
  pub session_reaper_interval_seconds : ℤ
  pub pool_maintenance_interval_seconds : ℤ
  pub shutdown_timeout_seconds : ℤ
  pub cleanup_timeout_seconds : ℤ
  pub readiness_timeout_ms : ℤ

-- The `ValueError`s, by the setting that their text names.
pub data SettingsError : Type 0 where
  port_out_of_range min_browsers_negative min_above_max reserved_out_of_range : SettingsError
  ttl_above_max : SettingsError
  not_positive : String → SettingsError

-- `if value <= 0: raise ValueError(f"{name} must be greater than zero.")`
abbrev pub must_be_positive : String → ℤ → Bool × SettingsError
must_be_positive name value = (at_most value (pos 0), not_positive name)

-- The tests of `_validate_settings` on numbers in order: a test that holds raises its error.
unfoldable pub pool_tests : Settings → List (Bool × SettingsError)
pool_tests s =
    (not (at_most (pos 1) s.port && at_most s.port (pos 65535)), port_out_of_range)
    ∷ (not (at_most (pos 0) s.pool_min_browsers), min_browsers_negative)
    ∷ must_be_positive "POOL_MAX_BROWSERS" s.pool_max_browsers
    ∷ (not (at_most s.pool_min_browsers s.pool_max_browsers), min_above_max)
    ∷ must_be_positive "POOL_MAX_CONTEXTS_PER_BROWSER" s.pool_max_contexts_per_browser
    ∷ (
      not (
          at_most (pos 0) s.pool_reserved_transient_contexts
          && at_most s.pool_reserved_transient_contexts
              (times s.pool_max_browsers s.pool_max_contexts_per_browser)),
      reserved_out_of_range,
    )
    ∷ must_be_positive "POOL_ACQUIRE_TIMEOUT_MS" s.pool_acquire_timeout_ms
    ∷ must_be_positive "MAX_SESSIONS" s.max_sessions
    ∷ must_be_positive "SESSION_TTL_MINUTES" s.session_ttl_minutes
    ∷ must_be_positive "BROWSER_MAX_USES" s.browser_max_uses
    ∷ must_be_positive "BROWSER_MAX_AGE_MINUTES" s.browser_max_age_minutes
    ∷ []

unfoldable pub limit_tests : Settings → List (Bool × SettingsError)
limit_tests s =
    must_be_positive "HTTP_MAX_CONCURRENCY" s.http_max_concurrency
    ∷ must_be_positive "MAX_REQUEST_BODY_BYTES" s.max_request_body_bytes
    ∷ must_be_positive "MAX_RESPONSE_BODY_BYTES" s.max_response_body_bytes
    ∷ must_be_positive "MAX_SCREENSHOT_BYTES" s.max_screenshot_bytes
    ∷ must_be_positive "MAX_SOLUTION_BYTES" s.max_solution_bytes
    ∷ must_be_positive "MAX_TIMEOUT_MS" s.max_timeout_ms
    ∷ must_be_positive "MAX_SESSION_TTL_MINUTES" s.max_session_ttl_minutes
    ∷ must_be_positive "SESSION_REAPER_INTERVAL_SECONDS" s.session_reaper_interval_seconds
    ∷ must_be_positive "POOL_MAINTENANCE_INTERVAL_SECONDS" s.pool_maintenance_interval_seconds
    ∷ must_be_positive "SHUTDOWN_TIMEOUT_SECONDS" s.shutdown_timeout_seconds
    ∷ must_be_positive "CLEANUP_TIMEOUT_SECONDS" s.cleanup_timeout_seconds
    ∷ must_be_positive "READINESS_TIMEOUT_MS" s.readiness_timeout_ms
    ∷ (not (at_most s.session_ttl_minutes s.max_session_ttl_minutes), ttl_above_max)
    ∷ []

unfoldable pub first_error : List (Bool × SettingsError) → Option SettingsError
first_error [] = none
first_error ((test, error) ∷ rest) = if test then some error else first_error rest

unfoldable pub validate_settings : Settings → Option SettingsError
unfolding pool_tests limit_tests first_error
validate_settings s = first_error (pool_tests s ++ limit_tests s)

-- `BrowserPool(…)` in the application: `browser_max_age_seconds` in milliseconds.
unfoldable pub pool_settings : Settings → PoolSettings
pool_settings s = record {
  min_browsers = to_nat s.pool_min_browsers;
  max_browsers = to_nat s.pool_max_browsers;
  max_contexts_per_browser = to_nat s.pool_max_contexts_per_browser;
  browser_max_uses = to_nat s.browser_max_uses;
  browser_max_age = to_nat s.browser_max_age_minutes * 60 * 1000;
  reserved_transient_contexts = to_nat s.pool_reserved_transient_contexts;
}
