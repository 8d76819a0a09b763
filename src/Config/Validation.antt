-- ===== src/Config/Validation.antt =====
-- camouflare/config.py: what settings that pass their tests give to the pool.
use camouflare.Prelude.{
  not, ◌+◌, ◌*◌, ◌≤◌, Bool, true, false, List, [], ◌∷◌, ◌++◌, none, ◌≡◌, refl, arith,
}
use camouflare.Config.Numbers.{
  pos, at_most, times, above_zero, not_above, to_nat-times, positive-not_negative,
}
use camouflare.Config.Settings.{
  Settings, SettingsError, pool_tests, limit_tests, first_error, validate_settings, pool_settings,
}
use camouflare.Pool.State.{
  Settings as PoolSettings, max_persistent_contexts, max_physical_generations,
}

abbrev AllFail : List (Bool × SettingsError) → Type 0
AllFail [] = Unit
AllFail ((b, e) ∷ rest) = (b ≡ false) × AllFail rest

first_error-AllFail : (l : List (Bool × SettingsError)) → first_error l ≡ none → AllFail l
unfolding first_error
first_error-AllFail [] h = tt
first_error-AllFail ((true, e) ∷ rest) h = absurd (ground (arith, h))
first_error-AllFail ((false, e) ∷ rest) h = (refl, first_error-AllFail rest h)

of_negation : (b : Bool) → not b ≡ false → b ≡ true
of_negation true h = refl
of_negation false h = absurd (ground (arith, h))

-- What the pool needs of its settings to serve both kinds of requests.
pub record IsUsable (c : PoolSettings) : Type 0 where
  pub browsers : 1 ≤ c.max_browsers
  pub ordered : c.min_browsers ≤ c.max_browsers
  pub contexts : 1 ≤ c.max_contexts_per_browser
  pub uses : 1 ≤ c.browser_max_uses
  pub age : 1 ≤ c.browser_max_age
  pub split :
      max_persistent_contexts c + c.reserved_transient_contexts
      ≡ c.max_browsers * c.max_contexts_per_browser
  pub ceiling : max_physical_generations c ≡ 2 * c.max_browsers

-- Settings that pass every test give a usable pool: at least one browser, context, use and
-- millisecond; the minimum of browsers within the maximum; the contexts for sessions and the reserved
-- ones make up the capacity exactly; and the physical ceiling is twice the maximum.
pub validate_settings-IsUsable :
    (s : Settings) → validate_settings s ≡ none → IsUsable (pool_settings s)
unfolding validate_settings pool_tests limit_tests pool_settings
validate_settings-IsUsable s valid =
    let tests = first_error-AllFail (pool_tests s ++ limit_tests s) valid in
    let min_ok = tests.1 in
    let browsers_ok = min_ok.1 in
    let ordered_ok = browsers_ok.1 in
    let contexts_ok = ordered_ok.1 in
    let reserved_ok = contexts_ok.1 in
    let uses_ok = reserved_ok.1.1.1.1 in
    let age_ok = uses_ok.1 in
    let least : at_most (pos 0) s.pool_min_browsers ≡ true = of_negation _ min_ok.0 in
    let browsers = positive-not_negative s.pool_max_browsers browsers_ok.0 in
    let contexts = positive-not_negative s.pool_max_contexts_per_browser contexts_ok.0 in
    let reserved : at_most (pos 0) s.pool_reserved_transient_contexts ≡ true =
      ground (arith, reserved_ok.0) in
    let capacity : at_most s.pool_reserved_transient_contexts
          (times s.pool_max_browsers s.pool_max_contexts_per_browser)
        ≡ true =
      ground (arith, reserved_ok.0) in
    let room = not_above s.pool_reserved_transient_contexts _ reserved capacity in
    let product =
      to_nat-times s.pool_max_browsers s.pool_max_contexts_per_browser browsers contexts in
    record {
      browsers = above_zero s.pool_max_browsers browsers_ok.0;
      ordered =
          not_above s.pool_min_browsers s.pool_max_browsers least (of_negation _ ordered_ok.0);
      contexts = above_zero s.pool_max_contexts_per_browser contexts_ok.0;
      uses = above_zero s.browser_max_uses uses_ok.0;
      age = omega (arith, above_zero s.browser_max_age_minutes age_ok.0);
      split = omega (arith, room, product);
      ceiling = ground (arith, above_zero s.pool_max_browsers browsers_ok.0);
    }
