-- ===== src/Probes/Settings.antt =====
-- policies/probes-policy/src/settings.rs and src/errors.rs. Values of i32 are those of i64 that they
-- are converted to.
pub mod Validity
use policies.Prelude.{
  map_err, ℤ, pos, leb_ℤ, String, Bool, true, false, not, ◌&&◌, ◌||◌, Option, none, some, is_some,
  Outcome, ok, err, panic, ◌>>=◌, ◌>>◌, if◌then◌else◌,
}

pub data SettingsValidationError : Type 0 where
  none_enforcement missing_minimum_and_limit minimum_greater_than_limit : SettingsValidationError
  minimum_less_than_equal_zero limit_less_than_equal_zero : SettingsValidationError

pub data ProbeSettingError : Type 0 where
  invalid_field : String → SettingsValidationError → ProbeSettingError

pub data SettingsError : Type 0 where
  none_enforced : SettingsValidationError → SettingsError
  invalid_liveness_settings invalid_readiness_settings : ProbeSettingError → SettingsError

pub record ProbeTimeConfiguration : Type 0 where
  pub minimum : Option ℤ
  pub limit : Option ℤ

pub record ProbeConfiguration : Type 0 where
  pub enforce : Bool
  pub period_seconds : Option ProbeTimeConfiguration
  pub failure_threshold : Option ProbeTimeConfiguration
  pub initial_delay_seconds : Option ProbeTimeConfiguration
  pub success_threshold : Option ProbeTimeConfiguration
  pub termination_grace_period_seconds : Option ProbeTimeConfiguration
  pub timeout_seconds : Option ProbeTimeConfiguration

pub record Settings : Type 0 where
  pub liveness : ProbeConfiguration
  pub readiness : ProbeConfiguration

-- `ProbeConfiguration::default`.
abbrev pub default_configuration : ProbeConfiguration
default_configuration = record {
  enforce = true;
  period_seconds = none;
  failure_threshold = none;
  initial_delay_seconds = none;
  success_threshold = none;
  termination_grace_period_seconds = none;
  timeout_seconds = none;
}

is_positive : Option ℤ → Bool
is_positive none = true
is_positive (some n) = not (leb_ℤ n (pos 0))

is_ordered : Option ℤ → Option ℤ → Bool
is_ordered (some minimum) (some limit) = leb_ℤ minimum limit
is_ordered minimum limit = true

unfoldable pub validate_time : ProbeTimeConfiguration → Outcome SettingsValidationError (Unit {0})
unfolding is_positive is_ordered
validate_time c =
    if not (is_some c.minimum || is_some c.limit)
    then err missing_minimum_and_limit
    else if not (is_positive c.minimum)
    then err minimum_less_than_equal_zero
    else if not (is_positive c.limit)
    then err limit_less_than_equal_zero
    else if not (is_ordered c.minimum c.limit)
    then err minimum_greater_than_limit
    else ok tt

validate_field : String → Option ProbeTimeConfiguration → Outcome ProbeSettingError (Unit {0})
validate_field name none = ok tt
validate_field name (some c) = map_err (invalid_field name) (validate_time c)

unfoldable pub validate_configuration : ProbeConfiguration → Outcome ProbeSettingError (Unit {0})
unfolding validate_field
validate_configuration c = do
  validate_field "periodSeconds" c.period_seconds
  validate_field "failureThreshold" c.failure_threshold
  validate_field "initialDelaySeconds" c.initial_delay_seconds
  validate_field "successThreshold" c.success_threshold
  validate_field "terminationGracePeriodSeconds" c.termination_grace_period_seconds
  validate_field "timeoutSeconds" c.timeout_seconds

unfoldable pub validate : Settings → Outcome SettingsError (Unit {0})
validate s =
    if not (s.liveness.enforce || s.readiness.enforce)
    then err (none_enforced none_enforcement)
    else (do
      map_err invalid_liveness_settings (validate_configuration s.liveness)
      map_err invalid_readiness_settings (validate_configuration s.readiness))
