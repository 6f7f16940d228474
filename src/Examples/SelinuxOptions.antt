-- ===== src/Examples/SelinuxOptions.antt =====
-- policies/selinux-psp-policy at concrete levels and pods.
use policies.Prelude.{
  String-discrete, Outcome, Bool, split, is_subset, ◌>>=◌, ◌≡◌, refl, ◌↔◌, String, Option, none,
  some, [], ◌∷◌, ok, true, false, ℤ-discrete,
}
use policies.K8s
use policies.K8s.{
  Container, PodSpec, Pod, SecurityContext, PodSecurityContext, default_security_context,
  default_pod_security_context,
}
use policies.Sdk.{Response, accept, reject, mutate}
use policies.Selinux.Settings
use policies.Selinux.Settings.{
  SeLinuxOptionsExternal, SeLinuxOptions, ExternalSettings, SeLinuxLevel, must_run_as, new,
  level_eq, nothing_provided, SettingsError,
}
use policies.Selinux.Settings.Levels.{SameLevel, new-level_eq_iff}
use policies.Selinux.Settings.Conversion.{IsConverted}
use policies.Selinux.Validate.Guarantees.{Justified, validate-Justified}
use policies.Selinux.Validate.Repeat.{validate_again}
use policies.Selinux.Validate.{
  SeLinuxError, validate, validation_failed, do_validate, default_pod_spec, is_selinux_compliant,
  option_eq,
}

abbrev PodSpec-discrete : Discrete (PodSpec Unit)
PodSpec-discrete = hlevel (ℤ-discrete, String-discrete)

abbrev compare_levels : String → String → Outcome SettingsError Bool
compare_levels s t = do a ← new s; b ← new t; ok (level_eq a b)

-- Two levels without exactly one colon count as equal.
levels_test : compare_levels "s0" "s15:c0:c1" ≡ ok true
unfolding new level_eq split is_subset
levels_test = refl

-- The order of the categories does not matter, the sensitivity does.
order_test : compare_levels "s0:c1,c0" "s0:c0,c1" ≡ ok true
unfolding new level_eq split is_subset
order_test = refl

sensitivity_test : compare_levels "s1:c0" "s0:c0" ≡ ok false
unfolding new level_eq split is_subset
sensitivity_test = refl

abbrev external : SeLinuxOptionsExternal
external = record { user = some "user"; role = some "role"; type_ = none; level = some "s0:c0,c6" }

abbrev with_level : String → K8s.SeLinuxOptions
with_level level = record {
  level = some level;
  role = some "role";
  type_ = none;
  user = some "user";
}

abbrev container : K8s.SeLinuxOptions → Container Unit
container options = record {
  name = "main";
  image = none;
  env = none;
  volume_mounts = none;
  liveness_probe = none;
  readiness_probe = none;
  security_context =
      some (record (default_security_context tt) { se_linux_options = some options });
  others = tt;
}

abbrev spec : K8s.SeLinuxOptions → Option (PodSecurityContext Unit) → PodSpec Unit
spec options context = record {
  containers = container options ∷ [];
  init_containers = none;
  ephemeral_containers = none;
  automount_service_account_token = none;
  service_account_name = none;
  service_account = none;
  priority_class_name = none;
  security_context = context;
  others = tt;
}

abbrev pod : PodSpec Unit → Pod Unit
pod s = record { annotations = none; spec = some s; others = tt }

abbrev defaulted : PodSpec Unit
defaulted = spec (with_level "s0:c6,c0") (
    some (record (default_pod_security_context tt) {
      se_linux_options = some (with_level "s0:c0,c6");
    }))

default_test :
    validate tt PodSpec-discrete
      (must_run_as external)
      (some (pod (spec (with_level "s0:c6,c0") none)))
    ≡ ok (mutate (pod defaulted))
unfolding validate Settings.try_from Settings.options_try_from new split do_validate
    default_pod_spec is_selinux_compliant level_eq is_subset option_eq Settings.into String-discrete
default_test = refl

reject_test :
    validate tt PodSpec-discrete
      (must_run_as external)
      (some (pod (spec (with_level "s1:c6,c0") none)))
    ≡ ok (reject validation_failed)
unfolding validate Settings.try_from Settings.options_try_from new split do_validate
    default_pod_spec is_selinux_compliant level_eq is_subset option_eq
reject_test = refl

abbrev level : SeLinuxLevel
level = record {
  level = "s0:c0,c6";
  sensitivity = "s0";
  categories = "c0" ∷ "c6" ∷ [];
  categories_hashset = "c0" ∷ "c6" ∷ [];
}

abbrev other_level : SeLinuxLevel
other_level = record { level = "s0"; sensitivity = ""; categories = []; categories_hashset = [] }

new-level : new "s0:c0,c6" ≡ ok level
unfolding new split
new-level = refl

new-other_level : new "s0" ≡ ok other_level
unfolding new split
new-other_level = refl

abbrev expected : SeLinuxOptions
expected = record { user = some "user"; role = some "role"; type_ = none; level = some level }

converted : IsConverted external expected
converted = record {
  user = refl;
  role = refl;
  type_ = refl;
  no_level = λ e. cc;
  level = λ t e. (level, refl, cc (e, new-level));
}

new-level_eq_iff_example : (level_eq level other_level ≡ true) ↔ SameLevel "s0:c0,c6" "s0"
new-level_eq_iff_example =
    new-level_eq_iff "s0:c0,c6" "s0" level other_level new-level new-other_level

abbrev first_spec : PodSpec Unit
first_spec = spec (with_level "s0:c6,c0") none

validate-Justified_example :
    (r : Response SeLinuxError (Pod Unit)) × (validate tt PodSpec-discrete
        (must_run_as external)
        (some (pod first_spec))
      ≡ ok r)
    × Justified tt external PodSpec-discrete (pod first_spec) first_spec refl r
validate-Justified_example =
    validate-Justified tt external PodSpec-discrete (pod first_spec) first_spec refl

validate_again_example :
    validate tt PodSpec-discrete (must_run_as external) (some (pod defaulted)) ≡ ok accept
validate_again_example =
    validate_again tt external PodSpec-discrete (pod first_spec) first_spec (pod defaulted) refl
      default_test
