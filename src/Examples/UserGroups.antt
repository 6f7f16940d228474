-- ===== src/Examples/UserGroups.antt =====
-- policies/user-group-psp-policy at concrete pods.
use policies.Prelude.{
  ℤ, pos, ◌≡◌, ◌≢◌, refl, ◌↔◌, ◌⊎◌, inl, String, Option, none, some, List, [], ◌∷◌, true, false,
  Any, ok, panic, All, is_zero, parse_i64, split,
}
use policies.K8s.{
  AllContainers, SecurityContext, PodSecurityContext, Container, PodSpec, default_security_context,
  default_pod_security_context,
}
use policies.Sdk.{mutate, pod_spec}
use policies.UserGroup.Settings.{
  IdRange, RuleStrategy, Settings, Rule, must_run_as, may_run_as, run_as_any, must_run_as_non_root,
  is_valid_id,
}
use policies.UserGroup.Settings
use policies.UserGroup.Settings.Ranges.{InRange, is_valid_id_iff}
use policies.UserGroup.Settings.Validity.{AreProper, AreSettings, validate-AreSettings_iff}
use policies.UserGroup.Context.{container_context}
use policies.UserGroup.Enforce.{
  ImageConfiguration, get_user_group_uid_from_image_configuration, enforce_run_as_user_rule,
  enforce_run_as_group, enforce_container_image_group, enforce_supplemental_groups, first_min,
}
use policies.UserGroup.Enforce.User.{
  settled, bind, HasValidUser, enforce_run_as_user_rule-valid,
  enforce_run_as_user_rule-validate_only, enforce_run_as_user_rule-ne-panic,
}
use policies.UserGroup.Enforce.Group.{enforce_run_as_group-valid, enforce_supplemental_groups-valid}
use policies.UserGroup.Pod.{
  validate, enforce_pod, enforce_container_security_policies, enforce_pod_spec_security_policies,
}
use policies.UserGroup.Pod.Guarantees.{
  HasUserInRange, IsNonRoot, validate-HasUserInRange, validate-IsNonRoot,
}

abbrev any_rule : RuleStrategy
any_rule = record { rule = run_as_any; ranges = []; overwrite = false }

abbrev in_range : RuleStrategy
in_range = record {
  rule = must_run_as;
  ranges = record { min = pos 1000; max = pos 2000 } ∷ [];
  overwrite = false;
}

abbrev users_only : Settings
users_only = record {
  run_as_user = in_range;
  run_as_group = any_rule;
  supplemental_groups = any_rule;
  validate_container_image_configuration = false;
  validate_only = false;
}

abbrev all_rules : Settings
all_rules = record users_only { run_as_group = in_range; supplemental_groups = in_range }

abbrev non_root : Settings
non_root = record users_only {
  run_as_user = record { rule = must_run_as_non_root; ranges = []; overwrite = false };
}

abbrev no_host : String → Unit {0} ⊎ ImageConfiguration
no_host image = inl tt

abbrev as_user : ℤ → SecurityContext Unit
as_user id = record (default_security_context tt) { run_as_user = some id }

abbrev container : Option (SecurityContext Unit) → Container Unit
container context = record {
  name = "app";
  image = some "nginx";
  env = none;
  volume_mounts = none;
  liveness_probe = none;
  readiness_probe = none;
  security_context = context;
  others = tt;
}

abbrev pod : List (Container Unit) → PodSpec Unit
pod cs = record {
  containers = cs;
  init_containers = none;
  ephemeral_containers = none;
  automount_service_account_token = none;
  service_account_name = none;
  service_account = none;
  priority_class_name = none;
  security_context = none;
  others = tt;
}

abbrev mixed : PodSpec Unit
mixed = pod (container (some (as_user (pos 1500))) ∷ container none ∷ [])

abbrev mixed_fixed : PodSpec Unit
mixed_fixed =
    record (pod
      (container (some (as_user (pos 1500))) ∷ container (some (as_user (pos 1000))) ∷ [])) {
        security_context =
            some (record (default_pod_security_context tt) { run_as_user = some (pos 1000) });
      }

run : Unit {0}
unfolding validate enforce_pod enforce_container_security_policies
    enforce_pod_spec_security_policies enforce_run_as_user_rule enforce_run_as_group
    enforce_container_image_group enforce_supplemental_groups
    get_user_group_uid_from_image_configuration is_valid_id first_min is_zero split parse_i64
run = tt

mixed_test : validate tt no_host users_only (pod_spec mixed) ≡ ok (mutate mixed_fixed)
unfolding run
mixed_test = refl

image_test :
    (get_user_group_uid_from_image_configuration
        (some (record { is_windows = false; user = some "1000:-20" }))
      ≡ ok (some (pos 1000), some (ℤ.negsuc 19)))
    × (get_user_group_uid_from_image_configuration
          (some (record { is_windows = false; user = some "0:1:2" }))
        ≡ ok (some (pos 0), none))
unfolding run
image_test = (refl, refl)

-- A container with no image cannot be asked about: the call of `unwrap` panics.
no_image_test :
    validate tt no_host
      (record users_only { validate_container_image_configuration = true })
      (pod_spec (pod (record (container none) { image = none } ∷ [])))
    ≡ panic
unfolding run
no_image_test = refl

in_range-AreProper : AreProper in_range.ranges
in_range-AreProper = ((λ e. cc), (refl, tt))

validate-HasUserInRange_example : AllContainers (HasUserInRange users_only) mixed_fixed
validate-HasUserInRange_example =
    validate-HasUserInRange tt no_host users_only mixed mixed_fixed refl in_range-AreProper
      (inl mixed_test)

abbrev rooted_fixed : PodSpec Unit
rooted_fixed =
    record (pod (
      container (some (record (default_security_context tt) { run_as_non_root = some true }))
      ∷ [])) {
        security_context =
            some (record (default_pod_security_context tt) { run_as_non_root = some true });
      }

non_root_test :
    validate tt no_host non_root (pod_spec (pod (container none ∷ []))) ≡ ok (mutate rooted_fixed)
unfolding run
non_root_test = refl

validate-IsNonRoot_example : AllContainers IsNonRoot rooted_fixed
validate-IsNonRoot_example =
    validate-IsNonRoot tt no_host non_root (pod (container none ∷ [])) rooted_fixed refl
      (inl non_root_test)

default_user_test :
    enforce_run_as_user_rule (container_context tt) users_only none none
    ≡ ok (some (as_user (pos 1000)))
unfolding run
default_user_test = refl

enforce_run_as_user_rule-valid_example :
    HasValidUser (container_context tt) users_only none (some (as_user (pos 1000)))
enforce_run_as_user_rule-valid_example =
    enforce_run_as_user_rule-valid (container_context tt) users_only none none
      (some (as_user (pos 1000))) refl in_range-AreProper default_user_test

enforce_run_as_user_rule-validate_only_example :
    enforce_run_as_user_rule
      (container_context tt)
      (record users_only { validate_only = true })
      (some (as_user (pos 1500)))
      none
    ≢ ok none
enforce_run_as_user_rule-validate_only_example =
    enforce_run_as_user_rule-validate_only (container_context tt)
      (record users_only { validate_only = true }) (some (as_user (pos 1500))) none none refl refl
      (inl refl)

enforce_run_as_user_rule-ne-panic_example :
    enforce_run_as_user_rule (container_context tt) users_only none none ≢ panic
enforce_run_as_user_rule-ne-panic_example =
    enforce_run_as_user_rule-ne-panic (container_context tt) users_only none none
      (λ e. in_range-AreProper)

abbrev grouped : SecurityContext Unit
grouped = record (default_security_context tt) { run_as_group = some (pos 1000) }

group_test : enforce_run_as_group (container_context tt) all_rules none none ≡ ok (some grouped)
unfolding run
group_test = refl

abbrev pod_grouped : PodSecurityContext Unit
pod_grouped = record (default_pod_security_context tt) {
  supplemental_groups = some (pos 1000 ∷ []);
}

supplemental_test : enforce_supplemental_groups tt all_rules none ≡ ok (some pod_grouped)
unfolding run
supplemental_test = refl

enforce_supplemental_groups-valid_example :
    All (λ id. is_valid_id in_range id ≡ true) (pos 1000 ∷ [])
enforce_supplemental_groups-valid_example =
    enforce_supplemental_groups-valid tt all_rules none (some pod_grouped) (pos 1000 ∷ [])
      in_range-AreProper (inl refl) supplemental_test refl

is_valid_id_iff_example :
    (is_valid_id in_range (pos 2000) ≡ true) ↔ Any (InRange (pos 2000)) in_range.ranges
is_valid_id_iff_example = is_valid_id_iff in_range (pos 2000)

validate-AreSettings_iff_example : (Settings.validate all_rules ≡ ok tt) ↔ AreSettings all_rules
validate-AreSettings_iff_example = validate-AreSettings_iff all_rules

enforce_run_as_group-valid_example :
    (in_range.rule ≡ must_run_as
      → (id : ℤ) × (bind (settled none (some grouped)) (λ c. c.run_as_group) ≡ some id))
    × ((id : ℤ)
        → bind (settled none (some grouped)) (λ c. c.run_as_group) ≡ some id
        → Any (InRange id) in_range.ranges)
    × ((some grouped ≡ none)
        ⊎ ((in_range.rule ≡ must_run_as)
            × ((id : ℤ) × (some grouped
                  ≡ some (record (default_security_context tt) { run_as_group = some id })))))
    × ((user : Option ℤ) (id : ℤ)
        → get_user_group_uid_from_image_configuration none ≡ ok (user, some id)
        → Any (InRange id) in_range.ranges)
enforce_run_as_group-valid_example =
    enforce_run_as_group-valid (container_context tt) all_rules none none (some grouped)
      in_range-AreProper (inl refl) group_test
