-- ===== src/Examples/SeccompProfiles.antt =====
-- policies/seccomp-psp-policy at concrete pods.
use policies.Prelude.{
  ◌≡◌, ◌≢◌, ◌⊎◌, refl, String, Option, none, some, List, [], ◌∷◌, ok, err, true, ends_with,
}
use policies.K8s.{
  SeccompProfile, Container, PodSpec, Pod, PodSecurityContext, default_security_context,
  default_pod_security_context,
}
use policies.Sdk.{accept, reject}
use policies.Seccomp.Settings.{Settings, localhost_requires_profiles, validate}
use policies.Seccomp.Validate.{
  SeccompError, profiles_not_allowed, invalid_podspec_type, container_violations, do_validate,
  localhost_profile_defined_in_allowed_profiles, do_validate_annotations,
  do_validate_pod_security_context, do_validate_containers, allowed_profiles_has_profile_type,
}
use policies.Seccomp.Validate.Accepts.{IsFinePod}
use policies.Seccomp.Validate.Answers.{do_validate-answers}

abbrev settings : Settings
settings = record {
  allowed_profiles = "runtime/default" ∷ "localhost/audit.json" ∷ [];
  profile_types = "Localhost" ∷ [];
  localhost_profiles = "fine.json" ∷ [];
}

abbrev localhost : String → SeccompProfile
localhost name = record { localhost_profile = some name; type_ = "Localhost" }

abbrev unconfined : SeccompProfile
unconfined = record { localhost_profile = none; type_ = "Unconfined" }

abbrev container : SeccompProfile → Container Unit
container p = record {
  name = "main";
  image = none;
  env = none;
  volume_mounts = none;
  liveness_probe = none;
  readiness_probe = none;
  security_context = some (record (default_security_context tt) { seccomp_profile = some p });
  others = tt;
}

abbrev spec : List (Container Unit) → Option (PodSecurityContext Unit) → PodSpec Unit
spec cs context = record {
  containers = cs;
  init_containers = none;
  ephemeral_containers = none;
  automount_service_account_token = none;
  service_account_name = none;
  service_account = none;
  priority_class_name = none;
  security_context = context;
  others = tt;
}

abbrev pod : List (String × String) → PodSpec Unit → Pod Unit
pod notes s = record { annotations = some notes; spec = some s; others = tt }

abbrev good_pod : Pod Unit
good_pod =
    pod (("seccomp.security.alpha.kubernetes.io/pod", "runtime/default") ∷ ("team", "x") ∷ [])
      (spec (container (localhost "fine.json") ∷ []) none)

abbrev bad_pod : Pod Unit
bad_pod = pod (("container.seccomp.security.alpha.kubernetes.io/main", "unconfined") ∷ []) (
    spec (container (localhost "other.json") ∷ container unconfined ∷ [])
      (some (record (default_pod_security_context tt) { seccomp_profile = some unconfined })))

good_test : do_validate good_pod settings ≡ ok accept
unfolding do_validate do_validate_annotations do_validate_pod_security_context
    do_validate_containers
good_test = refl

bad_test :
    do_validate bad_pod settings
    ≡ ok (
        reject (
          profiles_not_allowed ("unconfined" ∷ [])
          ∷ invalid_podspec_type "Unconfined"
          ∷ container_violations ("Unconfined" ∷ []) ("other.json" ∷ [])
          ∷ []))
unfolding do_validate do_validate_annotations do_validate_pod_security_context
    do_validate_containers allowed_profiles_has_profile_type
    localhost_profile_defined_in_allowed_profiles ends_with
bad_test = refl

-- A part of the name of an allowed profile passes for a profile: only the ends are compared.
suffix_test : localhost_profile_defined_in_allowed_profiles settings (localhost "json") ≡ true
unfolding localhost_profile_defined_in_allowed_profiles ends_with
suffix_test = refl

localhost_test :
    validate (record settings { localhost_profiles = [] }) ≡ err localhost_requires_profiles
unfolding validate
localhost_test = refl

do_validate-answers_example :
    (do_validate bad_pod settings ≡ ok accept)
    ⊎ ((violations : List SeccompError) × (do_validate bad_pod settings ≡ ok (reject violations))
        × (violations ≢ [])
        × ¬ IsFinePod settings bad_pod)
do_validate-answers_example = do_validate-answers settings bad_pod
