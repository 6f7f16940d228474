-- ===== src/Examples/ProbeTimes.antt =====
-- policies/probes-policy at concrete settings and pods.
use policies.Prelude.{ℤ, pos, ◌≡◌, ◌≢◌, ◌⊎◌, refl, Option, none, some, List, [], ◌∷◌, ok, false}
use policies.K8s.{Probe, Container, PodSpec}
use policies.Sdk.{accept, reject, pod_spec}
use policies.Probes.Settings.{
  ProbeTimeConfiguration, Settings, default_configuration, validate_time,
}
use policies.Probes.Validate.{
  ContainerError, invalid_containers, field_validation_error, above_limit, missing_liveness_probe,
  validate_time_configuration, validate_probe, validate_container, validate_ephemeral_container,
  validate_pod, validate,
}
use policies.Probes.Validate.Pods.{IsFitPod, validate-IsFitPod}
use policies.Probes.Validate.Agreement.{validate_time-validate_time_configuration}

abbrev bounds : ProbeTimeConfiguration
bounds = record { minimum = some (pos 5); limit = some (pos 15) }

abbrev settings : Settings
settings = record {
  liveness = record default_configuration { period_seconds = some bounds };
  readiness = record default_configuration { enforce = false };
}

abbrev probe : ℤ → Probe Unit
probe period = record {
  period_seconds = some period;
  failure_threshold = none;
  success_threshold = none;
  termination_grace_period_seconds = none;
  timeout_seconds = none;
  initial_delay_seconds = none;
  others = tt;
}

abbrev with_probe : Option (Probe Unit) → Container Unit
with_probe p = record {
  name = "main";
  image = none;
  env = none;
  volume_mounts = none;
  liveness_probe = p;
  readiness_probe = none;
  security_context = none;
  others = tt;
}

abbrev pod : ℤ → Option (Probe Unit) → PodSpec Unit
pod period ephemeral = record {
  containers = with_probe (some (probe period)) ∷ [];
  init_containers = none;
  ephemeral_containers = some (with_probe ephemeral ∷ []);
  automount_service_account_token = none;
  service_account_name = none;
  service_account = none;
  priority_class_name = none;
  security_context = none;
  others = tt;
}

-- The time of the probe of an ephemeral container does not matter.
accept_test : validate settings (pod_spec (pod (pos 10) (some (probe (pos 99))))) ≡ ok accept
unfolding validate validate_pod validate_container validate_probe validate_time_configuration
    validate_ephemeral_container
accept_test = refl

reject_test :
    validate settings (pod_spec (pod (pos 16) none))
    ≡ ok (
        reject (
          invalid_containers (
            ContainerError.container "main"
              (field_validation_error "periodSeconds" (above_limit (pos 16) (pos 15)))
            ∷ ContainerError.ephemeral_container "main" (missing_liveness_probe "main")
            ∷ [])))
unfolding validate validate_pod validate_container validate_probe validate_time_configuration
    validate_ephemeral_container
reject_test = refl

validate-IsFitPod_example :
    ((validate settings (pod_spec (pod (pos 16) none)) ≡ ok accept)
      × IsFitPod settings (pod (pos 16) none))
    ⊎ ((errors : List ContainerError) × (validate settings (pod_spec (pod (pos 16) none))
          ≡ ok (reject (invalid_containers errors)))
        × (errors ≢ [])
        × (¬ IsFitPod settings (pod (pos 16) none)))
validate-IsFitPod_example = validate-IsFitPod settings (pod (pos 16) none)

bounds_valid : validate_time bounds ≡ ok tt
unfolding validate_time
bounds_valid = refl

validate_time-validate_time_configuration_example :
    (time : ℤ) × (validate_time_configuration (some time) (some bounds) ≡ ok tt)
validate_time-validate_time_configuration_example =
    validate_time-validate_time_configuration bounds bounds_valid
