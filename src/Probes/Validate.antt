-- ===== src/Probes/Validate.antt =====
-- policies/probes-policy/src/lib.rs.
pub mod Fit
pub mod Pods
pub mod Agreement
use policies.Prelude.{
  map_err, ℤ, leb_ℤ, String, Bool, true, false, not, ◌&&◌, Option, none, some, is_some, List, [],
  ◌∷◌, ◌++◌, Outcome, ok, err, panic, ◌>>=◌, ◌>>◌, is_empty, unwrap_or, if◌then◌else◌,
}
use policies.K8s.{Probe, Container, PodSpec}
use policies.Sdk.{Response, accept, reject, Extracted, pod_spec, no_pod_spec, unreadable}
use policies.Probes.Settings.{ProbeTimeConfiguration, ProbeConfiguration, Settings}

pub data PolicyValidationError : Type 0 where
  below_minimum above_limit : ℤ → ℤ → PolicyValidationError
  missing_value : PolicyValidationError

pub data ProbeError : Type 0 where
  field_validation_error : String → PolicyValidationError → ProbeError
  missing_liveness_probe missing_readiness_probe : String → ProbeError

pub data ContainerError : Type 0 where
  container init_container ephemeral_container : String → ProbeError → ContainerError

pub data Rejection : Type 0 where
  invalid_containers : List ContainerError → Rejection
  cannot_parse_request : Rejection

check_limit : ℤ → Option ℤ → Outcome PolicyValidationError (Unit {0})
check_limit time none = ok tt
check_limit time (some limit) = if leb_ℤ time limit then ok tt else err (above_limit time limit)

check_time : ℤ → Option ℤ → Option ℤ → Outcome PolicyValidationError (Unit {0})
check_time time none limit = check_limit time limit
check_time time (some minimum) limit =
    if leb_ℤ minimum time then check_limit time limit else err (below_minimum time minimum)

unfoldable pub validate_time_configuration :
    Option ℤ → Option ProbeTimeConfiguration → Outcome PolicyValidationError (Unit {0})
unfolding check_time check_limit
validate_time_configuration time_value none = ok tt
validate_time_configuration none (some c) = err missing_value
validate_time_configuration (some time) (some c) = check_time time c.minimum c.limit

validate_probe_field :
    String → Option ℤ → Option ProbeTimeConfiguration → Outcome ProbeError (Unit {0})
validate_probe_field name value c =
    map_err (field_validation_error name) (validate_time_configuration value c)

-- `if let Err(e) = container_valid`: the errors whose texts are put together.
cons_error :
    (ProbeError → ContainerError)
    → Outcome ProbeError (Unit {0})
    → Outcome (List ContainerError) (List ContainerError)
    → Outcome (List ContainerError) (List ContainerError)
cons_error kind (ok u) rest = rest
cons_error kind (err e) (ok errors) = ok (kind e ∷ errors)
cons_error kind (err e) rest = rest
cons_error kind panic rest = panic

module _ {X : Type 0} where
  unfoldable pub validate_probe : Probe X → ProbeConfiguration → Outcome ProbeError (Unit {0})
  unfolding validate_probe_field
  validate_probe p c = do
    validate_probe_field "periodSeconds" p.period_seconds c.period_seconds
    validate_probe_field "failureThreshold" p.failure_threshold c.failure_threshold
    validate_probe_field "successThreshold" p.success_threshold c.success_threshold
    validate_probe_field "terminationGracePeriodSeconds" p.termination_grace_period_seconds
        c.termination_grace_period_seconds
    validate_probe_field "timeoutSeconds" p.timeout_seconds c.timeout_seconds
    validate_probe_field "initialDelaySeconds" p.initial_delay_seconds c.initial_delay_seconds

  validate_probe_if :
      Option (Probe X) → ProbeConfiguration → ProbeError → Outcome ProbeError (Unit {0})
  validate_probe_if (some p) c missing = if c.enforce then validate_probe p c else ok tt
  validate_probe_if none c missing = if c.enforce then err missing else ok tt

  unfoldable pub validate_container : Container X → Settings → Outcome ProbeError (Unit {0})
  unfolding validate_probe_if
  validate_container c s = do
    validate_probe_if c.liveness_probe s.liveness (missing_liveness_probe c.name)
    validate_probe_if c.readiness_probe s.readiness (missing_readiness_probe c.name)

  unfoldable pub validate_ephemeral_container :
      Container X → Settings → Outcome ProbeError (Unit {0})
  validate_ephemeral_container c s =
      if not (is_some c.liveness_probe) && s.liveness.enforce
      then err (missing_liveness_probe c.name)
      else if not (is_some c.readiness_probe) && s.readiness.enforce
      then err (missing_readiness_probe c.name)
      else ok tt

  pub container_errors :
      (String → ProbeError → ContainerError)
      → (Container X → Settings → Outcome ProbeError (Unit {0}))
      → List (Container X)
      → Settings
      → Outcome (List ContainerError) (List ContainerError)
  container_errors kind check [] s = ok []
  container_errors kind check (c ∷ cs) s =
      cons_error (kind c.name) (check c s) (container_errors kind check cs s)

  unfoldable pub validate_pod : PodSpec X → Settings → Outcome (List ContainerError) (Unit {0})
  unfolding container_errors cons_error
  validate_pod p s = do
    containers ← container_errors container validate_container p.containers s
    inits ← container_errors init_container validate_container (unwrap_or [] p.init_containers) s
    ephemerals ←
        container_errors ephemeral_container validate_ephemeral_container
          (unwrap_or [] p.ephemeral_containers) s
    let errors = containers ++ (inits ++ ephemerals)
    if is_empty errors then ok tt else err errors

  unfoldable pub validate :
      Settings
      → Extracted (PodSpec X)
      → Outcome (List ContainerError) (Response Rejection (PodSpec X))
  validate s unreadable = ok (reject cannot_parse_request)
  validate s no_pod_spec = ok accept
  validate s (pod_spec p) = elim (validate_pod p s) [
    | ok u ↦ ok accept
    | err errors ↦ ok (reject (invalid_containers errors))
    | panic ↦ panic
  ]
