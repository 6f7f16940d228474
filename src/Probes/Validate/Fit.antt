-- ===== src/Probes/Validate/Fit.antt =====
-- Which pods the policy accepts.
use policies.Prelude.{
  all_six_iff, map_err_iff, ℤ, ◌≤ℤ◌, ◌≡◌, ◌↔◌, inl, inr, refl, sym, String, true, Option, none,
  some, is_some, List, [], ◌∷◌, Outcome, ok, >>-eq-ok_iff, arith, All, Bool-cases,
}
use policies.K8s.{Probe, Container}
use policies.Probes.Settings.{ProbeTimeConfiguration, ProbeConfiguration, Settings}
use policies.Probes.Validate.{
  ProbeError, ContainerError, check_limit, check_time, validate_time_configuration,
  validate_probe_field, validate_probe, validate_probe_if, validate_container,
  validate_ephemeral_container, cons_error, container_errors,
}

pub record IsWithin (c : ProbeTimeConfiguration) (time : ℤ) : Type 0 where
  pub minimum : (m : ℤ) → c.minimum ≡ some m → m ≤ℤ time
  pub limit : (l : ℤ) → c.limit ≡ some l → time ≤ℤ l

-- A configured value is set, and within its bounds.
abbrev pub FitsTime : Option ℤ → Option ProbeTimeConfiguration → Type 0
FitsTime value none = Unit
FitsTime value (some c) = (time : ℤ) × (value ≡ some time) × IsWithin c time

check_limit_iff :
    (time : ℤ) (limit : Option ℤ)
    → (check_limit time limit ≡ ok tt) ↔ ((l : ℤ) → limit ≡ some l → time ≤ℤ l)
unfolding check_limit
check_limit_iff time none = (λ h l e. cc, λ h. refl)
check_limit_iff time (some limit) = (
  λ h l e. let same : limit ≡ l = cc e in rw (sym same) (ground arith),
  λ h. ground (arith, h limit refl),
)

check_time_iff :
    (time : ℤ) (minimum limit : Option ℤ)
    → (check_time time minimum limit ≡ ok tt)
      ↔ (((m : ℤ) → minimum ≡ some m → m ≤ℤ time) × ((l : ℤ) → limit ≡ some l → time ≤ℤ l))
unfolding check_time
check_time_iff time none limit =
    (λ h. (λ m e. cc, (check_limit_iff time limit).0 h), λ h. (check_limit_iff time limit).1 h.1)
check_time_iff time (some minimum) limit = (
  λ h. (
    λ m e. let same : minimum ≡ m = cc e in rw (sym same) (ground arith),
    (check_limit_iff time limit).0 (ground arith),
  ),
  λ h. ground (arith, h.0 minimum refl, (check_limit_iff time limit).1 h.1),
)

pub validate_time_configuration_iff :
    (value : Option ℤ) (c : Option ProbeTimeConfiguration)
    → (validate_time_configuration value c ≡ ok tt) ↔ FitsTime value c
unfolding validate_time_configuration
validate_time_configuration_iff value none = (λ _. tt, λ _. refl)
validate_time_configuration_iff none (some c) = (λ h. cc, λ h. cc (h.1))
validate_time_configuration_iff (some time) (some c) = (
  λ h.
      let (above, below) = (check_time_iff time c.minimum c.limit).0 h in
      (time, refl, record { minimum = above; limit = below }),
  λ (t, e, w).
      let same : time ≡ t = cc e in
      (check_time_iff time c.minimum c.limit).1 (rw same (w.minimum, w.limit)),
)

field_iff :
    (name : String) (value : Option ℤ) (c : Option ProbeTimeConfiguration)
    → (validate_probe_field name value c ≡ ok tt) ↔ FitsTime value c
unfolding validate_probe_field
field_iff name value c = ground (
  arith,
  validate_time_configuration_iff value c,
  map_err_iff (ProbeError.field_validation_error name) (validate_time_configuration value c),
)

pub record IsFitProbe {X : Type 0} (c : ProbeConfiguration) (p : Probe X) : Type 0 where
  pub period : FitsTime p.period_seconds c.period_seconds
  pub failures : FitsTime p.failure_threshold c.failure_threshold
  pub successes : FitsTime p.success_threshold c.success_threshold
  pub grace_period : FitsTime p.termination_grace_period_seconds c.termination_grace_period_seconds
  pub timeout : FitsTime p.timeout_seconds c.timeout_seconds
  pub initial_delay : FitsTime p.initial_delay_seconds c.initial_delay_seconds

module _ {X : Type 0} where
  validate_probe-fields_iff :
      (p : Probe X) (c : ProbeConfiguration)
      → (validate_probe p c ≡ ok tt) ↔ (
          (validate_probe_field "periodSeconds" p.period_seconds c.period_seconds ≡ ok tt)
          × (validate_probe_field "failureThreshold" p.failure_threshold c.failure_threshold
              ≡ ok tt)
          × (validate_probe_field "successThreshold" p.success_threshold c.success_threshold
              ≡ ok tt)
          × (validate_probe_field "terminationGracePeriodSeconds" p.termination_grace_period_seconds
                c.termination_grace_period_seconds
              ≡ ok tt)
          × (validate_probe_field "timeoutSeconds" p.timeout_seconds c.timeout_seconds ≡ ok tt)
          × (validate_probe_field "initialDelaySeconds" p.initial_delay_seconds
                c.initial_delay_seconds
              ≡ ok tt))
  unfolding validate_probe
  validate_probe-fields_iff p c = all_six_iff _ _ _ _ _ _

  validate_probe_iff :
      (p : Probe X) (c : ProbeConfiguration) → (validate_probe p c ≡ ok tt) ↔ IsFitProbe c p
  validate_probe_iff p c = (
    λ h.
        let (a, b, d, e, f, g) = (validate_probe-fields_iff p c).0 h in
        record {
          period = (field_iff "periodSeconds" p.period_seconds c.period_seconds).0 a;
          failures = (field_iff "failureThreshold" p.failure_threshold c.failure_threshold).0 b;
          successes = (field_iff "successThreshold" p.success_threshold c.success_threshold).0 d;
          grace_period =
              (field_iff "terminationGracePeriodSeconds" p.termination_grace_period_seconds
                  c.termination_grace_period_seconds).0
                e;
          timeout = (field_iff "timeoutSeconds" p.timeout_seconds c.timeout_seconds).0 f;
          initial_delay =
              (field_iff "initialDelaySeconds" p.initial_delay_seconds c.initial_delay_seconds).0 g;
        },
    λ w. (validate_probe-fields_iff p c).1 (
      (field_iff "periodSeconds" p.period_seconds c.period_seconds).1 w.period,
      (field_iff "failureThreshold" p.failure_threshold c.failure_threshold).1 w.failures,
      (field_iff "successThreshold" p.success_threshold c.success_threshold).1 w.successes,
      (field_iff "terminationGracePeriodSeconds" p.termination_grace_period_seconds
            c.termination_grace_period_seconds).1
          w.grace_period,
      (field_iff "timeoutSeconds" p.timeout_seconds c.timeout_seconds).1 w.timeout,
      (field_iff "initialDelaySeconds" p.initial_delay_seconds c.initial_delay_seconds).1
          w.initial_delay,
    ),
  )

  -- An enforced probe is there, and fits.
  abbrev pub FitsProbe : ProbeConfiguration → Option (Probe X) → Type 0
  FitsProbe c o = c.enforce ≡ true → (p : Probe X) × (o ≡ some p) × IsFitProbe c p

  abbrev pub HasProbe : ProbeConfiguration → Option (Probe X) → Type 0
  HasProbe c o = c.enforce ≡ true → is_some o ≡ true

  abbrev pub IsFitContainer : Settings → Container X → Type 0
  IsFitContainer s c =
      FitsProbe s.liveness c.liveness_probe × FitsProbe s.readiness c.readiness_probe

  -- The times of the probes of an ephemeral container do not matter.
  abbrev pub IsFitEphemeral : Settings → Container X → Type 0
  IsFitEphemeral s c = HasProbe s.liveness c.liveness_probe × HasProbe s.readiness c.readiness_probe

  validate_probe_if_iff :
      (o : Option (Probe X)) (c : ProbeConfiguration) (missing : ProbeError)
      → (validate_probe_if o c missing ≡ ok tt) ↔ FitsProbe c o
  unfolding validate_probe_if
  validate_probe_if_iff none c missing = (
    λ h on. absurd (ground arith),
    λ h. elim (Bool-cases c.enforce) [
      | inl on ↦ let (p, e, _) = h on in cc e
      | inr off ↦ ground arith
    ],
  )
  validate_probe_if_iff (some p) c missing = (
    λ h on. (p, refl, (validate_probe_iff p c).0 (ground arith)),
    λ h. elim (Bool-cases c.enforce) [
      | inl on ↦
          let (p', e, fit) = h on in
          let same : p ≡ p' = cc e in
          let fits : validate_probe p c ≡ ok tt = (validate_probe_iff p c).1 (rw same fit) in
          ground arith
      | inr off ↦ ground arith
    ],
  )

  pub validate_container_iff :
      (c : Container X) (s : Settings) → (validate_container c s ≡ ok tt) ↔ IsFitContainer s c
  unfolding validate_container
  validate_container_iff c s =
      let both =
        >>-eq-ok_iff
          (validate_probe_if c.liveness_probe s.liveness (ProbeError.missing_liveness_probe c.name))
          (validate_probe_if c.readiness_probe s.readiness
            (ProbeError.missing_readiness_probe c.name))
          tt in
      let live =
        validate_probe_if_iff c.liveness_probe s.liveness
          (ProbeError.missing_liveness_probe c.name) in
      let ready =
        validate_probe_if_iff c.readiness_probe s.readiness
          (ProbeError.missing_readiness_probe c.name) in
      (λ h. let (a, b) = both.0 h in (live.0 a, ready.0 b), λ w. both.1 (live.1 w.0, ready.1 w.1))

  pub validate_ephemeral_container_iff :
      (c : Container X) (s : Settings)
      → (validate_ephemeral_container c s ≡ ok tt) ↔ IsFitEphemeral s c
  unfolding validate_ephemeral_container
  validate_ephemeral_container_iff c s = ground arith

  module _ (kind : String → ProbeError → ContainerError)
      (check : Container X → Settings → Outcome ProbeError (Unit {0})) (s : Settings)
      (Fits : Container X → Type 0)
      (check_iff : (c : Container X) → (check c s ≡ ok tt) ↔ Fits c) where
    pub container_errors_iff :
        (cs : List (Container X)) → (container_errors kind check cs s ≡ ok []) ↔ All Fits cs
    unfolding container_errors cons_error
    container_errors_iff [] = (λ _. tt, λ _. refl)
    container_errors_iff (c ∷ cs) = ground (arith, check_iff c, container_errors_iff cs)
