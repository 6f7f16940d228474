-- ===== src/Probes/Validate/Pods.antt =====
-- What the policy answers to pods.
use policies.Prelude.{
  map_err, ℤ, ◌≡◌, ◌≢◌, ◌↔◌, ◌⊎◌, inl, inr, refl, String, Option, none, some, List, [], ◌∷◌, ◌++◌,
  Outcome, ok, err, panic, ◌>>◌, is_empty, unwrap_or, arith, if◌then◌else◌, All, ++-eq-nil_iff,
}
use policies.K8s.{Probe, Container, PodSpec}
use policies.Sdk.{accept, reject, pod_spec}
use policies.Probes.Settings.{ProbeTimeConfiguration, ProbeConfiguration, Settings}
use policies.Probes.Validate.{
  ProbeError, ContainerError, container, init_container, ephemeral_container, check_limit,
  check_time, validate_time_configuration, validate_probe_field, validate_probe, validate_probe_if,
  validate_container, invalid_containers, validate_ephemeral_container, cons_error,
  container_errors, validate_pod, validate,
}
use policies.Probes.Validate.Fit.{
  IsFitContainer, IsFitEphemeral, validate_container_iff, validate_ephemeral_container_iff,
  container_errors_iff,
}

map_err-ne-panic :
    {E F : Type 0} (f : E → F) (r : Outcome E (Unit {0})) → r ≢ panic → map_err f r ≢ panic
map_err-ne-panic f (ok u) h = λ e. cc
map_err-ne-panic f (err e) h = λ e'. cc
map_err-ne-panic f panic h = absurd (h refl)

>>-ne-panic : {E : Type 0} (a b : Outcome E (Unit {0})) → a ≢ panic → b ≢ panic → (a >> b) ≢ panic
>>-ne-panic (ok u) b h k = k
>>-ne-panic (err e) b h k = λ e'. cc
>>-ne-panic panic b h k = absurd (h refl)

field-ne-panic :
    (name : String) (value : Option ℤ) (c : Option ProbeTimeConfiguration)
    → validate_probe_field name value c ≢ panic
unfolding validate_probe_field validate_time_configuration check_time check_limit
field-ne-panic name value c = ground arith

six-ne-panic :
    {E : Type 0} (a b c d e f : Outcome E (Unit {0}))
    → a ≢ panic
    → b ≢ panic
    → c ≢ panic
    → d ≢ panic
    → e ≢ panic
    → f ≢ panic
    → (a >> (b >> (c >> (d >> (e >> f))))) ≢ panic
six-ne-panic a b c d e f ha hb hc hd he hf =
    >>-ne-panic a _ ha
      (>>-ne-panic b _ hb (>>-ne-panic c _ hc (>>-ne-panic d _ hd (>>-ne-panic e f he hf))))

module _ {X : Type 0} where
  validate_probe-ne-panic : (p : Probe X) (c : ProbeConfiguration) → validate_probe p c ≢ panic
  unfolding validate_probe
  validate_probe-ne-panic p c =
      six-ne-panic _ _ _ _ _ _ (field-ne-panic "periodSeconds" p.period_seconds c.period_seconds)
        (field-ne-panic "failureThreshold" p.failure_threshold c.failure_threshold)
        (field-ne-panic "successThreshold" p.success_threshold c.success_threshold)
        (field-ne-panic "terminationGracePeriodSeconds" p.termination_grace_period_seconds
          c.termination_grace_period_seconds)
        (field-ne-panic "timeoutSeconds" p.timeout_seconds c.timeout_seconds)
        (field-ne-panic "initialDelaySeconds" p.initial_delay_seconds c.initial_delay_seconds)

  validate_probe_if-ne-panic :
      (o : Option (Probe X)) (c : ProbeConfiguration) (missing : ProbeError)
      → validate_probe_if o c missing ≢ panic
  unfolding validate_probe_if
  validate_probe_if-ne-panic none c missing = ground arith
  validate_probe_if-ne-panic (some p) c missing = ground (arith, validate_probe-ne-panic p c)

  validate_container-ne-panic : (c : Container X) (s : Settings) → validate_container c s ≢ panic
  unfolding validate_container
  validate_container-ne-panic c s =
      >>-ne-panic _ _
        (validate_probe_if-ne-panic c.liveness_probe s.liveness
          (ProbeError.missing_liveness_probe c.name))
        (validate_probe_if-ne-panic c.readiness_probe s.readiness
          (ProbeError.missing_readiness_probe c.name))

  validate_ephemeral_container-ne-panic :
      (c : Container X) (s : Settings) → validate_ephemeral_container c s ≢ panic
  unfolding validate_ephemeral_container
  validate_ephemeral_container-ne-panic c s = ground arith

  module _ (kind : String → ProbeError → ContainerError)
      (check : Container X → Settings → Outcome ProbeError (Unit {0})) (s : Settings)
      (no_panic : (c : Container X) → check c s ≢ panic) where
    container_errors-ok :
        (cs : List (Container X))
        → (errors : List ContainerError) × (container_errors kind check cs s ≡ ok errors)
    unfolding container_errors cons_error
    container_errors-ok [] = ([], refl)
    container_errors-ok (c ∷ cs) =
        let (rest, e) = container_errors-ok cs in by_check (check c s) (no_panic c) rest e
      where
        by_check :
            (r : Outcome ProbeError (Unit {0}))
            → r ≢ panic
            → (rest : List ContainerError) → container_errors kind check cs s ≡ ok rest
            → (errors : List ContainerError) × (cons_error
                  (kind c.name)
                  r
                  (container_errors kind check cs s)
                ≡ ok errors)
        by_check (ok u) h rest e = (rest, e)
        by_check (err reason) h rest e = (kind c.name reason ∷ rest, ground arith)
        by_check panic h rest e = absurd (h refl)

  module _ (s : Settings) (p : PodSpec X) where
    -- Every container of each kind has the probes that it must have.
    pub record IsFitPod : Type 0 where
      pub containers : All (IsFitContainer s) p.containers
      pub init_containers : All (IsFitContainer s) (unwrap_or [] p.init_containers)
      pub ephemeral_containers : All (IsFitEphemeral s) (unwrap_or [] p.ephemeral_containers)

    errors_of :
        (a b c : List ContainerError)
        → container_errors container validate_container p.containers s ≡ ok a
        → container_errors init_container validate_container (unwrap_or [] p.init_containers) s
          ≡ ok b
        → container_errors ephemeral_container validate_ephemeral_container
            (unwrap_or [] p.ephemeral_containers)
            s
          ≡ ok c
        → validate_pod p s ≡ (if is_empty (a ++ (b ++ c)) then ok tt else err (a ++ (b ++ c)))
    unfolding validate_pod
    errors_of a b c ea eb ec = rw (ea, eb, ec) refl

    fit_of_nil :
        (a b c : List ContainerError)
        → container_errors container validate_container p.containers s ≡ ok a
        → container_errors init_container validate_container (unwrap_or [] p.init_containers) s
          ≡ ok b
        → container_errors ephemeral_container validate_ephemeral_container
            (unwrap_or [] p.ephemeral_containers)
            s
          ≡ ok c
        → (a ++ (b ++ c) ≡ []) ↔ IsFitPod
    fit_of_nil a b c ea eb ec =
        let first =
          container_errors_iff container validate_container s (IsFitContainer s)
            (λ k. validate_container_iff k s) p.containers in
        let second =
          container_errors_iff init_container validate_container s (IsFitContainer s)
            (λ k. validate_container_iff k s) (unwrap_or [] p.init_containers) in
        let third =
          container_errors_iff ephemeral_container validate_ephemeral_container s (IsFitEphemeral s)
            (λ k. validate_ephemeral_container_iff k s) (unwrap_or [] p.ephemeral_containers) in
        (
          λ h.
              let (na, nbc) = (++-eq-nil_iff a (b ++ c)).0 h in
              let (nb, nc) = (++-eq-nil_iff b c).0 nbc in
              record {
                containers = first.0 (cc (ea, na));
                init_containers = second.0 (cc (eb, nb));
                ephemeral_containers = third.0 (cc (ec, nc));
              },
          λ w.
              let na : a ≡ [] = cc (ea, first.1 w.containers) in
              let nb : b ≡ [] = cc (eb, second.1 w.init_containers) in
              let nc : c ≡ [] = cc (ec, third.1 w.ephemeral_containers) in
              (++-eq-nil_iff a (b ++ c)).1 (na, (++-eq-nil_iff b c).1 (nb, nc)),
        )

    decided :
        (l : List ContainerError)
        → validate_pod p s ≡ (if is_empty l then ok tt else err l)
        → (l ≡ []) ↔ IsFitPod
        → ((validate s (pod_spec p) ≡ ok accept) × IsFitPod)
          ⊎ ((errors : List ContainerError) × (validate s (pod_spec p)
                ≡ ok (reject (invalid_containers errors)))
              × (errors ≢ [])
              × (¬ IsFitPod))
    unfolding validate
    decided [] e fit = inl (ground arith, fit.0 refl)
    decided (x ∷ l) e fit = inr (x ∷ l, ground arith, (λ h. cc), λ w. cc (fit.1 w))

    -- The policy always answers to a pod. It accepts it if every container and init container has the
    -- enforced probes, with each configured time set and within its bounds, and every ephemeral
    -- container has the enforced probes, whatever their times; else it rejects the pod, with at
    -- least one error.
    pub validate-IsFitPod :
        ((validate s (pod_spec p) ≡ ok accept) × IsFitPod)
        ⊎ ((errors : List ContainerError) × (validate s (pod_spec p)
              ≡ ok (reject (invalid_containers errors)))
            × (errors ≢ [])
            × (¬ IsFitPod))
    validate-IsFitPod =
        let (a, ea) =
          container_errors-ok container validate_container s (λ c. validate_container-ne-panic c s)
            p.containers in
        let (b, eb) =
          container_errors-ok init_container validate_container s
            (λ c. validate_container-ne-panic c s) (unwrap_or [] p.init_containers) in
        let (c, ec) =
          container_errors-ok ephemeral_container validate_ephemeral_container s
            (λ c. validate_ephemeral_container-ne-panic c s)
            (unwrap_or [] p.ephemeral_containers) in
        decided (a ++ (b ++ c)) (errors_of a b c ea eb ec) (fit_of_nil a b c ea eb ec)
