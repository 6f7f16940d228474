-- ===== src/Probes/Settings/Validity.antt =====
-- Which settings `validate` accepts.
use policies.Prelude.{
  map_err, map_err_iff, all_six_iff, ℤ, pos, ◌≤ℤ◌, ◌≡◌, ◌↔◌, refl, String, true, ◌||◌, Option, none,
  some, is_some, ok, >>-eq-ok_iff, arith,
}
use policies.Probes.Settings.{
  ProbeSettingError, SettingsError, ProbeTimeConfiguration, ProbeConfiguration, Settings,
  is_positive, is_ordered, validate_time, validate_field, validate_configuration, validate,
}

-- Some bound is set; the bounds are positive, and in order.
pub record IsProperTime (c : ProbeTimeConfiguration) : Type 0 where
  pub some_bound : ¬ ((c.minimum ≡ none) × (c.limit ≡ none))
  pub minimum : (m : ℤ) → c.minimum ≡ some m → ¬ (m ≤ℤ pos 0)
  pub limit : (l : ℤ) → c.limit ≡ some l → ¬ (l ≤ℤ pos 0)
  pub order : (m l : ℤ) → c.minimum ≡ some m → c.limit ≡ some l → m ≤ℤ l

is_positive_iff : (o : Option ℤ) → (is_positive o ≡ true) ↔ ((n : ℤ) → o ≡ some n → ¬ (n ≤ℤ pos 0))
unfolding is_positive
is_positive_iff none = (λ h n e. cc, λ h. refl)
is_positive_iff (some k) =
    (λ h n e below. let same : k ≡ n = cc e in ground arith, λ h. ground (arith, h k refl))

is_ordered_iff :
    (a b : Option ℤ) → (is_ordered a b ≡ true) ↔ ((m l : ℤ) → a ≡ some m → b ≡ some l → m ≤ℤ l)
unfolding is_ordered
is_ordered_iff none b = (λ h m l e e'. cc, λ h. refl)
is_ordered_iff (some a) none = (λ h m l e e'. cc, λ h. refl)
is_ordered_iff (some a) (some b) = (λ h m l e e'. cc (e, e', h), λ h. h a b refl refl)

tests_iff :
    (c : ProbeTimeConfiguration)
    → (validate_time c ≡ ok tt) ↔ (
        ((is_some c.minimum || is_some c.limit) ≡ true)
        × (is_positive c.minimum ≡ true)
        × (is_positive c.limit ≡ true)
        × (is_ordered c.minimum c.limit ≡ true))
unfolding validate_time
tests_iff c = ground arith

some_bound_iff :
    (a b : Option ℤ) → ((is_some a || is_some b) ≡ true) ↔ (¬ ((a ≡ none) × (b ≡ none)))
some_bound_iff a b = ground arith

pub validate_time-IsProperTime_iff :
    (c : ProbeTimeConfiguration) → (validate_time c ≡ ok tt) ↔ IsProperTime c
validate_time-IsProperTime_iff c = (
  λ h.
      let (a, b, d, e) = (tests_iff c).0 h in
      record {
        some_bound = (some_bound_iff c.minimum c.limit).0 a;
        minimum = (is_positive_iff c.minimum).0 b;
        limit = (is_positive_iff c.limit).0 d;
        order = (is_ordered_iff c.minimum c.limit).0 e;
      },
  λ w. (tests_iff c).1 (
    (some_bound_iff c.minimum c.limit).1 w.some_bound,
    (is_positive_iff c.minimum).1 w.minimum,
    (is_positive_iff c.limit).1 w.limit,
    (is_ordered_iff c.minimum c.limit).1 w.order,
  ),
)

abbrev pub IsProperIf : Option ProbeTimeConfiguration → Type 0
IsProperIf none = Unit
IsProperIf (some c) = IsProperTime c

validate_field_iff :
    (name : String) (c : Option ProbeTimeConfiguration)
    → (validate_field name c ≡ ok tt) ↔ IsProperIf c
unfolding validate_field
validate_field_iff name none = (λ _. tt, λ _. refl)
validate_field_iff name (some c) =
    let outer = map_err_iff (ProbeSettingError.invalid_field name) (validate_time c) in
    let inner = validate_time-IsProperTime_iff c in
    (λ h. inner.0 (outer.0 h), λ w. outer.1 (inner.1 w))

pub record IsProperConfiguration (c : ProbeConfiguration) : Type 0 where
  pub period_seconds : IsProperIf c.period_seconds
  pub failure_threshold : IsProperIf c.failure_threshold
  pub initial_delay_seconds : IsProperIf c.initial_delay_seconds
  pub success_threshold : IsProperIf c.success_threshold
  pub termination_grace_period_seconds : IsProperIf c.termination_grace_period_seconds
  pub timeout_seconds : IsProperIf c.timeout_seconds

validate_configuration_iff :
    (c : ProbeConfiguration) → (validate_configuration c ≡ ok tt) ↔ IsProperConfiguration c
unfolding validate_configuration
validate_configuration_iff c = (
  λ h.
      let (p, f, i, s, g, t) = (all_six_iff _ _ _ _ _ _).0 h in
      record {
        period_seconds = (validate_field_iff "periodSeconds" c.period_seconds).0 p;
        failure_threshold = (validate_field_iff "failureThreshold" c.failure_threshold).0 f;
        initial_delay_seconds =
            (validate_field_iff "initialDelaySeconds" c.initial_delay_seconds).0 i;
        success_threshold = (validate_field_iff "successThreshold" c.success_threshold).0 s;
        termination_grace_period_seconds =
            (validate_field_iff "terminationGracePeriodSeconds"
                c.termination_grace_period_seconds).0
              g;
        timeout_seconds = (validate_field_iff "timeoutSeconds" c.timeout_seconds).0 t;
      },
  λ w. (all_six_iff _ _ _ _ _ _).1 (
    (validate_field_iff "periodSeconds" c.period_seconds).1 w.period_seconds,
    (validate_field_iff "failureThreshold" c.failure_threshold).1 w.failure_threshold,
    (validate_field_iff "initialDelaySeconds" c.initial_delay_seconds).1 w.initial_delay_seconds,
    (validate_field_iff "successThreshold" c.success_threshold).1 w.success_threshold,
    (validate_field_iff "terminationGracePeriodSeconds" c.termination_grace_period_seconds).1
        w.termination_grace_period_seconds,
    (validate_field_iff "timeoutSeconds" c.timeout_seconds).1 w.timeout_seconds,
  ),
)

pub record AreProbeSettings (s : Settings) : Type 0 where
  pub enforced : (s.liveness.enforce || s.readiness.enforce) ≡ true
  pub liveness : IsProperConfiguration s.liveness
  pub readiness : IsProperConfiguration s.readiness

-- The settings pass the check exactly when some kind of probe is enforced, and each time that is
-- configured, enforced or not, has a bound, no bound at or below zero, and no minimum above its
-- limit.
pub validate-AreProbeSettings_iff : (s : Settings) → (validate s ≡ ok tt) ↔ AreProbeSettings s
unfolding validate
validate-AreProbeSettings_iff s =
    let live =
      map_err_iff SettingsError.invalid_liveness_settings (validate_configuration s.liveness) in
    let ready =
      map_err_iff SettingsError.invalid_readiness_settings (validate_configuration s.readiness) in
    let both =
      >>-eq-ok_iff
        (map_err SettingsError.invalid_liveness_settings (validate_configuration s.liveness))
        (map_err SettingsError.invalid_readiness_settings (validate_configuration s.readiness))
        tt in
    (
      λ h.
          let (l, r) = both.0 (ground arith) in
          record {
            enforced = ground arith;
            liveness = (validate_configuration_iff s.liveness).0 (live.0 l);
            readiness = (validate_configuration_iff s.readiness).0 (ready.0 r);
          },
      λ w.
          let steps = both.1 (
            live.1 ((validate_configuration_iff s.liveness).1 w.liveness),
            ready.1 ((validate_configuration_iff s.readiness).1 w.readiness),
          ) in
          ground (arith, steps, w.enforced),
    )
