-- ===== src/Probes/Validate/Agreement.antt =====
-- That the check of the settings and the check of the probes agree.
use policies.Prelude.{ℤ, ≤ℤ_refl, ◌≡◌, inl, inr, refl, some, ok, Option-cases}
use policies.Probes.Settings.{ProbeTimeConfiguration, validate_time}
use policies.Probes.Settings.Validity.{IsProperTime, validate_time-IsProperTime_iff}
use policies.Probes.Validate.{validate_time_configuration}
use policies.Probes.Validate.Fit.{IsWithin, validate_time_configuration_iff}

IsWithin-own_bound : (c : ProbeTimeConfiguration) → IsProperTime c → (time : ℤ) × IsWithin c time
IsWithin-own_bound c w = elim (Option-cases c.minimum) [
  | inr (m, e) ↦ (
    m,
    record {
      minimum = λ m' e'. let same : m ≡ m' = cc (e, e') in rw same (≤ℤ_refl m');
      limit = λ l e'. w.order m l e e';
    },
  )
  | inl no_minimum ↦ elim (Option-cases c.limit) [
    | inr (l, e) ↦ (
      l,
      record {
        minimum = λ m e'. cc (e', no_minimum);
        limit = λ l' e'. let same : l ≡ l' = cc (e, e') in rw same (≤ℤ_refl l');
      },
    )
    | inl no_limit ↦ absurd (w.some_bound (no_minimum, no_limit))
  ]
]

-- A time whose configuration passes the check of the settings can be met: some value of the probe
-- passes its own check.
pub validate_time-validate_time_configuration :
    (c : ProbeTimeConfiguration)
    → validate_time c ≡ ok tt
    → (time : ℤ) × (validate_time_configuration (some time) (some c) ≡ ok tt)
validate_time-validate_time_configuration c valid =
    let (time, within) = IsWithin-own_bound c ((validate_time-IsProperTime_iff c).0 valid) in
    (time, (validate_time_configuration_iff (some time) (some c)).1 (time, refl, within))
