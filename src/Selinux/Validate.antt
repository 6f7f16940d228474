-- ===== src/Selinux/Validate.antt =====
-- policies/selinux-psp-policy/src/lib.rs.
pub mod Compliance
pub mod Defaults
pub mod Walk
pub mod Guarantees
pub mod Repeat
use policies.Prelude.{
  ◌≡◌, String, Bool, true, false, ◌&&◌, Option, none, some, List, [], ◌∷◌, Outcome, ok, err, panic,
  ◌==◌, if◌then◌else◌,
}
use policies.K8s
use policies.K8s.{
  SecurityContext, PodSecurityContext, Container, PodSpec, Pod, default_security_context,
  default_pod_security_context,
}
use policies.Sdk.{Response, accept, reject, mutate}
use policies.Selinux.Settings.{
  ExternalSettings, try_from, SeLinuxLevel, SeLinuxOptions, Settings, SettingsError, new, level_eq,
  into, must_run_as, run_as_any,
}

pub data SeLinuxError : Type 0 where
  validation_failed invalid_pod_spec : SeLinuxError

-- `==` of two `Option<String>`.
unfoldable pub option_eq : Option String → Option String → Bool
option_eq none none = true
option_eq (some a) (some b) = a == b
option_eq a b = false

is_level : SeLinuxLevel → Outcome SettingsError SeLinuxLevel → Bool
is_level expected (ok level) = level_eq level expected
is_level expected other = false

level_complies : Option SeLinuxLevel → Option String → Bool
unfolding is_level
level_complies (some expected) (some level) = is_level expected (new level)
level_complies expected level = true

unfoldable pub is_selinux_compliant : K8s.SeLinuxOptions → SeLinuxOptions → Bool
unfolding level_complies
is_selinux_compliant options expected =
    if level_complies expected.level options.level
    then option_eq options.role expected.role
      && (option_eq options.type_ expected.type_ && option_eq options.user expected.user)
    else false

-- `none` is the early return of a rejection.
module _ {X : Type 0} (unset : X) (expected : SeLinuxOptions) where
  pub default_pod_context : Option (PodSecurityContext X) → Option (Option (PodSecurityContext X))
  default_pod_context none = some (
      some
        (record (default_pod_security_context unset) { se_linux_options = some (into expected) }))
  default_pod_context (some sc) = elim sc.se_linux_options [
    | none ↦ some (some (record sc { se_linux_options = some (into expected) }))
    | some options ↦ if is_selinux_compliant options expected then some (some sc) else none
  ]

  default_context : Option (SecurityContext X) → Option (Option (SecurityContext X))
  default_context none =
      some
        (some (record (default_security_context unset) { se_linux_options = some (into expected) }))
  default_context (some sc) = elim sc.se_linux_options [
    | none ↦ some (some (record sc { se_linux_options = some (into expected) }))
    | some options ↦ if is_selinux_compliant options expected then some (some sc) else none
  ]

  pub default_container : Container X → Option (Container X)
  unfolding default_context
  default_container c = elim (default_context c.security_context) [
    | none ↦ none
    | some context ↦ some (record c { security_context = context })
  ]

  cons_if : Option (Container X) → Option (List (Container X)) → Option (List (Container X))
  cons_if (some c) (some cs) = some (c ∷ cs)
  cons_if c cs = none

  default_containers : List (Container X) → Option (List (Container X))
  unfolding cons_if
  default_containers [] = some []
  default_containers (c ∷ cs) = cons_if (default_container c) (default_containers cs)

  default_optional : Option (List (Container X)) → Option (Option (List (Container X)))
  default_optional none = some none
  default_optional (some cs) = elim (default_containers cs) [
    | none ↦ none
    | some ds ↦ some (some ds)
  ]

  unfoldable pub default_pod_spec : PodSpec X → Option (PodSpec X)
  unfolding default_pod_context default_containers default_optional default_container
  default_pod_spec p = elim (default_pod_context p.security_context) [
    | none ↦ none
    | some context ↦ elim (default_containers p.containers) [
      | none ↦ none
      | some containers ↦ elim (default_optional p.init_containers) [
        | none ↦ none
        | some inits ↦ elim (default_optional p.ephemeral_containers) [
          | none ↦ none
          | some ephemerals ↦ some (record p {
            containers = containers;
            init_containers = inits;
            ephemeral_containers = ephemerals;
            security_context = context;
          })
        ]
      ]
    ]
  ]

-- `PartialEq` of the pod specification, derived by k8s-openapi, is `eq`.
module _ {X : Type 0} (unset : X) (eq : Discrete (PodSpec X)) where
  by_change : Pod X → (spec spec' : PodSpec X) → Dec (spec ≡ spec') → Response SeLinuxError (Pod X)
  by_change pod spec spec' (yes same) = accept
  by_change pod spec spec' (no changed) = mutate (record pod { spec = some spec' })

  by_default : Pod X → PodSpec X → Option (PodSpec X) → Response SeLinuxError (Pod X)
  by_default pod spec none = reject validation_failed
  by_default pod spec (some spec') = by_change pod spec spec' (eq spec spec')

  by_options : Pod X → SeLinuxOptions → PodSpec X → Response SeLinuxError (Pod X)
  by_options pod expected spec = by_default pod spec (default_pod_spec unset expected spec)

  unfoldable pub do_validate :
      Pod X → Settings → Outcome SeLinuxError (Response SeLinuxError (Pod X))
  unfolding by_options by_default by_change
  do_validate pod run_as_any = ok accept
  do_validate pod (must_run_as expected) = elim pod.spec [
    | none ↦ err invalid_pod_spec
    | some spec ↦ ok (by_options pod expected spec)
  ]

  -- An object that does not parse as a pod is `none`. The conversion of the settings is unwrapped.
  unfoldable pub validate :
      ExternalSettings → Option (Pod X) → Outcome SeLinuxError (Response SeLinuxError (Pod X))
  validate external object = elim (try_from external) [
    | ok settings ↦ elim object [ none ↦ ok accept | some pod ↦ do_validate pod settings ]
    | err e ↦ panic
    | panic ↦ panic
  ]
