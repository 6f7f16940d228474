-- ===== src/Selinux/Validate/Defaults.antt =====
-- What the policy makes of contexts, containers and pods under MustRunAs.
use policies.Prelude.{
  ◌≡◌, ◌⊎◌, inl, inr, refl, Option, none, some, arith, Option-cases, Bool-cases, unwrap_or,
}
use policies.K8s
use policies.K8s.{
  SecurityContext, PodSecurityContext, Container, PodSpec, default_security_context,
  default_pod_security_context,
}
use policies.Selinux.Settings.{SeLinuxOptionsExternal, SeLinuxOptions, into}
use policies.Selinux.Settings.Conversion.{IsConverted, into-IsConverted}
use policies.Selinux.Validate.{
  is_selinux_compliant, default_pod_context, default_context, default_container,
}
use policies.Selinux.Validate.Compliance.{Complies, is_selinux_compliant-Complies_iff}

module _ {X : Type 0} where
  abbrev pub options_of : Option (SecurityContext X) → Option K8s.SeLinuxOptions
  options_of none = none
  options_of (some sc) = sc.se_linux_options

  abbrev pub pod_options_of : Option (PodSecurityContext X) → Option K8s.SeLinuxOptions
  pod_options_of none = none
  pod_options_of (some sc) = sc.se_linux_options

-- Options that are set and comply, and options that are set and do not.
abbrev pub IsSettled : SeLinuxOptionsExternal → Option K8s.SeLinuxOptions → Type 0
IsSettled external o =
    (options : K8s.SeLinuxOptions) × (o ≡ some options) × Complies external options

abbrev pub Clashes : SeLinuxOptionsExternal → Option K8s.SeLinuxOptions → Type 0
Clashes external o =
    (options : K8s.SeLinuxOptions) × (o ≡ some options) × ¬ Complies external options

-- The options of the settings.
abbrev pub wanted : SeLinuxOptionsExternal → K8s.SeLinuxOptions
wanted external = record {
  level = external.level;
  role = external.role;
  type_ = external.type_;
  user = external.user;
}

pub wanted-IsSettled :
    (external : SeLinuxOptionsExternal) → IsSettled external (some (wanted external))
wanted-IsSettled external = (
  wanted external,
  refl,
  record { level = λ a b has set. inl (cc (has, set)); role = refl; type_ = refl; user = refl },
)

module _ {X : Type 0} (unset : X) (external : SeLinuxOptionsExternal) where
  abbrev pub IsDefaulted : Option (SecurityContext X) → Option (SecurityContext X) → Type 0
  IsDefaulted o o' =
      (IsSettled external (options_of o) × (o' ≡ o))
      ⊎ ((options_of o ≡ none)
          × (o'
              ≡ some (record (unwrap_or (default_security_context unset) o) {
                se_linux_options = some (wanted external);
              })))

  abbrev pub IsDefaultedPod : Option (PodSecurityContext X) → Option (PodSecurityContext X) → Type 0
  IsDefaultedPod o o' =
      (IsSettled external (pod_options_of o) × (o' ≡ o))
      ⊎ ((pod_options_of o ≡ none)
          × (o'
              ≡ some (record (unwrap_or (default_pod_security_context unset) o) {
                se_linux_options = some (wanted external);
              })))

  -- The container with its new context, and nothing else changed.
  abbrev pub IsDefaultedContainer : Container X → Container X → Type 0
  IsDefaultedContainer c c' =
      IsDefaulted c.security_context c'.security_context
      × (c' ≡ record c { security_context = c'.security_context })

  module _ (expected : SeLinuxOptions) (converted : IsConverted external expected) where
    context_cases :
        (o : Option (SecurityContext X))
        → ((o' : Option (SecurityContext X)) × (default_context unset expected o ≡ some o')
            × IsDefaulted o o')
          ⊎ ((default_context unset expected o ≡ none) × Clashes external (options_of o))
    unfolding default_context
    context_cases none = inl (
      some (record (default_security_context unset) { se_linux_options = some (into expected) }),
      refl,
      inr (refl, rw (into-IsConverted external expected converted) refl),
    )
    context_cases (some sc) = elim (Option-cases sc.se_linux_options) [
      | inl missing ↦ inl (
        some (record sc { se_linux_options = some (into expected) }),
        ground arith,
        inr (missing, rw (into-IsConverted external expected converted) refl),
      )
      | inr (options, set) ↦ elim (Bool-cases (is_selinux_compliant options expected)) [
        | inl complies ↦ inl (
          some sc,
          ground arith,
          inl (
            (
              options,
              set,
              (is_selinux_compliant-Complies_iff external expected converted options).0 complies,
            ),
            refl,
          ),
        )
        | inr other ↦ inr (
          ground arith,
          (
            options,
            set,
            λ c. cc (
              other,
              (is_selinux_compliant-Complies_iff external expected converted options).1 c,
            ),
          ),
        )
      ]
    ]

    pub pod_context_cases :
        (o : Option (PodSecurityContext X))
        → ((o' : Option (PodSecurityContext X)) × (default_pod_context unset expected o ≡ some o')
            × IsDefaultedPod o o')
          ⊎ ((default_pod_context unset expected o ≡ none) × Clashes external (pod_options_of o))
    unfolding default_pod_context
    pod_context_cases none = inl (
      some
          (record (default_pod_security_context unset) { se_linux_options = some (into expected) }),
      refl,
      inr (refl, rw (into-IsConverted external expected converted) refl),
    )
    pod_context_cases (some sc) = elim (Option-cases sc.se_linux_options) [
      | inl missing ↦ inl (
        some (record sc { se_linux_options = some (into expected) }),
        ground arith,
        inr (missing, rw (into-IsConverted external expected converted) refl),
      )
      | inr (options, set) ↦ elim (Bool-cases (is_selinux_compliant options expected)) [
        | inl complies ↦ inl (
          some sc,
          ground arith,
          inl (
            (
              options,
              set,
              (is_selinux_compliant-Complies_iff external expected converted options).0 complies,
            ),
            refl,
          ),
        )
        | inr other ↦ inr (
          ground arith,
          (
            options,
            set,
            λ c. cc (
              other,
              (is_selinux_compliant-Complies_iff external expected converted options).1 c,
            ),
          ),
        )
      ]
    ]

    pub container_cases :
        (c : Container X)
        → ((c' : Container X) × (default_container unset expected c ≡ some c')
            × IsDefaultedContainer c c')
          ⊎ ((default_container unset expected c ≡ none)
              × Clashes external (options_of c.security_context))
    unfolding default_container
    container_cases c = elim (context_cases c.security_context) [
      | inl (o, e, defaulted) ↦
          inl (record c { security_context = o }, ground arith, (defaulted, refl))
      | inr (e, clashes) ↦ inr (ground arith, clashes)
    ]
