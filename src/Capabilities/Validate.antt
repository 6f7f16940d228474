-- ===== src/Capabilities/Validate.antt =====
-- policies/capabilities-psp-policy/src/validate.rs.
pub mod Laws
use policies.Prelude.{
  String, Bool, true, false, not, Option, none, some, List, [], ◌∷◌, ◌++◌, Outcome, ok, err, ◌>>=◌,
  is_empty, intersection, difference, unwrap_or, if◌then◌else◌,
}
use policies.K8s.{Capabilities, SecurityContext, Container, PodSpec}
use policies.Sdk.{Extracted, pod_spec, no_pod_spec, unreadable}
use policies.Capabilities.Settings.{Settings, allow_all_capabilities_enabled}

pub data CapabilityError : Type 0 where
  error_deserializing : CapabilityError
  not_allowed must_be_dropped : List String → CapabilityError

added_by_capabilities : Option Capabilities → List String
added_by_capabilities none = []
added_by_capabilities (some c) = unwrap_or [] c.add

check_dropped : Settings → List String → Outcome CapabilityError (Unit {0})
check_dropped s cap_add =
    let must = intersection cap_add s.required_drop_capabilities in
    if not (is_empty must) then err (must_be_dropped must) else ok tt

check_caps : Settings → List String → Outcome CapabilityError (Unit {0})
check_caps s cap_add =
    let not_all = difference cap_add s.allowed_capabilities in
    if allow_all_capabilities_enabled s
    then check_dropped s cap_add
    else if not (is_empty not_all)
    then err (not_allowed not_all)
    else check_dropped s cap_add

module _ {X : Type 0} where
  added_by_context : Option (SecurityContext X) → List String
  added_by_context none = []
  added_by_context (some sc) = added_by_capabilities sc.capabilities

  unfoldable pub added_by : Container X → List String
  unfolding added_by_context added_by_capabilities
  added_by c = added_by_context c.security_context

  -- The set `caps`, in the order of the insertions.
  added_by_all : List (Container X) → List String
  added_by_all [] = []
  added_by_all (c ∷ cs) = added_by c ++ added_by_all cs

  unfoldable pub get_caps : PodSpec X → List String
  unfolding added_by_all
  get_caps p = added_by_all p.containers ++ added_by_all (unwrap_or [] p.init_containers)

  unfoldable pub validate_added_caps :
      Settings → Extracted (PodSpec X) → Outcome CapabilityError (Unit {0})
  unfolding check_caps check_dropped
  validate_added_caps s unreadable = err error_deserializing
  validate_added_caps s no_pod_spec = ok tt
  validate_added_caps s (pod_spec p) = check_caps s (get_caps p)
