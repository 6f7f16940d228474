-- ===== src/Examples/CapabilitySets.antt =====
-- policies/capabilities-psp-policy at concrete pods.
use policies.Prelude.{
  ◌≡◌, refl, ◌↔◌, String, Option, none, some, List, [], ◌∷◌, ok, Each, difference, intersection,
}
use policies.K8s.{AllContainers, SecurityContext, Container, PodSpec, default_security_context}
use policies.Sdk.{accept, pod_spec}
use policies.Capabilities.Settings.{Settings}
use policies.Capabilities.Settings
use policies.Capabilities.Validate.{validate_added_caps, added_by, get_caps}
use policies.Capabilities.Validate.Laws.{IsAdded, IsAllowed, validate_added_caps_iff}
use policies.Capabilities.Mutate.{
  patch_container_security_context, patch_pod_spec, patch_container, patch_object, validate,
}
use policies.Capabilities.Mutate.Patch.{Complies, patch-eq-none_iff}
use policies.Capabilities.Mutate.Walk.{IsPatched, patch_pod_spec-IsPatched, validate-accept}

abbrev settings : Settings
settings = record {
  allowed_capabilities = "CHOWN" ∷ [];
  required_drop_capabilities = "NET_ADMIN" ∷ [];
  default_add_capabilities = "CHOWN" ∷ [];
}

abbrev context : List String → List String → SecurityContext Unit
context add drop = record (default_security_context tt) {
  allow_privilege_escalation = none;
  privileged = none;
  capabilities = some (record { add = some add; drop = some drop });
}

abbrev good : SecurityContext Unit
good = context ("CHOWN" ∷ []) ("NET_ADMIN" ∷ [])

abbrev container : String → Option (SecurityContext Unit) → Container Unit
container name context = record {
  name = name;
  image = none;
  env = none;
  volume_mounts = none;
  liveness_probe = none;
  readiness_probe = none;
  security_context = context;
  others = tt;
}

abbrev pod : List (Container Unit) → PodSpec Unit
pod cs = record {
  containers = cs;
  init_containers = none;
  ephemeral_containers = none;
  automount_service_account_token = none;
  service_account_name = none;
  service_account = none;
  priority_class_name = none;
  security_context = none;
  others = tt;
}

abbrev compliant : PodSpec Unit
compliant = pod (container "a" (some good) ∷ [])

abbrev mixed : PodSpec Unit
mixed = pod (container "a" (some good) ∷ container "b" none ∷ [])

run : Unit {0}
unfolding patch_container_security_context patch_pod_spec patch_container patch_object validate
    validate_added_caps added_by get_caps difference intersection
    Settings.allow_all_capabilities_enabled
run = tt

-- The first container, which complied, has no security context any more.
mixed_test :
    patch_pod_spec tt settings mixed
    ≡ some (pod (container "a" none ∷ container "b" (some good) ∷ []))
unfolding run
mixed_test = refl

accept_test : validate tt settings (ok compliant) (pod_spec compliant) ≡ ok accept
unfolding run
accept_test = refl

patch_test : patch_container_security_context tt none settings ≡ some good
unfolding run
patch_test = refl

good-Complies : Complies settings (some good)
good-Complies = (λ a m. m, λ a m. m)

patch_pod_spec-IsPatched_example :
    Each
      (IsPatched tt settings)
      mixed.containers
      (container "a" none ∷ container "b" (some good) ∷ [])
    × Each (IsPatched tt settings) [] []
patch_pod_spec-IsPatched_example =
    patch_pod_spec-IsPatched tt settings mixed
      (pod (container "a" none ∷ container "b" (some good) ∷ [])) mixed_test

validate-accept_example :
    AllContainers (λ c. Complies settings c.security_context) compliant
    × ((a : String) → IsAdded compliant a → IsAllowed settings a)
validate-accept_example = validate-accept tt settings (ok compliant) compliant accept_test

validate_added_caps_iff_example :
    (validate_added_caps settings (pod_spec compliant) ≡ ok tt)
    ↔ ((a : String) → IsAdded compliant a → IsAllowed settings a)
validate_added_caps_iff_example = validate_added_caps_iff settings compliant

patch-eq-none_iff_example :
    (patch_container_security_context tt (some good) settings ≡ none)
    ↔ Complies settings (some good)
patch-eq-none_iff_example = patch-eq-none_iff tt settings (some good)
