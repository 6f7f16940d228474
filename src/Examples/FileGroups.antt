-- ===== src/Examples/FileGroups.antt =====
-- policies/allowed-fsgroups-psp-policy at concrete pods.
use policies.Prelude.{ℤ, pos, ◌≡◌, refl, ◌↔◌, Option, none, some, List, [], ◌∷◌, ok, Any}
use policies.K8s.{PodSecurityContext, PodSpec, Pod, default_pod_security_context}
use policies.Sdk.{accept, mutate}
use policies.FsGroups.Settings.{Range, Rule, must_run_as, may_run_as}
use policies.FsGroups.Settings
use policies.FsGroups.Settings.Validity.{AreProper, IsProperRule, validate-IsProperRule_iff}
use policies.FsGroups.Validate.{fs_group_of, do_validate}
use policies.FsGroups.Validate.Laws.{InRange, Admits, do_validate-accept_iff, do_validate-mutate}

abbrev ranges : List Range
ranges = record { min = pos 1000; max = pos 2000 } ∷ []

abbrev spec : Option (PodSecurityContext Unit) → PodSpec Unit
spec context = record {
  containers = [];
  init_containers = none;
  ephemeral_containers = none;
  automount_service_account_token = none;
  service_account_name = none;
  service_account = none;
  priority_class_name = none;
  security_context = context;
  others = tt;
}

abbrev pod : PodSpec Unit → Pod Unit
pod s = record { annotations = none; spec = some s; others = tt }

abbrev as_user : PodSecurityContext Unit
as_user = record (default_pod_security_context tt) { run_as_user = some (pos 7) }

abbrev with_group : ℤ → PodSecurityContext Unit
with_group id = record (default_pod_security_context tt) { fs_group = some id }

ranges-AreProper : AreProper ranges
ranges-AreProper = ((λ e. cc), (refl, tt))

-- The user of the pod is gone.
mutate_test :
    do_validate tt (pod (spec (some as_user))) (must_run_as ranges)
    ≡ ok (mutate (pod (spec (some (with_group (pos 1000))))))
unfolding do_validate
mutate_test = refl

do_validate-mutate_example :
    (fs_group_of (some as_user) ≡ none)
    × ((rs : List Range) × (id : ℤ) × (spec' : PodSpec Unit) × (must_run_as ranges ≡ must_run_as rs)
        × Any (InRange id) rs
        × (pod (spec (some (with_group (pos 1000)))) ≡ pod spec')
        × (spec' ≡ spec (some (with_group id))))
do_validate-mutate_example =
    do_validate-mutate tt (pod (spec (some as_user))) (spec (some as_user)) (must_run_as ranges)
      (pod (spec (some (with_group (pos 1000))))) refl ranges-AreProper mutate_test

do_validate-accept_iff_example :
    (do_validate tt (pod (spec none)) (may_run_as ranges) ≡ ok accept)
    ↔ Admits (may_run_as ranges) (fs_group_of {X = Unit} none)
do_validate-accept_iff_example =
    do_validate-accept_iff tt (pod (spec none)) (spec none) (may_run_as ranges) refl
      ranges-AreProper

validate-IsProperRule_iff_example :
    (Settings.validate (must_run_as ranges) ≡ ok tt) ↔ IsProperRule (must_run_as ranges)
validate-IsProperRule_iff_example = validate-IsProperRule_iff (must_run_as ranges)
