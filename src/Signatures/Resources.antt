-- ===== src/Signatures/Resources.antt =====
-- policies/verify-image-signatures/src/lib.rs: the trait ValidatingResource, validate_resource and
-- validate. The kinds of resources are those of trusted-repos-policy, which reads them the same way.
pub mod Answers
use policies.Prelude.{
  String, Bool, true, false, not, Option, none, some, Outcome, ok, err, panic, List, unwrap_or,
  if◌then◌else◌,
}
use policies.K8s.{Container, PodSpec}
use policies.Sdk.{Response, accept, reject, mutate}
use policies.TrustedRepos.Matchers.{Wild}
use policies.TrustedRepos.Resources.{
  Resource, pod, deployment, stateful_set, daemon_set, job, cron_job, replica_set,
  replication_controller, spec,
}
use policies.Signatures.Settings.{Settings}
use policies.Signatures.Verify.{Verifier, Failure, verify_all_images_in_pod}

-- `as_mut().unwrap()` of a specification, then of a template: `none` is a panic.
with_template :
    {X : Type 0} → Option (Option (PodSpec X)) → PodSpec X → Option (Option (Option (PodSpec X)))
with_template none p = none
with_template (some old) p = some (some (some p))

with_templates :
    {X : Type 0}
    → Option (Option (Option (PodSpec X)))
    → PodSpec X
    → Option (Option (Option (Option (PodSpec X))))
with_templates none p = none
with_templates (some none) p = none
with_templates (some (some old)) p = some (some (some (some p)))

rebuilt : {A B : Type 0} → (A → B) → Option A → Option B
rebuilt f none = none
rebuilt f (some a) = some (f a)

unfoldable pub set_spec : {X : Type 0} → Resource X → PodSpec X → Option (Resource X)
unfolding with_template with_templates rebuilt
set_spec (pod old) p = some (pod (some p))
set_spec (deployment old) p = rebuilt deployment (with_template old p)
set_spec (stateful_set old) p = rebuilt stateful_set (with_template old p)
set_spec (daemon_set old) p = rebuilt daemon_set (with_template old p)
set_spec (job old) p = rebuilt job (with_template old p)
set_spec (cron_job old) p = rebuilt cron_job (with_template old p)
set_spec (replica_set old) p = rebuilt replica_set (with_templates old p)
set_spec (replication_controller old) p = rebuilt replication_controller (with_templates old p)

-- The object of a request that reads as its kind, with the name in its metadata.
pub record Workload (X : Type 0) : Type 0 where
  pub resource : Resource X
  pub name_ : Option String

unfoldable pub name : {X : Type 0} → Workload X → String
name w = unwrap_or "" w.name_

pub record Rejection : Type 0 where
  pub resource : String
  pub errors : List Failure

module _ {K KP W X : Type 0} (wild : Wild W) (host : Verifier K KP)
    (eq : Discrete (List (Container X))) (s : Settings K KP) where
  mutated : Workload X → Option (Resource X) → Option (Response Rejection (Workload X))
  mutated w none = none
  mutated w (some resource) = some (mutate (record w { resource = resource }))

  answer :
      Workload X
      → Outcome (List Failure) (Option (PodSpec X))
      → Option (Response Rejection (Workload X))
  unfolding mutated
  answer w (ok none) = some accept
  answer w (ok (some changed_spec)) =
      if not s.modify_images_with_digest
      then some accept
      else mutated w (set_spec w.resource changed_spec)
  answer w (err errors) = some (reject (record { resource = name w; errors = errors }))
  answer w panic = none

  validate_spec : Workload X → Option (PodSpec X) → Option (Response Rejection (Workload X))
  unfolding answer
  validate_spec w none = some accept
  validate_spec w (some p) = answer w (verify_all_images_in_pod wild host eq s.signatures p)

  unfoldable pub validate_resource : Workload X → Option (Response Rejection (Workload X))
  unfolding validate_spec
  validate_resource w = validate_spec w (spec w.resource)

  -- A kind that the policy does not know, and an object that does not read as its kind, are `none`.
  -- The result `none` is a panic.
  unfoldable pub validate : Option (Workload X) → Option (Response Rejection (Workload X))
  unfolding validate_resource
  validate none = some accept
  validate (some w) = validate_resource w
