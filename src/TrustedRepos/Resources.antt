-- ===== src/TrustedRepos/Resources.antt =====
-- policies/trusted-repos-policy/src/validating_resource.rs and src/lib.rs.
pub mod Trusted
use policies.Prelude.{Bool, true, false, Option, none, some}
use policies.K8s.{PodSpec}
use policies.TrustedRepos.Matchers.{Oci, Wild}
use policies.TrustedRepos.Settings.{Settings}
use policies.TrustedRepos.Validation.{
  PodRejectionReasons, PodSpecValidationResult, allowed, not_allowed, validate_pod_spec,
}

-- The resources with a pod inside, with what stands between them and its specification: the
-- resource's own specification and the template, each of them where it can be missing.
pub data Resource (X : Type 0) : Type 0 where
  pod : Option (PodSpec X) → Resource X
  deployment stateful_set daemon_set job cron_job : Option (Option (PodSpec X)) → Resource X
  replica_set replication_controller : Option (Option (Option (PodSpec X))) → Resource X

-- The operator `?` on options.
flatten : {A : Type 0} → Option (Option A) → Option A
flatten none = none
flatten (some o) = o

unfoldable pub spec : {X : Type 0} → Resource X → Option (PodSpec X)
unfolding flatten
spec (pod s) = s
spec (deployment s) = flatten s
spec (stateful_set s) = flatten s
spec (daemon_set s) = flatten s
spec (job s) = flatten s
spec (cron_job s) = flatten s
spec (replica_set s) = flatten (flatten s)
spec (replication_controller s) = flatten (flatten s)

-- `ValidationResponse`, with the reasons that its message lists.
pub record ValidationResponse : Type 0 where
  pub accepted : Bool
  pub message : Option PodRejectionReasons

abbrev pub accept_request : ValidationResponse
accept_request = record { accepted = true; message = none }

unfoldable pub into : PodSpecValidationResult → ValidationResponse
into allowed = record { accepted = true; message = none }
into (not_allowed reasons) = record { accepted = false; message = some reasons }

module _ {R W X : Type 0} (oci : Oci R) (wild : Wild W) (s : Settings R W) where
  validate_spec : Option (PodSpec X) → ValidationResponse
  validate_spec none = accept_request
  validate_spec (some p) = into (validate_pod_spec oci wild s p)

  -- A kind that the policy does not know, and an object that does not read as its kind, are `none`.
  unfoldable pub validate : Option (Resource X) → ValidationResponse
  unfolding validate_spec
  validate none = accept_request
  validate (some resource) = validate_spec (spec resource)
