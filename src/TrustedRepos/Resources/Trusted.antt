-- ===== src/TrustedRepos/Resources/Trusted.antt =====
-- Which requests the policy accepts.
use policies.Prelude.{◌≡◌, ◌↔◌, refl, sym, String, true, Option, none, some}
use policies.K8s.{PodSpec}
use policies.TrustedRepos.Matchers.{Oci, Wild}
use policies.TrustedRepos.Settings.{Settings}
use policies.TrustedRepos.Validation.{
  PodSpecValidationResult, allowed, not_allowed, validate_pod_spec,
}
use policies.TrustedRepos.Validation.Discovery.{IsDiscovered}
use policies.TrustedRepos.Validation.Pods.{IsTrustedImage, validate_pod_spec-IsTrustedImage_iff}
use policies.TrustedRepos.Resources.{Resource, spec, into, validate_spec, validate}

into_iff : (r : PodSpecValidationResult) → ((into r).accepted ≡ true) ↔ (r ≡ allowed)
unfolding into
into_iff allowed = (λ _. refl, λ _. refl)
into_iff (not_allowed reasons) = (λ h. cc, λ h. cc)

module _ {R W X : Type 0} (oci : Oci R) (wild : Wild W) (s : Settings R W) where
  -- Every image that the policy discovers in the pod is trusted, if it reads as a reference.
  abbrev pub IsTrustedPod : PodSpec X → Type 0
  IsTrustedPod p = (image : String) → IsDiscovered p image → IsTrustedImage oci wild s image

  validate_spec_iff :
      (o : Option (PodSpec X))
      → ((validate_spec oci wild s o).accepted ≡ true)
        ↔ ((p : PodSpec X) → o ≡ some p → IsTrustedPod p)
  unfolding validate_spec
  validate_spec_iff none = (λ h p e. cc, λ h. refl)
  validate_spec_iff (some p) = (
    λ h p' e.
        let same : p ≡ p' = cc e in
        let trusted : IsTrustedPod p =
          (validate_pod_spec-IsTrustedImage_iff oci wild s p).0
            ((into_iff (validate_pod_spec oci wild s p)).0 h) in
        rw (sym same) trusted,
    λ h.
        (into_iff (validate_pod_spec oci wild s p)).1
          ((validate_pod_spec-IsTrustedImage_iff oci wild s p).1 (h p refl)),
  )

  -- The policy accepts a resource exactly when the pod specification inside of it, if there is one,
  -- has only trusted images: of its containers, and of its init containers and its ephemeral
  -- containers where all of the kind have an image.
  pub validate-IsTrustedPod_iff :
      (resource : Resource X)
      → ((validate oci wild s (some resource)).accepted ≡ true)
        ↔ ((p : PodSpec X) → spec resource ≡ some p → IsTrustedPod p)
  unfolding validate
  validate-IsTrustedPod_iff resource = validate_spec_iff (spec resource)
