-- ===== src/TrustedRepos/Validation/Pods.antt =====
-- Which pods the policy allows.
use policies.Prelude.{
  ◌≡◌, ◌↔◌, refl, sym, String, true, Option, none, some, List, [], ◌∷◌, arith, All, unwrap_or,
}
use policies.Prelude.Sets.Laws.{All-∈, ∈-All, insert-is_empty}
use policies.K8s.{PodSpec}
use policies.TrustedRepos.Matchers.{Oci, Wild, image_ref_from_str}
use policies.TrustedRepos.Settings.{Settings}
use policies.TrustedRepos.Validation.{
  PodRejectionReasons, no_reasons, has_no_reasons, allowed, discover_images, is_allowed_registry,
  is_allowed_tag, is_allowed_image, check_registry, check_tag, check_image_ref, check_image,
  check_images, validate_images, validate_pod_spec,
}
use policies.TrustedRepos.Validation.Discovery.{IsDiscovered, discover_images-IsDiscovered_iff}
use policies.TrustedRepos.Validation.Trust.{IsTrusted, tests-IsTrusted_iff}

module _ {R W : Type 0} (oci : Oci R) (wild : Wild W) (s : Settings R W) where
  -- An image that reads as a reference is trusted.
  abbrev pub IsTrustedImage : String → Type 0
  IsTrustedImage image = (r : R) → image_ref_from_str oci image ≡ some r → IsTrusted oci wild s r

  check_registry_iff :
      (r : R) (reasons : PodRejectionReasons)
      → (has_no_reasons (check_registry oci wild s r reasons) ≡ true) ↔ (
          (has_no_reasons reasons ≡ true)
          × (is_allowed_registry oci wild s (oci.registry r) ≡ true))
  unfolding check_registry has_no_reasons
  check_registry_iff r reasons =
      ground (arith, insert-is_empty (oci.registry r) reasons.registries_not_allowed)

  check_tag_iff :
      (r : R) (reasons : PodRejectionReasons)
      → (has_no_reasons (check_tag oci wild s r reasons) ≡ true) ↔ (
          (has_no_reasons reasons ≡ true)
          × (is_allowed_tag oci wild s (unwrap_or "latest" (oci.tag r)) ≡ true))
  unfolding check_tag has_no_reasons
  check_tag_iff r reasons =
      ground (arith, insert-is_empty (unwrap_or "latest" (oci.tag r)) reasons.tags_not_allowed)

  check_image_ref_iff :
      (image : String) (r : R) (reasons : PodRejectionReasons)
      → (has_no_reasons (check_image_ref oci wild s image r reasons) ≡ true)
        ↔ ((has_no_reasons reasons ≡ true) × (is_allowed_image oci wild s r ≡ true))
  unfolding check_image_ref has_no_reasons
  check_image_ref_iff image r reasons =
      ground (arith, insert-is_empty image reasons.images_not_allowed)

  check_some_iff :
      (image : String) (r : R) (reasons : PodRejectionReasons)
      → (has_no_reasons (check_image oci wild s image (some r) reasons) ≡ true)
        ↔ ((has_no_reasons reasons ≡ true) × IsTrusted oci wild s r)
  unfolding check_image
  check_some_iff image r reasons = ground (
    arith,
    check_image_ref_iff image r (check_tag oci wild s r (check_registry oci wild s r reasons)),
    check_tag_iff r (check_registry oci wild s r reasons),
    check_registry_iff r reasons,
    tests-IsTrusted_iff oci wild s r,
  )

  check_image_iff :
      (image : String) (o : Option R) (reasons : PodRejectionReasons)
      → (has_no_reasons (check_image oci wild s image o reasons) ≡ true)
        ↔ ((has_no_reasons reasons ≡ true) × ((r : R) → o ≡ some r → IsTrusted oci wild s r))
  unfolding check_image
  check_image_iff image none reasons = (λ h. (h, λ r e. cc), λ h. h.0)
  check_image_iff image (some r) reasons = (
    λ h.
        let (before, trusted) = (check_some_iff image r reasons).0 h in
        (before, λ r' e. let same : r ≡ r' = cc e in rw (sym same) trusted),
    λ h. (check_some_iff image r reasons).1 (h.0, h.1 r refl),
  )

  check_images_iff :
      (images : List String) (reasons : PodRejectionReasons)
      → (has_no_reasons (check_images oci wild s images reasons) ≡ true)
        ↔ ((has_no_reasons reasons ≡ true) × All IsTrustedImage images)
  unfolding check_images
  check_images_iff [] reasons = (λ h. (h, tt), λ h. h.0)
  check_images_iff (image ∷ images) reasons =
      let o = image_ref_from_str oci image in
      (
        λ h.
            let (first, later) =
              (check_images_iff images (check_image oci wild s image o reasons)).0 h in
            let (before, trusted) = (check_image_iff image o reasons).0 first in
            (before, (trusted, later)),
        λ h.
            (check_images_iff images (check_image oci wild s image o reasons)).1
              ((check_image_iff image o reasons).1 (h.0, h.1.0), h.1.1),
      )

  validate_images_iff :
      (images : List String)
      → (validate_images oci wild s images ≡ allowed) ↔ All IsTrustedImage images
  unfolding validate_images has_no_reasons
  validate_images_iff images = ground (arith, check_images_iff images no_reasons)

  module _ {X : Type 0} (p : PodSpec X) where
    -- The policy allows a pod exactly when every image that it discovers and that reads as a
    -- reference is trusted: its registry, its tag ("latest" if it has none) and the image itself
    -- match no rejection, and match something of the lists of allowed registries and images where
    -- these are given. It discovers the images of all containers; and those of the init containers
    -- and of the ephemeral containers, but of each kind only if all containers of the kind have an
    -- image.
    pub validate_pod_spec-IsTrustedImage_iff :
        (validate_pod_spec oci wild s p ≡ allowed)
        ↔ ((image : String) → IsDiscovered p image → IsTrustedImage image)
    unfolding validate_pod_spec
    validate_pod_spec-IsTrustedImage_iff = (
      λ h image found.
          All-∈ IsTrustedImage (discover_images p) ((validate_images_iff (discover_images p)).0 h)
            image ((discover_images-IsDiscovered_iff p image).1 found),
      λ h. (validate_images_iff (discover_images p)).1 (
          ∈-All IsTrustedImage (discover_images p)
            (λ image m. h image ((discover_images-IsDiscovered_iff p image).0 m))),
    )
