-- ===== src/TrustedRepos/Validation.antt =====
-- policies/trusted-repos-policy/src/validation.rs and src/validation_result.rs.
pub mod Trust
pub mod Discovery
pub mod Pods
pub mod Reasons
use policies.Prelude.{
  String, Bool, true, false, ◌&&◌, not, Option, none, some, List, [], ◌∷◌, ◌++◌, is_empty, any,
  unwrap_or, from_iter, insert, if◌then◌else◌,
}
use policies.K8s.{Container, PodSpec}
use policies.TrustedRepos.Matchers.{
  Oci, Wild, StringMatcher, matches, image_ref_from_str, image_matches_any,
}
use policies.TrustedRepos.Settings.{Settings}

pub record PodRejectionReasons : Type 0 where
  pub registries_not_allowed : List String
  pub tags_not_allowed : List String
  pub images_not_allowed : List String

abbrev pub no_reasons : PodRejectionReasons
no_reasons = record { registries_not_allowed = []; tags_not_allowed = []; images_not_allowed = [] }

unfoldable pub has_no_reasons : PodRejectionReasons → Bool
has_no_reasons r =
    is_empty r.registries_not_allowed
    && (is_empty r.tags_not_allowed && is_empty r.images_not_allowed)

pub data PodSpecValidationResult : Type 0 where
  allowed : PodSpecValidationResult
  not_allowed : PodRejectionReasons → PodSpecValidationResult

module _ {X : Type 0} where
  -- `collect` of options: none if one image is missing.
  all_images : List (Container X) → Option (List String)
  all_images [] = some []
  all_images (c ∷ cs) = elim c.image [
    | none ↦ none
    | some image ↦ elim (all_images cs) [ none ↦ none | some images ↦ some (image ∷ images) ]
  ]

  optional_images : Option (List (Container X)) → List String
  optional_images none = []
  optional_images (some cs) = unwrap_or [] (all_images cs)

  -- `filter_map`.
  some_images : List (Container X) → List String
  some_images [] = []
  some_images (c ∷ cs) = elim c.image [
    | none ↦ some_images cs
    | some image ↦ image ∷ some_images cs
  ]

  unfoldable pub discover_images : PodSpec X → List String
  unfolding all_images optional_images some_images
  discover_images p = from_iter (
      optional_images p.init_containers
      ++ (optional_images p.ephemeral_containers ++ some_images p.containers))

module _ {R W : Type 0} (oci : Oci R) (wild : Wild W) (s : Settings R W) where
  unfoldable pub registry_matches_any : String → List (StringMatcher W) → Bool
  registry_matches_any registry matchers = any (λ m. matches wild m registry) matchers

  unfoldable pub is_allowed_registry : String → Bool
  is_allowed_registry registry =
      if is_empty s.registries.allow && is_empty s.registries.reject
      then true
      else if not (is_empty s.registries.reject)
          && registry_matches_any registry s.registries.reject
      then false
      else if not (is_empty s.registries.allow)
      then registry_matches_any registry s.registries.allow
      else true

  unfoldable pub tag_matches_any : String → List (StringMatcher W) → Bool
  tag_matches_any tag matchers = any (λ m. matches wild m tag) matchers

  unfoldable pub is_allowed_tag : String → Bool
  is_allowed_tag tag =
      if is_empty s.tags.reject then true else not (tag_matches_any tag s.tags.reject)

  unfoldable pub is_allowed_image : R → Bool
  is_allowed_image image_ref =
      if is_empty s.images.allow && is_empty s.images.reject
      then true
      else if not (is_empty s.images.reject) && image_matches_any oci wild image_ref s.images.reject
      then false
      else if not (is_empty s.images.allow)
      then image_matches_any oci wild image_ref s.images.allow
      else true

  check_registry : R → PodRejectionReasons → PodRejectionReasons
  check_registry r reasons =
      if not (is_allowed_registry (oci.registry r))
      then record reasons {
        registries_not_allowed = insert (oci.registry r) reasons.registries_not_allowed;
      }
      else reasons

  check_tag : R → PodRejectionReasons → PodRejectionReasons
  check_tag r reasons =
      let tag = unwrap_or "latest" (oci.tag r) in
      if not (is_allowed_tag tag)
      then record reasons { tags_not_allowed = insert tag reasons.tags_not_allowed }
      else reasons

  check_image_ref : String → R → PodRejectionReasons → PodRejectionReasons
  check_image_ref image r reasons =
      if not (is_allowed_image r)
      then record reasons { images_not_allowed = insert image reasons.images_not_allowed }
      else reasons

  check_image : String → Option R → PodRejectionReasons → PodRejectionReasons
  check_image image none reasons = reasons
  check_image image (some r) reasons =
      check_image_ref image r (check_tag r (check_registry r reasons))

  check_images : List String → PodRejectionReasons → PodRejectionReasons
  check_images [] reasons = reasons
  check_images (image ∷ images) reasons =
      check_images images (check_image image (image_ref_from_str oci image) reasons)

  unfoldable pub validate_images : List String → PodSpecValidationResult
  unfolding check_images check_image check_image_ref check_tag check_registry
  validate_images images =
      let reasons = check_images images no_reasons in
      if has_no_reasons reasons then allowed else not_allowed reasons

  unfoldable pub validate_pod_spec : {X : Type 0} → PodSpec X → PodSpecValidationResult
  validate_pod_spec p = validate_images (discover_images p)
