-- ===== src/Examples/Repositories.antt =====
-- policies/trusted-repos-policy at concrete settings and pods, with references of the form
-- registry/name:tag and patterns that are a star and an end.
use policies.Prelude.{
  ◌≡◌, ◌↔◌, refl, String, true, Option, none, some, List, [], ◌∷◌, split, String-discrete,
  ends_with, Any, ◌∈◌, to_lowercase, from_iter, insert,
}
use policies.K8s.{Container, PodSpec}
use policies.TrustedRepos.Matchers.{
  Oci, Wild, StringMatcher, matches, image_ref_from_str, from_reference,
}
use policies.TrustedRepos.Matchers.Images.{MatchesImage, image_matches-MatchesImage_iff}
use policies.TrustedRepos.Matchers.{image_matches, ImageMatcher}
use policies.TrustedRepos.Matchers.Normal.{HasParts}
use policies.TrustedRepos.Settings.{Settings}
use policies.TrustedRepos.Validation.{
  PodRejectionReasons, allowed, not_allowed, discover_images, validate_images, validate_pod_spec,
  is_allowed_registry, is_allowed_tag, is_allowed_image, registry_matches_any, tag_matches_any,
  has_no_reasons,
}
use policies.TrustedRepos.Validation.Discovery.{IsDiscovered, discover_images-IsDiscovered_iff}
use policies.TrustedRepos.Validation.Reasons.{
  Blames, WrongRegistry, WrongTag, WrongImage, validate_images-Blames_iff,
}
use policies.TrustedRepos.Resources.{Resource, spec, validate}
use policies.TrustedRepos.Resources.Trusted.{IsTrustedPod, validate-IsTrustedPod_iff}

record Ref : Type 0 where
  registry : String
  repository : String
  tag : Option String
  digest : Option String

abbrev named : String → List String → Option Ref
named host (name ∷ []) =
    some (record { registry = host; repository = name; tag = some "latest"; digest = none })
named host (name ∷ label ∷ []) =
    some (record { registry = host; repository = name; tag = some label; digest = none })
named host parts = none

abbrev hosted : List String → Option Ref
hosted (name ∷ []) = named "docker.io" (split b':' name)
hosted (host ∷ name ∷ []) = named host (split b':' name)
hosted parts = none

abbrev refs : Oci Ref
refs = record {
  from_str = λ s. hosted (split b'/' s);
  whole = λ r. r.repository;
  registry = λ r. r.registry;
  repository = λ r. r.repository;
  tag = λ r. r.tag;
  digest = λ r. r.digest;
  with_tag_and_digest =
      λ a b t d. record { registry = a; repository = b; tag = some t; digest = some d };
  with_tag = λ a b t. record { registry = a; repository = b; tag = some t; digest = none };
  with_digest = λ a b d. record { registry = a; repository = b; tag = none; digest = some d };
  eq = hlevel String-discrete;
}

refs-HasParts : HasParts refs
refs-HasParts = record {
  registry_tag = λ a b t. refl;
  registry_digest = λ a b d. refl;
  registry_both = λ a b t d. refl;
  repository_tag = λ a b t. refl;
  repository_digest = λ a b d. refl;
  repository_both = λ a b t d. refl;
  tag_tag = λ a b t. refl;
  tag_digest = λ a b d. refl;
  tag_both = λ a b t d. refl;
}

abbrev after_star : String → String
after_star String.[] = ""
after_star (String.◌∷◌ c s) = s

abbrev stars : Wild String
stars = record { new = after_star; matches = λ end s. ends_with s end }

abbrev settings : Settings Ref String
settings = record {
  registries = record { allow = StringMatcher.pattern_ "quay.io" "*quay.io" ∷ []; reject = [] };
  tags = record { reject = StringMatcher.exact "latest" ∷ [] };
  images = record { allow = []; reject = [] };
}

abbrev container : Option String → Container Unit
container image = record {
  name = "main";
  image = image;
  env = none;
  volume_mounts = none;
  liveness_probe = none;
  readiness_probe = none;
  security_context = none;
  others = tt;
}

abbrev pod : List (Container Unit) → PodSpec Unit
pod inits = record {
  containers = container (some "QUAY.io/etcd:3") ∷ [];
  init_containers = some inits;
  ephemeral_containers = none;
  automount_service_account_token = none;
  service_account_name = none;
  service_account = none;
  priority_class_name = none;
  security_context = none;
  others = tt;
}

abbrev bad_init : Container Unit
bad_init = container (some "evil.com/x")

reject_test :
    validate_pod_spec refs stars settings (pod (bad_init ∷ []))
    ≡ not_allowed (record {
      registries_not_allowed = "evil.com" ∷ [];
      tags_not_allowed = "latest" ∷ [];
      images_not_allowed = [];
    })
unfolding validate_pod_spec validate_images has_no_reasons discover_images from_iter
    image_ref_from_str split is_allowed_image is_allowed_tag tag_matches_any matches from_reference
    to_lowercase is_allowed_registry registry_matches_any ends_with insert
reject_test = refl

-- One init container without an image hides the image of the other.
hidden_test : validate_pod_spec refs stars settings (pod (bad_init ∷ container none ∷ [])) ≡ allowed
unfolding validate_pod_spec validate_images has_no_reasons discover_images from_iter
    image_ref_from_str split is_allowed_image is_allowed_tag tag_matches_any matches from_reference
    to_lowercase is_allowed_registry registry_matches_any ends_with insert
hidden_test = refl

abbrev upper : Ref
upper = record { registry = "Quay.IO"; repository = "etcd"; tag = none; digest = some "sha256" }

lowercase_test : to_lowercase "Quay.IO" ≡ "quay.io"
unfolding to_lowercase
lowercase_test = refl

discover_images-IsDiscovered_iff_example :
    ("evil.com/x" ∈ discover_images (pod (bad_init ∷ container none ∷ [])))
    ↔ IsDiscovered (pod (bad_init ∷ container none ∷ [])) "evil.com/x"
discover_images-IsDiscovered_iff_example =
    discover_images-IsDiscovered_iff (pod (bad_init ∷ container none ∷ [])) "evil.com/x"

abbrev deployment : Resource Unit
deployment = Resource.deployment (some (some (pod (bad_init ∷ []))))

validate-IsTrustedPod_iff_example :
    ((validate refs stars settings (some deployment)).accepted ≡ true)
    ↔ ((p : PodSpec Unit) → spec deployment ≡ some p → IsTrustedPod refs stars settings p)
validate-IsTrustedPod_iff_example = validate-IsTrustedPod_iff refs stars settings deployment

abbrev images : List String
images = "quay.io/etcd" ∷ "evil.com/x:2" ∷ []

abbrev reasons : PodRejectionReasons
reasons = record {
  registries_not_allowed = "evil.com" ∷ [];
  tags_not_allowed = "latest" ∷ [];
  images_not_allowed = [];
}

images_rejected : validate_images refs stars settings images ≡ not_allowed reasons
unfolding validate_pod_spec validate_images has_no_reasons discover_images from_iter
    image_ref_from_str split is_allowed_image is_allowed_tag tag_matches_any matches from_reference
    to_lowercase is_allowed_registry registry_matches_any ends_with insert
images_rejected = refl

validate_images-Blames_iff_example :
    (("evil.com" ∈ reasons.registries_not_allowed)
      ↔ Any (Blames refs stars settings (WrongRegistry refs stars settings "evil.com")) images)
    × (("evil.com" ∈ reasons.tags_not_allowed)
        ↔ Any (Blames refs stars settings (WrongTag refs stars settings "evil.com")) images)
    × (("evil.com" ∈ reasons.images_not_allowed)
        ↔ Any (Blames refs stars settings (WrongImage refs stars settings "evil.com")) images)
validate_images-Blames_iff_example =
    validate_images-Blames_iff refs stars settings images reasons images_rejected "evil.com"

image_matches-MatchesImage_iff_example :
    (image_matches refs stars upper (ImageMatcher.exact upper) ≡ true)
    ↔ MatchesImage refs stars upper (ImageMatcher.exact upper)
image_matches-MatchesImage_iff_example =
    image_matches-MatchesImage_iff refs stars upper (ImageMatcher.exact upper)
