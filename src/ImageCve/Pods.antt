-- ===== src/ImageCve/Pods.antt =====
-- policies/image-cve-policy/src/lib.rs: process_vulnerability_report, verify_container_image,
-- verify_all_images_in_podspec, validate_resource and validate. The kinds of resources and the pod
-- specifications inside of them are those of trusted-repos-policy.
pub mod Errors
pub mod Passes
pub mod Images
pub mod Accepts
use policies.Prelude.{
  String, Bool, true, false, Option, none, some, List, [], ◌∷◌, ◌++◌, Outcome, ok, err, panic,
  is_empty, unwrap_or, put, contains_key, if◌then◌else◌,
}
use policies.K8s.{Container, PodSpec}
use policies.Sdk.{Response, accept, reject}
use policies.TrustedRepos.Resources.{Resource, spec}
use policies.ImageCve.Report.{VulnerabilityReport}
use policies.ImageCve.Settings.{Float, ImageLookupStrategy, digest, tag, OciPlatforms, Settings}
use policies.ImageCve.Verify.{
  ImageValidationError, vulnerability_report_not_found, verify_vulnerability_report,
}
use policies.ImageCve.Lookup.{
  References, Host, get_image_digest, get_vulnerability_report_by_digest,
  get_vulnerability_report_by_tag,
}

-- `ImageValidationErrors`.
abbrev pub Errors : Type 0 → Type 0 → Type 0
Errors F P = List (String × ImageValidationError F P)

module _ {F A O P : Type 0} (float : Float F) (s : Settings F A O) where
  unfoldable pub process_vulnerability_report :
      Option VulnerabilityReport → Outcome (ImageValidationError F P) (Unit {0})
  process_vulnerability_report none =
      if s.ignore_missing_vulnerability_report then ok tt else err vulnerability_report_not_found
  process_vulnerability_report (some r) = verify_vulnerability_report float s r.report

-- `if let Err(e)`: the error is kept under the image. `none` is a panic.
recorded :
    {F P : Type 0}
    → String
    → Outcome (ImageValidationError F P) (Unit {0})
    → Errors F P
    → Option (Errors F P)
recorded image (ok u) errors = some errors
recorded image (err e) errors = some (put image e errors)
recorded image panic errors = none

-- `c.image.clone().unwrap()` of each container.
unwrap_images : {X : Type 0} → List (Container X) → Option (List String)
unwrap_images [] = some []
unwrap_images (c ∷ cs) = elim c.image [
  | none ↦ none
  | some image ↦ elim (unwrap_images cs) [ none ↦ none | some images ↦ some (image ∷ images) ]
]

optional_images : {X : Type 0} → Option (List (Container X)) → Option (List String)
optional_images none = some []
optional_images (some cs) = unwrap_images cs

-- `extend`.
extend : Option (List String) → Option (List String) → Option (List String)
extend none more = none
extend (some images) none = none
extend (some images) (some more) = some (images ++ more)

unfoldable pub images_of : {X : Type 0} → PodSpec X → Option (List String)
unfolding unwrap_images optional_images extend
images_of p =
    extend (extend (unwrap_images p.containers) (optional_images p.init_containers))
      (optional_images p.ephemeral_containers)

-- A rejection names the resource and lists the errors.
pub record Rejection (F P : Type 0) : Type 0 where
  pub resource : String
  pub errors : Errors F P

-- The object of a request that reads as its kind, with what the code reads of its metadata.
pub record Workload (X : Type 0) : Type 0 where
  pub resource : Resource X
  pub name : Option String
  pub namespace : Option String

module _ {F A O P R : Type 0} (float : Float F) (references : References R)
    (platforms : OciPlatforms A O P) (host : Host P) (s : Settings F A O) where
  module _ (workload_namespace : String) where
    by_digest : String → Errors F P → Option (Errors F P)
    unfolding recorded
    by_digest image errors = elim (get_image_digest references platforms host image s.platform) [
      | ok found ↦
          recorded image
            (process_vulnerability_report float s (
              get_vulnerability_report_by_digest references platforms host s workload_namespace
                found))
            errors
      | err e ↦
          if s.ignore_missing_vulnerability_report then some errors else some (put image e errors)
      | panic ↦ none
    ]

    by_tag : String → Errors F P → Option (Errors F P)
    unfolding recorded
    by_tag image errors =
        elim (get_vulnerability_report_by_tag references platforms host s workload_namespace
          image) [
            | ok report ↦ recorded image (process_vulnerability_report float s report) errors
            | err e ↦ some (put image e errors)
            | panic ↦ none
          ]

    by_strategy : ImageLookupStrategy → String → Errors F P → Option (Errors F P)
    unfolding by_digest by_tag
    by_strategy digest image errors = by_digest image errors
    by_strategy tag image errors = by_tag image errors

    -- The errors after the call.
    unfoldable pub verify_container_image : String → Errors F P → Option (Errors F P)
    unfolding by_strategy
    verify_container_image image errors =
        if contains_key image errors
        then some errors
        else by_strategy s.image_lookup_strategy image errors

    unfoldable pub verify_images : List String → Errors F P → Option (Errors F P)
    unfolding verify_container_image
    verify_images [] errors = some errors
    verify_images (image ∷ images) errors = elim (verify_container_image image errors) [
      | none ↦ none
      | some later ↦ verify_images images later
    ]

    unfoldable pub verify_all_images_in_podspec :
        {X : Type 0} → PodSpec X → Errors F P → Option (Errors F P)
    unfolding verify_images images_of
    verify_all_images_in_podspec p errors = elim (images_of p) [
      | none ↦ none
      | some images ↦ verify_images images errors
    ]

  pub answer : Option String → Errors F P → Option (Response (Rejection F P) (Unit {0}))
  answer name [] = some accept
  answer none (e ∷ es) = none
  answer (some name) (e ∷ es) = some (reject (record { resource = name; errors = e ∷ es }))

  validate_spec :
      {X : Type 0} → Workload X → Option (PodSpec X) → Option (Response (Rejection F P) (Unit {0}))
  unfolding answer
  validate_spec w none = some accept
  validate_spec w (some p) = elim (verify_all_images_in_podspec (unwrap_or "" w.namespace) p []) [
    | none ↦ none
    | some errors ↦ answer w.name errors
  ]

  unfoldable pub validate_resource :
      {X : Type 0} → Workload X → Option (Response (Rejection F P) (Unit {0}))
  unfolding validate_spec
  validate_resource w = validate_spec w (spec w.resource)

  -- A kind that the policy does not know, and an object that does not read as its kind, are `none`.
  -- The result `none` is a panic.
  unfoldable pub validate :
      {X : Type 0} → Option (Workload X) → Option (Response (Rejection F P) (Unit {0}))
  unfolding validate_resource
  validate none = some accept
  validate (some w) = validate_resource w
