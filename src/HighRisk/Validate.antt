-- ===== src/HighRisk/Validate.antt =====
-- policies/high-risk-service-account-policy/src/lib.rs. `can_i`, which asks the host, is a parameter.
pub mod Powers
use policies.Prelude.{
  ℕ, ◌+◌, leb, String, Bool, true, false, ◌&&◌, Option, none, some, List, [], ◌∷◌, map, flat_map,
  length, Outcome, ok, err, panic, ◌>>=◌, ◌⊎◌, inl, inr, unwrap_or, ◌+++◌, if◌then◌else◌,
}
use policies.K8s.{PodSpec}
use policies.Sdk.{Response, accept, reject, Extracted, pod_spec, no_pod_spec, unreadable}
use policies.HighRisk.Settings.{Rule, Settings, ResourceAttributes, resource_attributes}

-- `SubjectAccessReview` of the SDK, with the fields that are set.
pub record SubjectAccessReview : Type 0 where
  pub user : String
  pub resource_attributes : ResourceAttributes

pub record CanIRequest : Type 0 where
  pub subject_access_review : SubjectAccessReview
  pub disable_cache : Bool

-- The texts of the rejections tell these.
pub data Rejection : Type 0 where
  allowed_to : String → ResourceAttributes → Rejection
  all_checks_failed no_pod_spec_extracted : Rejection

unfoldable pub build_subject_access_reviews : String → List Rule → List SubjectAccessReview
build_subject_access_reviews service_account rules =
    flat_map
      (λ rule.
        map (λ a. record { user = service_account; resource_attributes = a })
          (resource_attributes rule))
      rules

-- `or`, then `map` and `unwrap_or_else`.
unfoldable pub service_account_of : {X : Type 0} → PodSpec X → String → String
service_account_of p namespace =
    "system:serviceaccount:"
    +++ (namespace
        +++ (":" +++ unwrap_or (unwrap_or "default" p.service_account) p.service_account_name))

token_is_off : Option Bool → Bool
token_is_off (some false) = true
token_is_off o = false

answer : Outcome Rejection (Unit {0}) → Option (Response Rejection (Unit {0}))
answer (ok u) = some accept
answer (err e) = some (reject e)
answer panic = none

-- The error of the host, or `status.allowed`.
module _ (can_i : CanIRequest → String ⊎ Bool) where
  abbrev pub asked : SubjectAccessReview → String ⊎ Bool
  asked sar = can_i (record { subject_access_review = sar; disable_cache = false })

  -- The loop, with `can_i_failure_counter`.
  check_reviews : List SubjectAccessReview → ℕ → Outcome Rejection ℕ
  check_reviews [] counter = ok counter
  check_reviews (sar ∷ sars) counter = elim (asked sar) [
    | inr true ↦ err (allowed_to sar.user sar.resource_attributes)
    | inr false ↦ check_reviews sars counter
    | inl e ↦ check_reviews sars (counter + 1)
  ]

  all_failed : ℕ → List SubjectAccessReview → Outcome Rejection (Unit {0})
  all_failed counter sars =
      if leb counter (length sars) && leb (length sars) counter
      then err all_checks_failed
      else ok tt

  module _ {X : Type 0} where
    unfoldable pub validate_pod : PodSpec X → String → Settings → Outcome Rejection (Unit {0})
    unfolding check_reviews all_failed token_is_off
    validate_pod p namespace s =
        let sars = build_subject_access_reviews (service_account_of p namespace) s.block_rules in
        if token_is_off p.automount_service_account_token
        then ok tt
        else check_reviews sars 0 >>= (λ counter. all_failed counter sars)

    -- `default_spec` is `PodSpec::default()`. The result `none` is a panic.
    unfoldable pub validate :
        PodSpec X
        → Settings
        → String
        → Extracted (PodSpec X)
        → Option (Response Rejection (Unit {0}))
    unfolding answer
    validate default_spec s namespace (pod_spec p) = answer (validate_pod p namespace s)
    validate default_spec s namespace no_pod_spec = answer (validate_pod default_spec namespace s)
    validate default_spec s namespace unreadable = some (reject no_pod_spec_extracted)
