-- ===== src/Examples/ImageSignatures.antt =====
-- policies/verify-image-signatures at concrete workloads.
use policies.Prelude.{
  ◌≡◌, ◌⊎◌, inl, inr, refl, String, true, ◌==◌, none, some, List, [], ◌∷◌, ℤ-discrete,
  String-discrete, if◌then◌else◌,
}
use policies.K8s.{Container}
use policies.Sdk.{Response, reject}
use policies.TrustedRepos.Matchers.{Wild}
use policies.TrustedRepos.Resources
use policies.TrustedRepos.Resources.{Resource}
use policies.Examples.Workloads.{container, pod}
use policies.Signatures.Settings
use policies.Signatures.Settings.{Signature, Certificate, PubKeys, Settings, Annotations}
use policies.Signatures.Verify.{VerificationResponse, Verifier}
use policies.Signatures.Resources.{Workload, Rejection, validate}
use policies.Signatures.Resources.Answers.{IsSignedAnswer, validate-IsSignedAnswer}

-- A pattern is the image itself.
abbrev wild : Wild String
wild = record { new = λ t. t; matches = λ p t. p == t }

abbrev known : String → String ⊎ VerificationResponse
known name =
    if name == "app"
    then inr (record { is_trusted = true; digest = "sha256:1" })
    else inl "no signature"

abbrev host : Verifier Unit Unit
host = record {
  verify_pub_keys_image = λ name keys a. known name;
  verify_keyless_exact_match = λ name keys a. known name;
  verify_keyless_prefix_match = λ name keys a. known name;
  verify_keyless_github_actions = λ name owner repo a. known name;
  verify_certificate = λ name c chain rekor a. known name;
}

abbrev container_eq : Discrete (List (Container (Unit {0})))
container_eq = hlevel (ℤ-discrete, String-discrete)

abbrev settings : Settings Unit Unit
settings = record {
  signatures =
      Signature.pub_keys (record { image = "app"; pub_keys = "key" ∷ []; annotations = none })
      ∷ Signature.certificate (record {
        image = "db";
        certificates = "certificate" ∷ [];
        certificate_chain = none;
        require_rekor_bundle = true;
        annotations = none;
      })
      ∷ [];
  modify_images_with_digest = true;
}

abbrev with_image : String → Container (Unit {0})
with_image name = record (container "main") { image = some name }

abbrev workload : List (Container (Unit {0})) → Workload (Unit {0})
workload containers = record {
  resource = Resource.deployment (some (some (pod containers)));
  name_ = some "web";
}

-- An image that no signature is for is not verified.
reject_test :
    validate wild host container_eq settings
      (some (workload (with_image "db" ∷ with_image "other" ∷ [])))
    ≡ some (reject (record { resource = "web"; errors = ("db", "no signature") ∷ [] }))
unfolding validate Resources.spec policies.Signatures.Verify.verify_all_images_in_pod
    policies.Signatures.Verify.verify_container_images Settings.image
    policies.Signatures.Verify.handle_verification_response
    policies.Signatures.Verify.verification_response policies.Signatures.Resources.name
reject_test = refl

validate-IsSignedAnswer_example :
    (r : Response Rejection (Workload (Unit {0}))) × (validate wild host container_eq settings
        (some (workload (with_image "app" ∷ [])))
      ≡ some r)
    × IsSignedAnswer wild host container_eq settings
        (workload (with_image "app" ∷ []))
        (pod (with_image "app" ∷ []))
        r
unfolding Resources.spec
validate-IsSignedAnswer_example =
    validate-IsSignedAnswer wild host container_eq settings (workload (with_image "app" ∷ []))
      (pod (with_image "app" ∷ [])) refl ((("app", refl), tt), tt, tt)
