-- ===== src/Signatures/Verify.antt =====
-- policies/verify-image-signatures/src/lib.rs: verify_all_images_in_pod and what it calls. The host
-- and the patterns of wildmatch are parameters.
pub mod Loops
pub mod Pods
use policies.Prelude.{
  ◌≡◌, String, Bool, true, false, not, Option, none, some, List, [], ◌∷◌, ◌++◌, Outcome, ok, err,
  panic, ◌>>=◌, ◌⊎◌, inl, inr, is_empty, contains_text, join, unwrap_or, is_some, ◌||◌,
  if◌then◌else◌,
}
use policies.K8s.{Container, PodSpec}
use policies.TrustedRepos.Matchers.{Wild}
use policies.Signatures.Settings.{
  Annotations, Signature, pub_keys, keyless, github_actions, keyless_prefix, certificate,
  Certificate, image,
}

pub record VerificationResponse : Type 0 where
  pub is_trusted : Bool
  pub digest : String

-- The verifications of the host: the text of the error, or the response. The image comes first.
pub record Verifier (K KP : Type 0) : Type 0 where
  pub verify_pub_keys_image : String → List String → Annotations → String ⊎ VerificationResponse
  pub verify_keyless_exact_match : String → List K → Annotations → String ⊎ VerificationResponse
  pub verify_keyless_prefix_match : String → List KP → Annotations → String ⊎ VerificationResponse
  pub verify_keyless_github_actions :
      String → String → Option String → Annotations → String ⊎ VerificationResponse
  pub verify_certificate :
      String → String → Option (List String) → Bool → Annotations → String ⊎ VerificationResponse

-- An image and the error of its verification.
abbrev pub Failure : Type 0
Failure = String × String

module _ {X : Type 0} where
  unfoldable pub add_digest_if_not_present : String → String → Container X → Container X
  add_digest_if_not_present name digest c =
      if not (contains_text name digest)
      then record c { image = some (join "@" (name ∷ digest ∷ [])) }
      else c

  -- The container and the errors that the call leaves.
  unfoldable pub handle_verification_response :
      String ⊎ VerificationResponse
      → String
      → Container X × List Failure
      → Container X × List Failure
  handle_verification_response (inr r) name (c, errors) =
      (add_digest_if_not_present name r.digest c, errors)
  handle_verification_response (inl e) name (c, errors) = (c, errors ++ (name, e) ∷ [])

module _ {K KP W : Type 0} (wild : Wild W) (host : Verifier K KP) where
  -- The loop over the certificates, with the response of the one before.
  verify_certificates :
      Certificate
      → String
      → List String
      → String ⊎ VerificationResponse
      → String ⊎ VerificationResponse
  verify_certificates s name [] response = response
  verify_certificates s name (c ∷ cs) response =
      elim (host.verify_certificate name c s.certificate_chain s.require_rekor_bundle
        s.annotations) [ inl e ↦ inl e | inr r ↦ verify_certificates s name cs (inr r) ]

  unfoldable pub verification_response : Signature K KP → String → String ⊎ VerificationResponse
  unfolding verify_certificates
  verification_response (pub_keys s) name = host.verify_pub_keys_image name s.pub_keys s.annotations
  verification_response (keyless s) name =
      host.verify_keyless_exact_match name s.keyless s.annotations
  verification_response (keyless_prefix s) name =
      host.verify_keyless_prefix_match name s.keyless_prefix s.annotations
  verification_response (github_actions s) name =
      host.verify_keyless_github_actions name s.github_actions.owner s.github_actions.repo
        s.annotations
  verification_response (certificate s) name =
      verify_certificates s name s.certificates (inl "Cannot verify")

  is_for : Signature K KP → String → Bool
  is_for s name = wild.matches (wild.new (image s)) name

  module _ {X : Type 0} where
    -- The loop over the signatures, for one container.
    verify_signatures :
        String → List (Signature K KP) → Container X × List Failure → Container X × List Failure
    unfolding is_for
    verify_signatures name [] state = state
    verify_signatures name (s ∷ ss) state = verify_signatures name ss (
        if is_for s name
        then handle_verification_response (verification_response s name) name state
        else state)

    -- The loop over the containers: the new containers, and the errors.
    unfoldable pub verify_containers :
        List (Signature K KP)
        → List (Container X)
        → List Failure
        → Outcome (List Failure) (List (Container X) × List Failure)
    unfolding verify_signatures
    verify_containers signatures [] errors = ok ([], errors)
    verify_containers signatures (c ∷ cs) errors = elim c.image [
      | none ↦ panic
      | some name ↦
          let (c', errors') = verify_signatures name signatures (c, errors) in
          verify_containers signatures cs errors' >>= (λ (cs', later). ok (c' ∷ cs', later))
    ]

    changed :
        {cs cs' : List (Container X)}
        → Dec (cs ≡ cs')
        → List (Container X)
        → Option (List (Container X))
    changed (yes same) cs' = none
    changed (no other) cs' = some cs'

    module _ (eq : Discrete (List (Container X))) (signatures : List (Signature K KP)) where
      unfoldable pub verify_container_images :
          List (Container X)
          → List Failure
          → Outcome (List Failure) (Option (List (Container X)) × List Failure)
      unfolding verify_containers changed
      verify_container_images cs errors =
          verify_containers signatures cs errors
          >>= (λ (cs', later). ok (changed (eq cs cs') cs', later))

      -- For init containers and ephemeral containers.
      verify_optional_images :
          Option (List (Container X))
          → List Failure
          → Outcome (List Failure) (Option (List (Container X)) × List Failure)
      verify_optional_images none errors = ok (none, errors)
      verify_optional_images (some cs) errors = verify_container_images cs errors

      or_old :
          Option (List (Container X)) → Option (List (Container X)) → Option (List (Container X))
      or_old none old = old
      or_old (some new) old = some new

      -- The errors, or the pod with what changed, if anything did.
      pod_with :
          PodSpec X
          → Option (List (Container X))
          → Option (List (Container X))
          → Option (List (Container X))
          → List Failure
          → Outcome (List Failure) (Option (PodSpec X))
      unfolding or_old
      pod_with p containers inits ephemerals errors =
          if not (is_empty errors)
          then err errors
          else if is_some containers || (is_some inits || is_some ephemerals)
          then ok (
              some (record p {
                containers = unwrap_or p.containers containers;
                init_containers = or_old inits p.init_containers;
                ephemeral_containers = or_old ephemerals p.ephemeral_containers;
              }))
          else ok none

      unfoldable pub verify_all_images_in_pod :
          PodSpec X → Outcome (List Failure) (Option (PodSpec X))
      unfolding verify_optional_images pod_with
      verify_all_images_in_pod p = do
        (containers, first) ← verify_container_images p.containers []
        (inits, second) ← verify_optional_images p.init_containers first
        (ephemerals, errors) ← verify_optional_images p.ephemeral_containers second
        pod_with p containers inits ephemerals errors
