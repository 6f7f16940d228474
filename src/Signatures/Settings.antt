-- ===== src/Signatures/Settings.antt =====
-- policies/verify-image-signatures/src/settings.rs and src/settings. The crates validator (whose
-- `length(min = 1)` asks for an element) and pem, and the host's check of certificates, are
-- parameters where the code relies on more.
use policies.Prelude.{
  String, Bool, true, false, not, ◌==◌, Option, none, some, List, [], ◌∷◌, ◌++◌, Outcome, ok, err,
  panic, ◌⊎◌, inl, inr, is_empty, retain, if◌then◌else◌,
}

-- Optional annotations that all signers must have given.
abbrev pub Annotations : Type 0
Annotations = Option (List (String × String))

pub record PubKeys : Type 0 where
  pub image : String
  pub pub_keys : List String
  pub annotations : Annotations

-- `K` is `KeylessInfo` of the SDK.
pub record Keyless (K : Type 0) : Type 0 where
  pub image : String
  pub keyless : List K
  pub annotations : Annotations

pub record KeylessGithubActionsInfo : Type 0 where
  pub owner : String
  pub repo : Option String

pub record GithubActions : Type 0 where
  pub image : String
  pub github_actions : KeylessGithubActionsInfo
  pub annotations : Annotations

-- `KP` is `KeylessPrefixInfo` of the SDK.
pub record KeylessPrefix (KP : Type 0) : Type 0 where
  pub image : String
  pub keyless_prefix : List KP
  pub annotations : Annotations

pub record Certificate : Type 0 where
  pub image : String
  pub certificates : List String
  pub certificate_chain : Option (List String)
  pub require_rekor_bundle : Bool
  pub annotations : Annotations

pub data Signature (K KP : Type 0) : Type 0 where
  pub_keys : PubKeys → Signature K KP
  keyless : Keyless K → Signature K KP
  github_actions : GithubActions → Signature K KP
  keyless_prefix : KeylessPrefix KP → Signature K KP
  certificate : Certificate → Signature K KP

pub record Settings (K KP : Type 0) : Type 0 where
  pub signatures : List (Signature K KP)
  pub modify_images_with_digest : Bool

unfoldable pub image : {K KP : Type 0} → Signature K KP → String
image (pub_keys s) = s.image
image (keyless s) = s.image
image (github_actions s) = s.image
image (keyless_prefix s) = s.image
image (certificate s) = s.image

-- `BoolWithReason` of the SDK.
pub data BoolWithReason : Type 0 where
  trusted : BoolWithReason
  distrusted : String → BoolWithReason

-- `invalid_fields` are those that validator names.
pub data SignatureError : Type 0 where
  invalid_fields : List String → SignatureError
  no_image no_certificate non_pem_data : SignatureError
  invalid_certificates : List String → SignatureError

-- `pem::parse(s).is_ok()`, and `verify_cert` of a certificate with its chain.
pub record Crypto : Type 0 where
  pub is_pem : String → Bool
  pub verify_cert : String → Option (List String) → String ⊎ BoolWithReason

-- A field is named if its value is not valid.
named_if : Bool → String → List String
named_if true field = field ∷ []
named_if false field = []

named_errors : List String → Outcome SignatureError (Unit {0})
named_errors [] = ok tt
named_errors (f ∷ fs) = err (invalid_fields (f ∷ fs))

module _ (crypto : Crypto) where
  unfoldable pub validate_vector_of_pem_strings : List String → Bool
  validate_vector_of_pem_strings texts = is_empty (retain (λ s. not (crypto.is_pem s)) texts)

  validate_chain : Option (List String) → Bool
  validate_chain none = true
  validate_chain (some chain) = validate_vector_of_pem_strings chain

  -- The reason of one certificate.
  reason_of : String ⊎ BoolWithReason → List String
  reason_of (inl e) = e ∷ []
  reason_of (inr trusted) = []
  reason_of (inr (distrusted reason)) = reason ∷ []

  certificate_errors : Option (List String) → List String → List String
  unfolding reason_of
  certificate_errors chain [] = []
  certificate_errors chain (c ∷ cs) =
      reason_of (crypto.verify_cert c chain) ++ certificate_errors chain cs

  unfoldable pub validate_certificate : Certificate → Outcome SignatureError (Unit {0})
  unfolding validate_chain certificate_errors
  validate_certificate c =
      let errors = certificate_errors c.certificate_chain c.certificates in
      if c.image == ""
      then err no_image
      else if is_empty c.certificates
      then err no_certificate
      else if not (validate_chain c.certificate_chain)
      then err non_pem_data
      else if is_empty errors
      then ok tt
      else err (invalid_certificates errors)

  module _ {K KP : Type 0} where
    unfoldable pub validate_signature : Signature K KP → Outcome SignatureError (Unit {0})
    unfolding named_if named_errors
    validate_signature (pub_keys s) = named_errors (
        named_if (s.image == "") "image"
        ++ named_if
            (if is_empty s.pub_keys then true else not (validate_vector_of_pem_strings s.pub_keys))
            "pub_keys")
    validate_signature (keyless s) = named_errors (named_if (s.image == "") "image")
    validate_signature (github_actions s) = named_errors (named_if (s.image == "") "image")
    validate_signature (keyless_prefix s) =
        named_errors (
          named_if (s.image == "") "image" ++ named_if (is_empty s.keyless_prefix) "keyless_prefix")
    validate_signature (certificate s) = validate_certificate s

    -- The errors, each with the signature that it is about.
    validation_errors : List (Signature K KP) → List (Signature K KP × SignatureError)
    validation_errors [] = []
    validation_errors (s ∷ ss) = elim (validate_signature s) [
      | ok u ↦ validation_errors ss
      | err e ↦ (s, e) ∷ validation_errors ss
      | panic ↦ validation_errors ss
    ]

    -- No signatures at all are an error with an empty list.
    unfoldable pub validate :
        Settings K KP → Outcome (List (Signature K KP × SignatureError)) (Unit {0})
    unfolding validation_errors
    validate s =
        let errors = validation_errors s.signatures in
        if is_empty s.signatures then err [] else if is_empty errors then ok tt else err errors
