-- ===== src/ImageCve/Lookup.antt =====
-- policies/image-cve-policy/src/lib.rs: get_image_digest, get_vulnerability_report_by_digest and
-- get_vulnerability_report_by_tag. The host and the references of oci-spec are parameters.
pub mod Digests
pub mod Reports
pub mod Totality
pub mod Small
use policies.Prelude.{
  String, Bool, true, false, Option, none, some, List, [], ◌∷◌, Outcome, ok, err, panic, ◌⊎◌, inl,
  inr, unwrap_or, ◌+++◌, if◌then◌else◌,
}
use policies.ImageCve.Report.{VulnerabilityReport}
use policies.ImageCve.Settings.{Platform, OciPlatforms, sbomscanner_platform, into_oci, Settings}
use policies.ImageCve.Verify.{
  ImageValidationError, manifest_fetch_error, malformed_image_name, host_error, no_manifest_for,
}

-- `oci_spec::distribution::Reference`: `parse` gives the text of the error, or the reference.
pub record References (R : Type 0) : Type 0 where
  pub parse : String → String ⊎ R
  pub repository : R → String
  pub tag : R → Option String
  pub digest : R → Option String

pub record Descriptor (P : Type 0) : Type 0 where
  pub platform : Option P
  pub digest : String

pub data OciManifestResponse (P : Type 0) : Type 0 where
  image : OciManifestResponse P
  image_index : List (Descriptor P) → OciManifestResponse P

pub record ListResourcesByNamespaceRequest : Type 0 where
  pub api_version : String
  pub kind : String
  pub namespace : String
  pub label_selector : Option String
  pub field_selector : Option String
  pub field_masks : Option (List String)

-- The calls of the host: the text of the error, or the answer.
pub record Host (P : Type 0) : Type 0 where
  pub get_manifest : String → String ⊎ OciManifestResponse P
  pub get_manifest_digest : String → String ⊎ String
  pub list_resources_by_namespace :
      ListResourcesByNamespaceRequest → String ⊎ List VulnerabilityReport

unfoldable pub field_masks : List String
field_masks =
    "report.results.vulnerabilities.cve" ∷ "report.results.vulnerabilities.cvss"
    ∷ "report.results.vulnerabilities.fixedVersions" ∷ "report.results.vulnerabilities.severity"
    ∷ "report.results.vulnerabilities.suppressed" ∷ []

unfoldable pub reports_request : String → String → ListResourcesByNamespaceRequest
unfolding field_masks
reports_request namespace selector = record {
  api_version = "storage.sbomscanner.kubewarden.io/v1alpha1";
  kind = "VulnerabilityReport";
  namespace = namespace;
  label_selector = none;
  field_selector = some selector;
  field_masks = some field_masks;
}

-- The first report of the answer; an error of the host is only logged.
unfoldable pub first_report : String ⊎ List VulnerabilityReport → Option VulnerabilityReport
first_report (inl e) = none
first_report (inr []) = none
first_report (inr (r ∷ rs)) = some r

module _ {A O P : Type 0} (platforms : OciPlatforms A O P) where
  -- `host_platorm`.
  unfoldable pub host_platform : P
  host_platform =
      platforms.set_os (platforms.os_from "linux")
        (platforms.set_architecture (platforms.arch_from "amd64") platforms.default_)

  unfoldable pub wanted_platform : Option (Platform A O) → P
  unfolding host_platform into_oci
  wanted_platform none = host_platform
  wanted_platform (some p) = into_oci platforms p

  is_for : P → Option P → Bool
  is_for p none = false
  is_for p (some q) = platforms.eq q p

  unfoldable pub find_descriptor : P → List (Descriptor P) → Option (Descriptor P)
  unfolding is_for
  find_descriptor p [] = none
  find_descriptor p (d ∷ ds) =
      let rest = find_descriptor p ds in if is_for p d.platform then some d else rest

module _ {R P A O : Type 0} (references : References R) (platforms : OciPlatforms A O P)
    (host : Host P) where
  module _ {F : Type 0} where
    digest_response : String ⊎ String → Outcome (ImageValidationError F P) String
    digest_response (inl e) = err (manifest_fetch_error (host_error e))
    digest_response (inr digest) = ok digest

    described : P → Option (Descriptor P) → Outcome (ImageValidationError F P) String
    described p none = err (manifest_fetch_error (no_manifest_for p))
    described p (some d) = ok d.digest

    digest_of_manifest :
        String
        → Option (Platform A O)
        → String ⊎ OciManifestResponse P
        → Outcome (ImageValidationError F P) String
    unfolding digest_response described
    digest_of_manifest name platform (inl e) = err (manifest_fetch_error (host_error e))
    digest_of_manifest name platform (inr image) = digest_response (host.get_manifest_digest name)
    digest_of_manifest name platform (inr (image_index ds)) =
        described (wanted_platform platforms platform)
          (find_descriptor platforms (wanted_platform platforms platform) ds)

    digest_of_reference :
        String → Option (Platform A O) → String ⊎ R → Outcome (ImageValidationError F P) String
    unfolding digest_of_manifest
    digest_of_reference name platform (inl e) = err (malformed_image_name e)
    digest_of_reference name platform (inr r) = elim (references.digest r) [
      | some digest ↦ ok digest
      | none ↦ digest_of_manifest name platform (host.get_manifest name)
    ]

    unfoldable pub get_image_digest :
        String → Option (Platform A O) → Outcome (ImageValidationError F P) String
    unfolding digest_of_reference
    get_image_digest name platform = digest_of_reference name platform (references.parse name)

  module _ {F : Type 0} (s : Settings F A O) (workload_namespace : String) where
    unfoldable pub namespace_of : String
    namespace_of = unwrap_or workload_namespace s.vulnerability_report_namespace

    unfoldable pub get_vulnerability_report_by_digest : String → Option VulnerabilityReport
    unfolding namespace_of reports_request
    get_vulnerability_report_by_digest digest = first_report (
        host.list_resources_by_namespace
          (reports_request namespace_of ("imageMetadata.digest=" +++ digest)))

    unfoldable pub tag_selector : R → String
    tag_selector r =
        "imageMetadata.repository="
        +++ (references.repository r
            +++ (",imageMetadata.tag="
                +++ (unwrap_or "latest" (references.tag r)
                    +++ (",imageMetadata.platform="
                        +++ sbomscanner_platform platforms
                            (wanted_platform platforms s.platform)))))

    report_of_reference :
        String → String ⊎ R → Outcome (ImageValidationError F P) (Option VulnerabilityReport)
    unfolding namespace_of reports_request tag_selector
    report_of_reference name (inl e) = err (malformed_image_name e)
    report_of_reference name (inr r) = elim (references.digest r) [
      | some digest ↦ ok (get_vulnerability_report_by_digest name)
      | none ↦ ok (
          first_report
            (host.list_resources_by_namespace (reports_request namespace_of (tag_selector r))))
    ]

    unfoldable pub get_vulnerability_report_by_tag :
        String → Outcome (ImageValidationError F P) (Option VulnerabilityReport)
    unfolding report_of_reference
    get_vulnerability_report_by_tag name = report_of_reference name (references.parse name)
