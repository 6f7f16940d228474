-- ===== src/Examples/KnownVulnerabilities.antt =====
-- policies/image-cve-policy at concrete workloads.
use policies.Prelude.{
  ℕ, ◌^◌, ◌<◌, ◌+◌, ltb, leb, not, ◌≡◌, ◌↔◌, ◌⊎◌, inl, refl, String, ◌&&◌, Option, none, some, List,
  [], ◌∷◌, length, Outcome, ok, err, ◌+++◌, get, contains, ◌∈◌, if◌then◌else◌,
}
use policies.K8s.{Container, PodSpec}
use policies.Sdk.{reject}
use policies.TrustedRepos.Resources
use policies.TrustedRepos.Resources.{Resource}
use policies.ImageCve.Report.{Severity, critical, high, Cvss, Vulnerability, ScanResult, Report}
use policies.ImageCve.Settings.{
  Float, SeverityCount, total, total_without_fixes, MapAccess, entry, finished, duplicate_field,
  serialize, visit_map, digest, tag, OciPlatforms, MaxSeverity, CvssScore, Settings, Platform,
  sbomscanner_platform,
}
use policies.ImageCve.Verify.{
  ImageValidationError, cvss_score_threshold_exceeded, vulnerability_report_not_found,
  find_violation, verify_vulnerability_report,
}
use policies.ImageCve.Lookup.{
  References, Descriptor, OciManifestResponse, image, image_index, ListResourcesByNamespaceRequest,
  Host, get_image_digest,
}
use policies.ImageCve.Pods.{Errors, Workload, verify_container_image, verify_images, validate}
use policies.ImageCve.Pods.Errors.{verify_images-alone}
use policies.Examples.Reports.{Oci, tenths, references, platforms, host, settings}
use policies.Examples.Workloads.{container, pod}

abbrev with_image : String → Container Unit
with_image name = record (container "main") { image = some name }

abbrev web : PodSpec Unit
web = record (pod (with_image "app@sha256:1" ∷ with_image "app" ∷ [])) {
  ephemeral_containers = some (with_image "app" ∷ []);
}

abbrev workload : Workload Unit
workload = record { resource = Resource.pod (some web); name = some "web"; namespace = some "shop" }

abbrev images : List String
images = "app@sha256:1" ∷ "app" ∷ "app" ∷ []

abbrev errors : Errors ℕ Oci
errors = ("app", vulnerability_report_not_found) ∷ []

-- The report of one image is tolerated, the other image has none.
reject_test :
    validate tenths references platforms host (settings (some (total 2))) (some workload)
    ≡ some (reject (record { resource = "web"; errors = errors }))
unfolding validate Resources.spec policies.ImageCve.Pods.verify_all_images_in_podspec
    policies.Prelude.contains_key get_image_digest
    policies.ImageCve.Pods.process_vulnerability_report
    policies.ImageCve.Lookup.get_vulnerability_report_by_digest
    policies.ImageCve.Lookup.first_report policies.ImageCve.Verify.has_violations find_violation
    policies.ImageCve.Report.high_severity_vulnerabilities_with_fixes
    policies.ImageCve.Report.high_severity_vulnerabilities_without_fixes
    policies.ImageCve.Report.same_severity policies.ImageCve.Report.has_fix policies.Prelude.put
    verify_vulnerability_report policies.Prelude.intersection
    policies.ImageCve.Report.vulnerabilties_ids policies.Prelude.insert
    policies.ImageCve.Settings.is_configured
reject_test = refl

verify_images-alone_example :
    (found : Errors ℕ Oci) × (verify_images tenths references platforms host
        (settings (some (total 2)))
        "shop"
        images
        []
      ≡ some found)
    × ((name : String)
        → (alone : Errors ℕ Oci) × (verify_container_image tenths references platforms host
              (settings (some (total 2)))
              "shop"
              name
              []
            ≡ some alone)
          × (get name found ≡ (if contains images name then get name alone else none)))
verify_images-alone_example =
    verify_images-alone tenths references platforms host (settings (some (total 2))) "shop" images
