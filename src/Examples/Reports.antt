-- ===== src/Examples/Reports.antt =====
-- The reports and the settings of policies/image-cve-policy at concrete values, with whole numbers
-- for scores, and a host that knows some of the images.
use policies.Prelude.{
  ℕ, ◌^◌, ◌<◌, ◌+◌, ltb, leb, not, ◌≡◌, ◌↔◌, ◌⊎◌, inl, inr, refl, String, Bool, true, false, ◌&&◌,
  Option, none, some, List, [], ◌∷◌, All, length, Outcome, ok, err, unwrap_or, ◌==◌, ◌+++◌, get,
  contains, ◌∈◌, if◌then◌else◌, arith,
}
use policies.ImageCve.Report.{
  Severity, critical, high, Cvss, Vulnerability, ScanResult, Report, VulnerabilityReport,
}
use policies.ImageCve.Settings.{
  Float, SeverityCount, total, total_without_fixes, MapAccess, entry, finished, duplicate_field,
  serialize, visit_map, digest, tag, OciPlatforms, MaxSeverity, CvssScore, Settings, Platform,
  sbomscanner_platform,
}
use policies.ImageCve.Settings.Counts.{visit_map-serialize_iff}
use policies.ImageCve.Verify.{
  ImageValidationError, cvss_score_threshold_exceeded, vulnerability_report_not_found,
  find_violation, verify_vulnerability_report,
}
use policies.ImageCve.Verify.Listing.{listed}
use policies.ImageCve.Verify.Limits.{Tells, find_violation-Tells}
use policies.ImageCve.Verify.Tolerance.{IsTolerated, verify_vulnerability_report-IsTolerated_iff}
use policies.ImageCve.Lookup.{
  References, Descriptor, OciManifestResponse, image, image_index, ListResourcesByNamespaceRequest,
  Host, get_image_digest,
}

abbrev pub tenths : Float ℕ
tenths = record {
  nought = 0;
  ten = 100;
  lt = ltb;
  gt = λ a b. ltb b a;
  ge = λ a b. leb b a;
  parse = λ t. if t == "9.1" then some 91 else if t == "5.0" then some 50 else none;
}

-- Of a reference only the digest is told apart from the whole.
abbrev pub references : References String
references = record {
  parse = λ t. if t == "" then inl "empty" else inr t;
  repository = λ r. r;
  tag = λ r. none;
  digest = λ r. if r == "app@sha256:1" then some "sha256:1" else none;
}

pub record Oci : Type 0 where
  pub os : String
  pub arch : String
  pub os_version : Option String
  pub os_features : Option (List String)
  pub variant : Option String

abbrev pub platforms : OciPlatforms String String Oci
platforms = record {
  arch_from = λ t. t;
  os_from = λ t. t;
  print_arch = λ t. t;
  print_os = λ t. t;
  default_ = record { os = ""; arch = ""; os_version = none; os_features = none; variant = none };
  set_architecture = λ a p. record p { arch = a };
  set_os = λ o p. record p { os = o };
  set_os_version = λ v p. record p { os_version = v };
  set_os_features = λ v p. record p { os_features = v };
  set_variant = λ v p. record p { variant = v };
  architecture = λ p. p.arch;
  os = λ p. p.os;
  variant = λ p. p.variant;
  eq = λ p q. p.os == q.os && p.arch == q.arch;
}

abbrev pub vulnerability : String → Option (List String) → String → Vulnerability
vulnerability cve fixes score = record {
  cve = cve;
  fixed_versions = fixes;
  severity = high;
  cvss = some (("redhat", record { v3_vector = ""; v3_score = score }) ∷ []);
  suppressed = false;
}

abbrev pub report : Report
report = record {
  results =
      record {
        vulnerabilities =
            vulnerability "CVE-1" (some ("1.1" ∷ [])) "9.1" ∷ vulnerability "CVE-2" none "5.0" ∷ [];
      }
      ∷ [];
}

abbrev pub given : Bool → String ⊎ List VulnerabilityReport
given true = inr (record { report = report } ∷ [])
given false = inr []

abbrev pub answer : ListResourcesByNamespaceRequest → String ⊎ List VulnerabilityReport
answer request = given (unwrap_or "" request.field_selector == "imageMetadata.digest=sha256:1")

abbrev pub manifest : String → String ⊎ OciManifestResponse Oci
manifest name =
    if name == "multi"
    then inr (
        image_index (
          record { platform = none; digest = "sha256:0" }
          ∷ record {
            platform = some (record {
              os = "linux";
              arch = "amd64";
              os_version = none;
              os_features = none;
              variant = none;
            });
            digest = "sha256:1";
          }
          ∷ []))
    else if name == "app"
    then inr image
    else inl "not found"

abbrev pub host : Host Oci
host = record {
  get_manifest = manifest;
  get_manifest_digest = λ name. inr "sha256:2";
  list_resources_by_namespace = answer;
}

abbrev pub no_limits : MaxSeverity
no_limits = record { critical = none; high = none; medium = none; low = none; unknown = none }

abbrev pub settings : Option SeverityCount → Settings ℕ String String
settings limit = record {
  max_severity = some (record no_limits { high = limit });
  allow_always = [];
  deny_always = "CVE-9" ∷ [];
  ignore_missing_vulnerability_report = false;
  vulnerability_report_namespace = none;
  ignore_vex_status = false;
  cvss_score = none;
  platform = none;
  cve_name = none;
  image_lookup_strategy = digest;
}

abbrev pub with_score : ℕ → Settings ℕ String String
with_score n = record (settings none) {
  cvss_score = some (record { threshold = 60; max_count = n });
}

-- A digest in the reference, the entry of an index for the platform, and the errors.
digest_test :
    (get_image_digest references platforms host {F = ℕ} "app@sha256:1" none ≡ ok "sha256:1")
    × (get_image_digest references platforms host {F = ℕ} "multi" none ≡ ok "sha256:1")
    × (get_image_digest references platforms host {F = ℕ} "app" none ≡ ok "sha256:2")
unfolding get_image_digest policies.ImageCve.Lookup.find_descriptor
    policies.ImageCve.Lookup.wanted_platform
digest_test = (refl, refl, refl)

score_test :
    (verify_vulnerability_report {P = Oci} tenths (with_score 1) report ≡ ok tt)
    × (verify_vulnerability_report {P = Oci} tenths (with_score 0) report
        ≡ err (cvss_score_threshold_exceeded 60 0 1))
unfolding verify_vulnerability_report policies.Prelude.intersection
    policies.ImageCve.Report.vulnerabilties_ids policies.Prelude.insert
    policies.ImageCve.Settings.is_configured
    policies.ImageCve.Verify.count_vulnerabilities_with_cvss_above_threshold
    policies.ImageCve.Verify.all_vulnerabilities policies.ImageCve.Verify.score
    policies.ImageCve.Verify.preferred get
score_test = (refl, refl)

platform_test :
    sbomscanner_platform platforms (record {
      os = "linux";
      arch = "arm64";
      os_version = none;
      os_features = none;
      variant = some "v8";
    })
    ≡ "linux/arm64/v8"
unfolding sbomscanner_platform
platform_test = refl

abbrev one_total : MapAccess String
one_total = entry "total" (ok 3) finished

abbrev two_totals : MapAccess String
two_totals = entry "total" (ok 3) (entry "total" (ok 4) finished)

duplicate_test : visit_map two_totals ≡ err (duplicate_field "total")
unfolding visit_map
duplicate_test = refl

visit_map-serialize_iff_example :
    (visit_map one_total ≡ ok (total 3)) ↔ (one_total ≡ serialize (total 3))
visit_map-serialize_iff_example = visit_map-serialize_iff one_total (total 3)

find_violation-Tells_example :
    Tells
      (total 1)
      (listed report)
      (listed report)
      (find_violation (some (total 1)) (listed report) (listed report))
unfolding policies.ImageCve.Verify.all_vulnerabilities
find_violation-Tells_example =
    find_violation-Tells (total 1) (listed report) (listed report) (ground arith)

verify_vulnerability_report-IsTolerated_iff_example :
    (verify_vulnerability_report {P = Oci} tenths (settings (some (total_without_fixes 1))) report
      ≡ ok tt)
    ↔ IsTolerated tenths (settings (some (total_without_fixes 1))) report
unfolding policies.ImageCve.Verify.all_vulnerabilities
verify_vulnerability_report-IsTolerated_iff_example =
    verify_vulnerability_report-IsTolerated_iff tenths (settings (some (total_without_fixes 1)))
      report (ground arith)
