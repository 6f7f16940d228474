-- ===== src/ImageCve/Lookup/Reports.antt =====
-- Which report is found for an image, against the calls of the host.
use policies.Prelude.{
  ◌≡◌, ◌⊎◌, inl, inr, refl, sym, ap, ◌∙◌, String, Option, none, some, List, [], ◌∷◌, ok, err,
  unwrap_or, ◌+++◌, Option-cases,
}
use policies.ImageCve.Report.{VulnerabilityReport}
use policies.ImageCve.Settings.{OciPlatforms, sbomscanner_platform, Settings}
use policies.ImageCve.Verify.{ImageValidationError, malformed_image_name}
use policies.ImageCve.Lookup.{
  References, ListResourcesByNamespaceRequest, Host, first_report, namespace_of, reports_request,
  field_masks, get_vulnerability_report_by_digest, tag_selector, report_of_reference,
  get_vulnerability_report_by_tag,
}
use policies.ImageCve.Lookup.Digests.{platform_for, wanted_platform-eq}

-- The request for the reports of a namespace.
abbrev pub request_for : String → String → ListResourcesByNamespaceRequest
request_for namespace selector = record {
  api_version = "storage.sbomscanner.kubewarden.io/v1alpha1";
  kind = "VulnerabilityReport";
  namespace = namespace;
  label_selector = none;
  field_selector = some selector;
  field_masks = some (
      "report.results.vulnerabilities.cve" ∷ "report.results.vulnerabilities.cvss"
      ∷ "report.results.vulnerabilities.fixedVersions" ∷ "report.results.vulnerabilities.severity"
      ∷ "report.results.vulnerabilities.suppressed" ∷ []);
}

abbrev pub first_of : String ⊎ List VulnerabilityReport → Option VulnerabilityReport
first_of (inl e) = none
first_of (inr []) = none
first_of (inr (r ∷ rs)) = some r

first_report-eq : (o : String ⊎ List VulnerabilityReport) → first_report o ≡ first_of o
unfolding first_report
first_report-eq (inl e) = refl
first_report-eq (inr []) = refl
first_report-eq (inr (r ∷ rs)) = refl

module _ {R P A O F : Type 0} (references : References R) (platforms : OciPlatforms A O P)
    (host : Host P) (s : Settings F A O) (workload_namespace : String) where
  -- The first report that the host gives, of the namespace of the settings if they set one, else
  -- of that of the workload.
  abbrev pub report_for : String → Option VulnerabilityReport
  report_for selector = first_of (
      host.list_resources_by_namespace
        (request_for (unwrap_or workload_namespace s.vulnerability_report_namespace) selector))

  -- `os/architecture`, and `/variant` if there is one.
  abbrev pub platform_text : P → String
  platform_text p =
      platforms.print_os (platforms.os p)
      +++ ("/"
          +++ (platforms.print_arch (platforms.architecture p)
              +++ elim (platforms.variant p) [ none ↦ "" | some v ↦ "/" +++ v ]))

  abbrev pub tag_text : R → String
  tag_text r =
      "imageMetadata.repository="
      +++ (references.repository r
          +++ (",imageMetadata.tag="
              +++ (unwrap_or "latest" (references.tag r)
                  +++ (",imageMetadata.platform="
                      +++ platform_text (platform_for platforms s.platform)))))

  -- An image with a digest is selected by the digest, but with the whole reference as its value;
  -- any other by its repository, its tag or latest, and the platform.
  abbrev pub IsSelector : String → R → String → Type 0
  IsSelector name r selector =
      ((¬ (references.digest r ≡ none)) × (selector ≡ "imageMetadata.digest=" +++ name))
      ⊎ ((references.digest r ≡ none) × (selector ≡ tag_text r))

  pub one_selector :
      (name : String) (r : R) (a b : String) → IsSelector name r a → IsSelector name r b → a ≡ b
  one_selector name r a b (inl (with_, same)) (inl (other, same_b)) = same ∙ sym same_b
  one_selector name r a b (inl (with_, same)) (inr (without, same_b)) = absurd (with_ without)
  one_selector name r a b (inr (without, same)) (inl (with_, same_b)) = absurd (with_ without)
  one_selector name r a b (inr (without, same)) (inr (other, same_b)) = same ∙ sym same_b

  tag_selector-eq :
      (r : R) → tag_selector references platforms host s workload_namespace r ≡ tag_text r
  unfolding tag_selector sbomscanner_platform
  tag_selector-eq r = rw (wanted_platform-eq platforms s.platform) refl

  pub by_digest-eq :
      (digest : String)
      → get_vulnerability_report_by_digest references platforms host s workload_namespace digest
        ≡ report_for ("imageMetadata.digest=" +++ digest)
  unfolding get_vulnerability_report_by_digest namespace_of reports_request field_masks
  by_digest-eq digest = first_report-eq (host.list_resources_by_namespace _)

  pub by_tag-eq :
      (name : String) (r : R)
      → references.parse name ≡ inr r
      → (selector : String) × IsSelector name r selector
        × (get_vulnerability_report_by_tag references platforms host s workload_namespace name
            ≡ ok (report_for selector))
  unfolding get_vulnerability_report_by_tag report_of_reference namespace_of reports_request
      field_masks
  by_tag-eq name r parsed = elim (Option-cases (references.digest r)) [
    | inr (d, with_) ↦ (
      "imageMetadata.digest=" +++ name,
      inl ((λ without. cc (with_, without)), refl),
      rw (parsed, report_of_reference, with_) (ap ok (by_digest-eq name)),
    )
    | inl without ↦ (
      tag_text r,
      inr (without, refl),
      rw (parsed, report_of_reference, without)
          (ap ok (
            first_report-eq (host.list_resources_by_namespace _)
            ∙ ap report_for (tag_selector-eq r))),
    )
  ]

  pub by_tag-malformed :
      (name e : String)
      → references.parse name ≡ inl e
      → (failed : ImageValidationError F P) × (get_vulnerability_report_by_tag references platforms
            host s workload_namespace name
          ≡ err failed)
  unfolding get_vulnerability_report_by_tag report_of_reference
  by_tag-malformed name e parsed = (malformed_image_name e, rw (parsed, report_of_reference) refl)
