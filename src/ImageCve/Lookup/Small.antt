-- ===== src/ImageCve/Lookup/Small.antt =====
-- Reports whose vulnerabilities are counted without an overflow, if the host gives only such.
use policies.Prelude.{
  ◌≡◌, refl, ◌^◌, ◌<◌, String, Option, none, some, List, [], ◌∷◌, ◌⊎◌, inl, inr, length, All,
  Outcome, ok, err, panic, Option-cases,
}
use policies.ImageCve.Report.{VulnerabilityReport}
use policies.ImageCve.Settings.{OciPlatforms, Settings}
use policies.ImageCve.Verify.Listing.{listed}
use policies.ImageCve.Lookup.{
  References, Host, ListResourcesByNamespaceRequest, first_report, report_of_reference,
  get_vulnerability_report_by_digest, get_vulnerability_report_by_tag,
}

abbrev pub IsSmallReport : VulnerabilityReport → Type 0
IsSmallReport r = length (listed r.report) < 2 ^ 32

-- The memory of the policy, with 32-bit addresses, holds no list of 2^32 elements.
abbrev pub GivesSmallReports : {P : Type 0} → Host P → Type 0
GivesSmallReports host =
    (request : ListResourcesByNamespaceRequest) (reports : List VulnerabilityReport)
    → host.list_resources_by_namespace request ≡ inr reports
    → All IsSmallReport reports

abbrev pub IsSmall : Option VulnerabilityReport → Type 0
IsSmall none = Unit
IsSmall (some r) = IsSmallReport r

abbrev pub IsSmallOutcome : {E : Type 0} → Outcome E (Option VulnerabilityReport) → Type 0
IsSmallOutcome (ok o) = IsSmall o
IsSmallOutcome (err e) = Unit
IsSmallOutcome panic = Unit

first_report-IsSmall :
    (answer : String ⊎ List VulnerabilityReport)
    → ((reports : List VulnerabilityReport) → answer ≡ inr reports → All IsSmallReport reports)
    → IsSmall (first_report answer)
unfolding first_report
first_report-IsSmall (inl e) h = tt
first_report-IsSmall (inr []) h = tt
first_report-IsSmall (inr (r ∷ rs)) h = (h (r ∷ rs) refl).0

module _ {R P A O F : Type 0} (references : References R) (platforms : OciPlatforms A O P)
    (host : Host P) (s : Settings F A O) (workload_namespace : String)
    (small : GivesSmallReports host) where
  pub get_vulnerability_report_by_digest-IsSmall :
      (digest : String)
      → IsSmall
          (get_vulnerability_report_by_digest references platforms host s workload_namespace digest)
  unfolding get_vulnerability_report_by_digest
  get_vulnerability_report_by_digest-IsSmall digest =
      first_report-IsSmall (host.list_resources_by_namespace _) (small _)

  report_of_reference-IsSmallOutcome :
      (name : String) (o : String ⊎ R)
      → IsSmallOutcome (report_of_reference references platforms host s workload_namespace name o)
  unfolding report_of_reference
  report_of_reference-IsSmallOutcome name (inl e) = tt
  report_of_reference-IsSmallOutcome name (inr r) = elim (Option-cases (references.digest r)) [
    | inl without ↦
        rw (without, IsSmallOutcome)
          (first_report-IsSmall (host.list_resources_by_namespace _) (small _))
    | inr (d, with_) ↦ rw (with_, IsSmallOutcome) (get_vulnerability_report_by_digest-IsSmall name)
  ]

  pub get_vulnerability_report_by_tag-IsSmallOutcome :
      (name : String)
      → IsSmallOutcome
          (get_vulnerability_report_by_tag references platforms host s workload_namespace name)
  unfolding get_vulnerability_report_by_tag
  get_vulnerability_report_by_tag-IsSmallOutcome name =
      report_of_reference-IsSmallOutcome name (references.parse name)
