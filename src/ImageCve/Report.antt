-- ===== src/ImageCve/Report.antt =====
-- policies/image-cve-policy/src/sbomscanner/storage/v1alpha1: the reports of vulnerabilities, with
-- the fields that the build for WebAssembly has.
use policies.Prelude.{
  String, Bool, true, false, not, ◌&&◌, ◌||◌, Option, none, some, List, [], ◌∷◌, is_empty, contains,
  insert, if◌then◌else◌,
}

pub data Severity : Type 0 where
  critical high medium low unknown : Severity

pub record Cvss : Type 0 where
  pub v3_vector : String
  pub v3_score : String

pub record Vulnerability : Type 0 where
  pub cve : String
  pub fixed_versions : Option (List String)
  pub severity : Severity
  pub cvss : Option (List (String × Cvss))
  pub suppressed : Bool

-- `==` of severities.
unfoldable pub same_severity : Severity → Severity → Bool
same_severity critical critical = true
same_severity high high = true
same_severity medium medium = true
same_severity low low = true
same_severity unknown unknown = true
same_severity a b = false

unfoldable pub has_fix : Vulnerability → Bool
has_fix v = elim v.fixed_versions [ none ↦ false | some fixes ↦ not (is_empty fixes) ]

-- `==` of Booleans.
abbrev pub same : Bool → Bool → Bool
same true b = b
same false b = not b

pub record ScanResult : Type 0 where
  pub vulnerabilities : List Vulnerability

pub record Report : Type 0 where
  pub results : List ScanResult

-- A VulnerabilityReport, of which the code reads the report.
pub record VulnerabilityReport : Type 0 where
  pub report : Report

-- The inner loop and the outer loop.
unfoldable pub insert_ids : List Vulnerability → List String → List String
insert_ids [] ids = ids
insert_ids (v ∷ vs) ids = insert_ids vs (insert v.cve ids)

unfoldable pub insert_results : List ScanResult → List String → List String
insert_results [] ids = ids
insert_results (r ∷ rs) ids = insert_results rs (insert_ids r.vulnerabilities ids)

unfoldable pub vulnerabilties_ids : Report → List String
unfolding insert_results insert_ids
vulnerabilties_ids report = insert_results report.results []

module _ (severity : Severity) (with_fix : Bool) (always_allowed : List String)
    (ignore : Bool) where
  unfoldable pub is_found : Vulnerability → Bool
  is_found v =
      if contains always_allowed v.cve
      then false
      else same_severity v.severity severity
        && (same with_fix (has_fix v) && (ignore || not v.suppressed))

  -- `rest` is what the loop pushes later.
  unfoldable pub find_in : List Vulnerability → List Vulnerability → List Vulnerability
  find_in [] rest = rest
  find_in (v ∷ vs) rest = let later = find_in vs rest in if is_found v then v ∷ later else later

  unfoldable pub find_in_results : List ScanResult → List Vulnerability
  find_in_results [] = []
  find_in_results (r ∷ rs) = find_in r.vulnerabilities (find_in_results rs)

-- `ignore` is `ignore_vex_status`.
unfoldable pub find_vulnerabilities :
    Severity → Bool → List String → Bool → Report → List Vulnerability
unfolding find_in_results find_in is_found
find_vulnerabilities severity with_fix always_allowed ignore report =
    find_in_results severity with_fix always_allowed ignore report.results

module _ (always_allowed : List String) (ignore : Bool) where
  unfoldable pub critical_severity_vulnerabilitiest_with_fixes : Report → List Vulnerability
  unfolding find_vulnerabilities
  critical_severity_vulnerabilitiest_with_fixes =
      find_vulnerabilities critical true always_allowed ignore

  unfoldable pub critical_severity_vulnerabilities_without_fixes : Report → List Vulnerability
  unfolding find_vulnerabilities
  critical_severity_vulnerabilities_without_fixes =
      find_vulnerabilities critical false always_allowed ignore

  unfoldable pub high_severity_vulnerabilities_with_fixes : Report → List Vulnerability
  unfolding find_vulnerabilities
  high_severity_vulnerabilities_with_fixes = find_vulnerabilities high true always_allowed ignore

  unfoldable pub high_severity_vulnerabilities_without_fixes : Report → List Vulnerability
  unfolding find_vulnerabilities
  high_severity_vulnerabilities_without_fixes =
      find_vulnerabilities high false always_allowed ignore

  unfoldable pub medium_severity_vulnerabilities_with_fixes : Report → List Vulnerability
  unfolding find_vulnerabilities
  medium_severity_vulnerabilities_with_fixes =
      find_vulnerabilities medium true always_allowed ignore

  unfoldable pub medium_severity_vulnerabilities_without_fixes : Report → List Vulnerability
  unfolding find_vulnerabilities
  medium_severity_vulnerabilities_without_fixes =
      find_vulnerabilities medium false always_allowed ignore

  unfoldable pub low_severity_vulnerabilities_with_fixes : Report → List Vulnerability
  unfolding find_vulnerabilities
  low_severity_vulnerabilities_with_fixes = find_vulnerabilities low true always_allowed ignore

  unfoldable pub low_severity_vulnerabilities_without_fixes : Report → List Vulnerability
  unfolding find_vulnerabilities
  low_severity_vulnerabilities_without_fixes = find_vulnerabilities low false always_allowed ignore

  unfoldable pub unknown_severity_vulnerabilities_with_fixes : Report → List Vulnerability
  unfolding find_vulnerabilities
  unknown_severity_vulnerabilities_with_fixes =
      find_vulnerabilities unknown true always_allowed ignore

  unfoldable pub unknown_severity_vulnerabilities_without_fixes : Report → List Vulnerability
  unfolding find_vulnerabilities
  unknown_severity_vulnerabilities_without_fixes =
      find_vulnerabilities unknown false always_allowed ignore
