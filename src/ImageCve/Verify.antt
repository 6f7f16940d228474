-- ===== src/ImageCve/Verify.antt =====
-- policies/image-cve-policy/src/errors.rs, and of src/lib.rs verify_vulnerability_report with what it
-- calls: a report against the settings.
pub mod Listing
pub mod Limits
pub mod Tolerance
pub mod Totality
use policies.Prelude.{
  ℕ, ◌+◌, ◌%◌, ◌^◌, ltb, String, Bool, true, false, not, ◌&&◌, ◌||◌, Option, none, some, is_some,
  List, [], ◌∷◌, ◌++◌, map, length, Outcome, ok, err, panic, ◌>>=◌, ◌>>◌, map_err, is_empty,
  contains, retain, intersection, difference, from_iter, get, if◌then◌else◌, or_else,
}
use policies.Criteria.Settings.{BaseSettings}
use policies.Criteria.Operators.{CriteriaError, validate_values}
use policies.ImageCve.Report
use policies.ImageCve.Report.{
  Severity, Cvss, Vulnerability, ScanResult, vulnerabilties_ids,
  critical_severity_vulnerabilitiest_with_fixes, critical_severity_vulnerabilities_without_fixes,
  high_severity_vulnerabilities_with_fixes, high_severity_vulnerabilities_without_fixes,
  medium_severity_vulnerabilities_with_fixes, medium_severity_vulnerabilities_without_fixes,
  low_severity_vulnerabilities_with_fixes, low_severity_vulnerabilities_without_fixes,
  unknown_severity_vulnerabilities_with_fixes, unknown_severity_vulnerabilities_without_fixes,
}
use policies.ImageCve.Settings.{
  Float, SeverityCount, total, total_without_fixes, MaxSeverity, is_configured, CvssScore, Settings,
}

pub record Violation : Type 0 where
  pub allowed : SeverityCount
  pub actual : ℕ
  pub vulnerabilities : List String

pub record CveViolationStats : Type 0 where
  pub critical : Option Violation
  pub high : Option Violation
  pub medium : Option Violation
  pub low : Option Violation
  pub unknown : Option Violation

unfoldable pub has_violations : CveViolationStats → Bool
has_violations s =
    is_some s.critical
    || (is_some s.high || (is_some s.medium || (is_some s.low || is_some s.unknown)))

-- What the texts of a failed fetch tell: the error of the host, or the platform that is not found.
pub data FetchFailure (P : Type 0) : Type 0 where
  host_error : String → FetchFailure P
  no_manifest_for : P → FetchFailure P

pub data ImageValidationError (F P : Type 0) : Type 0 where
  cvss_score_threshold_exceeded : F → ℕ → ℕ → ImageValidationError F P
  max_severity_exceeded : CveViolationStats → ImageValidationError F P
  affected_by_denied_cve : List String → ImageValidationError F P
  vulnerability_report_not_found : ImageValidationError F P
  manifest_fetch_error : FetchFailure P → ImageValidationError F P
  malformed_image_name : String → ImageValidationError F P
  cve_name_match_failed : CriteriaError → ImageValidationError F P

-- `as u32`, and a sum that wraps around.
unfoldable pub as_u32 : ℕ → ℕ
as_u32 n = n % 2 ^ 32

abbrev pub cves : List Vulnerability → List String
cves vs = map (λ v. v.cve) vs

unfoldable pub find_violation :
    Option SeverityCount → List Vulnerability → List Vulnerability → Option Violation
unfolding as_u32
find_violation none with_fixes without_fixes = none
find_violation (some (total max)) with_fixes without_fixes =
    let found = as_u32 (as_u32 (length with_fixes) + as_u32 (length without_fixes)) in
    let ids_with_fix = from_iter (cves with_fixes) in
    let ids_without_fix = from_iter (cves without_fixes) in
    if ltb max found
    then some (record {
      allowed = total max;
      actual = found;
      vulnerabilities = ids_without_fix ++ difference ids_with_fix ids_without_fix;
    })
    else none
find_violation (some (total_without_fixes max)) with_fixes without_fixes =
    if ltb max (as_u32 (length without_fixes))
    then some (record {
      allowed = total_without_fixes max;
      actual = as_u32 (length without_fixes);
      vulnerabilities = cves without_fixes;
    })
    else none

first_value : List (String × Cvss) → Option Cvss
first_value [] = none
first_value (e ∷ es) = some e.1

-- The entry whose score counts.
unfoldable pub preferred : List (String × Cvss) → Option Cvss
unfolding first_value
preferred cvss = or_else (get "nvd" cvss) (
    or_else (get "redhat" cvss)
      (or_else (get "ghsa" cvss) (or_else (get "bitnami" cvss) (first_value cvss))))

-- `flat_map`.
unfoldable pub all_vulnerabilities : List ScanResult → List Vulnerability
all_vulnerabilities [] = []
all_vulnerabilities (r ∷ rs) = r.vulnerabilities ++ all_vulnerabilities rs

module _ {F : Type 0} (float : Float F) where
  score_of : Option Cvss → Option F
  score_of none = none
  score_of (some c) = float.parse c.v3_score

  unfoldable pub score : Vulnerability → Option F
  unfolding score_of
  score v = elim v.cvss [ none ↦ none | some cvss ↦ score_of (preferred cvss) ]

  scores : List Vulnerability → List F
  scores [] = []
  scores (v ∷ vs) = elim (score v) [ none ↦ scores vs | some f ↦ f ∷ scores vs ]

  -- `ignore` is `ignore_vex_status`.
  unfoldable pub count_vulnerabilities_with_cvss_above_threshold :
      Report.Report → F → List String → Bool → ℕ
  unfolding scores
  count_vulnerabilities_with_cvss_above_threshold report threshold always_allowed ignore = length (
      retain (λ f. float.ge f threshold)
        (scores (
          retain (λ v. not (contains always_allowed v.cve) && (ignore || not v.suppressed))
            (all_vulnerabilities report.results))))

module _ {F A O : Type 0} (s : Settings F A O) (report : Report.Report) where
  violation_stats : MaxSeverity → CveViolationStats
  violation_stats m = record {
    critical =
        find_violation m.critical
          (critical_severity_vulnerabilitiest_with_fixes s.allow_always s.ignore_vex_status report)
          (critical_severity_vulnerabilities_without_fixes s.allow_always s.ignore_vex_status
            report);
    high =
        find_violation m.high
          (high_severity_vulnerabilities_with_fixes s.allow_always s.ignore_vex_status report)
          (high_severity_vulnerabilities_without_fixes s.allow_always s.ignore_vex_status report);
    medium =
        find_violation m.medium
          (medium_severity_vulnerabilities_with_fixes s.allow_always s.ignore_vex_status report)
          (medium_severity_vulnerabilities_without_fixes s.allow_always s.ignore_vex_status report);
    low =
        find_violation m.low
          (low_severity_vulnerabilities_with_fixes s.allow_always s.ignore_vex_status report)
          (low_severity_vulnerabilities_without_fixes s.allow_always s.ignore_vex_status report);
    unknown =
        find_violation m.unknown
          (unknown_severity_vulnerabilities_with_fixes s.allow_always s.ignore_vex_status report)
          (unknown_severity_vulnerabilities_without_fixes s.allow_always s.ignore_vex_status
            report);
  }

module _ {F A O P : Type 0} (float : Float F) (s : Settings F A O) (report : Report.Report) where
  check_denied : Outcome (ImageValidationError F P) (Unit {0})
  check_denied =
      let denied = intersection (vulnerabilties_ids report) s.deny_always in
      if is_empty denied then ok tt else err (affected_by_denied_cve denied)

  check_cve_name : Option BaseSettings → Outcome (ImageValidationError F P) (Unit {0})
  check_cve_name none = ok tt
  check_cve_name (some criteria) =
      map_err cve_name_match_failed
        (validate_values criteria (cves (all_vulnerabilities report.results)))

  check_cvss_score : Option (CvssScore F) → Outcome (ImageValidationError F P) (Unit {0})
  check_cvss_score none = ok tt
  check_cvss_score (some c) =
      let count =
        count_vulnerabilities_with_cvss_above_threshold float report c.threshold s.allow_always
          s.ignore_vex_status in
      if ltb c.max_count count
      then err (cvss_score_threshold_exceeded c.threshold c.max_count count)
      else ok tt

  check_max_severity : Option MaxSeverity → Outcome (ImageValidationError F P) (Unit {0})
  unfolding violation_stats
  check_max_severity none = ok tt
  check_max_severity (some m) =
      if is_configured m
      then if has_violations (violation_stats s report m)
        then err (max_severity_exceeded (violation_stats s report m))
        else ok tt
      else ok tt

  unfoldable pub verify_vulnerability_report : Outcome (ImageValidationError F P) (Unit {0})
  unfolding check_denied check_cve_name check_cvss_score check_max_severity
  verify_vulnerability_report =
      check_denied
      >> (check_cve_name s.cve_name
          >> (check_cvss_score s.cvss_score >> check_max_severity s.max_severity))
