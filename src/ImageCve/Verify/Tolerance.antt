-- ===== src/ImageCve/Verify/Tolerance.antt =====
-- What a report must be like to be tolerated.
use policies.Prelude.{
  ◌≡◌, ◌↔◌, inl, inr, refl, ◌^◌, ◌<◌, ◌≤◌, String, true, false, ◌&&◌, Option, none, some, is_some,
  length, count, ok, all_four_iff, map_err_iff, ◌∈◌, is_empty, intersection, arith, Bool-cases,
}
use policies.Prelude.Sets.Laws.{contains-intersection, is_empty_iff}
use policies.Criteria.Settings.{BaseSettings}
use policies.Criteria.Operators.{validate_values}
use policies.Criteria.Meaning.{Meets, validate_values_iff}
use policies.ImageCve.Report.{
  Severity, critical, high, medium, low, unknown, Report, vulnerabilties_ids,
  critical_severity_vulnerabilitiest_with_fixes, critical_severity_vulnerabilities_without_fixes,
  high_severity_vulnerabilities_with_fixes, high_severity_vulnerabilities_without_fixes,
  medium_severity_vulnerabilities_with_fixes, medium_severity_vulnerabilities_without_fixes,
  low_severity_vulnerabilities_with_fixes, low_severity_vulnerabilities_without_fixes,
  unknown_severity_vulnerabilities_with_fixes, unknown_severity_vulnerabilities_without_fixes,
}
use policies.ImageCve.Settings.{
  Float, SeverityCount, MaxSeverity, is_configured, CvssScore, Settings,
}
use policies.ImageCve.Verify.{
  cves, has_violations, violation_stats, check_denied, check_cve_name, check_cvss_score,
  check_max_severity, verify_vulnerability_report, cve_name_match_failed,
}
use policies.ImageCve.Verify.Listing.{
  listed, matters, reaches, contains-vulnerabilties_ids,
  count_vulnerabilities_with_cvss_above_threshold-count,
}
use policies.ImageCve.Verify.Limits.{WithinLimit, find_violation-WithinLimit_iff}

module _ {F A O : Type 0} (float : Float F) (s : Settings F A O) (report : Report) where
  abbrev pub HasNoDenied : Type 0
  HasNoDenied = (a : String) → a ∈ s.deny_always → ¬ (a ∈ cves (listed report))

  abbrev pub HasNames : Option BaseSettings → Type 0
  HasNames none = Unit
  HasNames (some criteria) = Meets criteria (cves (listed report))

  abbrev pub HasFewScores : Option (CvssScore F) → Type 0
  HasFewScores none = Unit
  HasFewScores (some c) =
      count (λ v. matters s.allow_always s.ignore_vex_status v && reaches float c.threshold v)
        (listed report)
      ≤ c.max_count

  abbrev pub IsWithin : Option MaxSeverity → Type 0
  IsWithin none = Unit
  IsWithin (some m) =
      WithinLimit s.allow_always s.ignore_vex_status report critical m.critical
      × WithinLimit s.allow_always s.ignore_vex_status report high m.high
      × WithinLimit s.allow_always s.ignore_vex_status report medium m.medium
      × WithinLimit s.allow_always s.ignore_vex_status report low m.low
      × WithinLimit s.allow_always s.ignore_vex_status report unknown m.unknown

  abbrev pub IsTolerated : Type 0
  IsTolerated =
      HasNoDenied × HasNames s.cve_name × HasFewScores s.cvss_score × IsWithin s.max_severity

module _ {F A O : Type 0} (float : Float F) (s : Settings F A O) (report : Report) where
  has_violations_iff :
      length (listed report) < 2 ^ 32
      → (m : MaxSeverity)
      → (has_violations (violation_stats s report m) ≡ false) ↔ IsWithin float s report (some m)
  unfolding has_violations violation_stats critical_severity_vulnerabilitiest_with_fixes
      critical_severity_vulnerabilities_without_fixes high_severity_vulnerabilities_with_fixes
      high_severity_vulnerabilities_without_fixes medium_severity_vulnerabilities_with_fixes
      medium_severity_vulnerabilities_without_fixes low_severity_vulnerabilities_with_fixes
      low_severity_vulnerabilities_without_fixes unknown_severity_vulnerabilities_with_fixes
      unknown_severity_vulnerabilities_without_fixes
  has_violations_iff h m =
      let one = find_violation-WithinLimit_iff s.allow_always s.ignore_vex_status report in
      ground (
        arith,
        one critical h m.critical,
        one high h m.high,
        one medium h m.medium,
        one low h m.low,
        one unknown h m.unknown,
      )

  unlimited :
      (severity : Severity) (limit : Option SeverityCount)
      → is_some limit ≡ false
      → WithinLimit s.allow_always s.ignore_vex_status report severity limit
  unlimited severity none h = tt
  unlimited severity (some limit) h = absurd (cc h)

  not-is_configured : (m : MaxSeverity) → is_configured m ≡ false → IsWithin float s report (some m)
  unfolding is_configured
  not-is_configured m h = (
    unlimited critical m.critical (ground arith),
    unlimited high m.high (ground arith),
    unlimited medium m.medium (ground arith),
    unlimited low m.low (ground arith),
    unlimited unknown m.unknown (ground arith),
  )

module _ {F A O P : Type 0} (float : Float F) (s : Settings F A O) (report : Report) where
  check_denied_iff : (check_denied {P = P} float s report ≡ ok tt) ↔ HasNoDenied float s report
  unfolding check_denied
  check_denied_iff =
      let ids = vulnerabilties_ids report in
      let common = intersection ids s.deny_always in
      (
        λ h a m n. ground (
          arith,
          (is_empty_iff common).0 (ground arith) a,
          contains-intersection ids s.deny_always a,
          contains-vulnerabilties_ids report a,
        ),
        λ h.
            let empty : is_empty common ≡ true = (is_empty_iff common).1 (λ a. ground (
              arith,
              h a,
              contains-intersection ids s.deny_always a,
              contains-vulnerabilties_ids report a,
            )) in
            ground arith,
      )

  check_cve_name_iff :
      (o : Option BaseSettings)
      → (check_cve_name {P = P} float s report o ≡ ok tt) ↔ HasNames float s report o
  unfolding check_cve_name
  check_cve_name_iff none = (λ h. tt, λ h. refl)
  check_cve_name_iff (some criteria) =
      let read =
        map_err_iff cve_name_match_failed (validate_values criteria (cves (listed report))) in
      let meant = validate_values_iff criteria (cves (listed report)) in
      (λ h. meant.0 (read.0 h), λ h. read.1 (meant.1 h))

  check_cvss_score_iff :
      (o : Option (CvssScore F))
      → (check_cvss_score {P = P} float s report o ≡ ok tt) ↔ HasFewScores float s report o
  unfolding check_cvss_score
  check_cvss_score_iff none = (λ h. tt, λ h. refl)
  check_cvss_score_iff (some c) = ground (
    arith,
    count_vulnerabilities_with_cvss_above_threshold-count float c.threshold s.allow_always
        s.ignore_vex_status report,
  )

  check_max_severity_iff :
      length (listed report) < 2 ^ 32
      → (o : Option MaxSeverity)
      → (check_max_severity {P = P} float s report o ≡ ok tt) ↔ IsWithin float s report o
  unfolding check_max_severity
  check_max_severity_iff h none = (λ h. tt, λ h. refl)
  check_max_severity_iff h (some m) = elim (Bool-cases (is_configured m)) [
    | inl configured ↦
        let within = has_violations_iff float s report h m in
        (λ done. within.0 (ground arith), λ fits. let no_violation = within.1 fits in ground arith)
    | inr not_configured ↦
        (λ done. not-is_configured float s report m not_configured, λ fits. ground arith)
  ]

  -- A report of fewer than 2^32 vulnerabilities is tolerated exactly when none of them is denied,
  -- their names meet the criterion, at most so many of those that matter reach the threshold as
  -- the settings say, and those of each severity are within its limit: all that matter, or those
  -- without a fix. Those matter that are not always allowed, and not suppressed unless that is
  -- ignored. What the settings leave out is not asked.
  pub verify_vulnerability_report-IsTolerated_iff :
      length (listed report) < 2 ^ 32
      → (verify_vulnerability_report {P = P} float s report ≡ ok tt) ↔ IsTolerated float s report
  unfolding verify_vulnerability_report
  verify_vulnerability_report-IsTolerated_iff few =
      let steps =
        all_four_iff (check_denied {P = P} float s report)
          (check_cve_name float s report s.cve_name) (check_cvss_score float s report s.cvss_score)
          (check_max_severity float s report s.max_severity) in
      let names = check_cve_name_iff s.cve_name in
      let scores = check_cvss_score_iff s.cvss_score in
      let limits = check_max_severity_iff few s.max_severity in
      (
        λ h.
            let (a, b, c, d) = steps.0 h in
            (check_denied_iff.0 a, names.0 b, scores.0 c, limits.0 d),
        λ (a, b, c, d). steps.1 (check_denied_iff.1 a, names.1 b, scores.1 c, limits.1 d),
      )
