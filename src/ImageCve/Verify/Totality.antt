-- ===== src/ImageCve/Verify/Totality.antt =====
-- A report is checked without a panic.
use policies.Prelude.{◌≡◌, Option, none, some, panic, >>-ne-panic, arith}
use policies.Criteria.Settings.{BaseSettings}
use policies.Criteria.Meaning.{validate_values-ne-panic}
use policies.ImageCve.Report.{Report}
use policies.ImageCve.Settings.{Float, MaxSeverity, CvssScore, Settings}
use policies.ImageCve.Verify.{
  cves, all_vulnerabilities, check_denied, check_cve_name, check_cvss_score, check_max_severity,
  verify_vulnerability_report,
}

module _ {F A O P : Type 0} (float : Float F) (s : Settings F A O) (report : Report) where
  check_denied-ne-panic : ¬ (check_denied {P = P} float s report ≡ panic)
  unfolding check_denied
  check_denied-ne-panic h = ground arith

  check_cve_name-ne-panic :
      (o : Option BaseSettings) → ¬ (check_cve_name {P = P} float s report o ≡ panic)
  unfolding check_cve_name
  check_cve_name-ne-panic none h = cc
  check_cve_name-ne-panic (some criteria) h =
      ground (arith, validate_values-ne-panic criteria (cves (all_vulnerabilities report.results)))

  check_cvss_score-ne-panic :
      (o : Option (CvssScore F)) → ¬ (check_cvss_score {P = P} float s report o ≡ panic)
  unfolding check_cvss_score
  check_cvss_score-ne-panic none h = cc
  check_cvss_score-ne-panic (some c) h = ground arith

  check_max_severity-ne-panic :
      (o : Option MaxSeverity) → ¬ (check_max_severity {P = P} float s report o ≡ panic)
  unfolding check_max_severity
  check_max_severity-ne-panic none h = cc
  check_max_severity-ne-panic (some m) h = ground arith

  pub verify_vulnerability_report-ne-panic :
      ¬ (verify_vulnerability_report {P = P} float s report ≡ panic)
  unfolding verify_vulnerability_report
  verify_vulnerability_report-ne-panic = >>-ne-panic _ _ check_denied-ne-panic (
      >>-ne-panic _ _ (check_cve_name-ne-panic s.cve_name) (
        >>-ne-panic _ _ (check_cvss_score-ne-panic s.cvss_score)
          (check_max_severity-ne-panic s.max_severity)))
