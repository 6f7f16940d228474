-- ===== src/ImageCve/Verify/Listing.antt =====
-- The vulnerabilities of a report as one list, of which the code's filters count some.
use policies.Prelude.{
  ◌≡◌, refl, inl, inr, ◌+◌, String, Bool, true, false, not, ◌&&◌, ◌||◌, none, some, List, [], ◌∷◌,
  ◌++◌, length, count, count-append, contains, retain, insert, arith, Option-cases,
}
use policies.Prelude.Sets.Laws.{contains-insert}
use policies.ImageCve.Report.{
  Severity, Vulnerability, ScanResult, Report, has_fix, same_severity, vulnerabilties_ids,
  insert_ids, insert_results, find_vulnerabilities, find_in, find_in_results, is_found,
}
use policies.ImageCve.Settings.{Float}
use policies.ImageCve.Verify.{
  all_vulnerabilities, cves, score, scores, count_vulnerabilities_with_cvss_above_threshold,
}

-- All that a report lists.
abbrev pub listed : Report → List Vulnerability
listed report = all_vulnerabilities report.results

-- Not allowed always, and not suppressed unless that is ignored.
abbrev pub matters : List String → Bool → Vulnerability → Bool
matters always_allowed ignore v =
    not (contains always_allowed v.cve) && (ignore || not v.suppressed)

abbrev pub of_severity : Severity → List String → Bool → Vulnerability → Bool
of_severity severity always_allowed ignore v =
    matters always_allowed ignore v && same_severity v.severity severity

abbrev pub reaches : {F : Type 0} → Float F → F → Vulnerability → Bool
reaches float threshold v = elim (score float v) [ none ↦ false | some f ↦ float.ge f threshold ]

module _ (severity : Severity) (with_fix : Bool) (allowed : List String) (ignore : Bool) where
  length-find_in :
      (vs rest : List Vulnerability)
      → length (find_in severity with_fix allowed ignore vs rest)
        ≡ count (is_found severity with_fix allowed ignore) vs + length rest
  unfolding find_in count
  length-find_in [] rest = omega arith
  length-find_in (v ∷ vs) rest = ground (arith, length-find_in vs rest)

  length-find_in_results :
      (rs : List ScanResult)
      → length (find_in_results severity with_fix allowed ignore rs)
        ≡ count (is_found severity with_fix allowed ignore) (all_vulnerabilities rs)
  unfolding find_in_results all_vulnerabilities count
  length-find_in_results [] = refl
  length-find_in_results (r ∷ rs) = ground (
    arith,
    length-find_in r.vulnerabilities (find_in_results severity with_fix allowed ignore rs),
    length-find_in_results rs,
    count-append (is_found severity with_fix allowed ignore) r.vulnerabilities
        (all_vulnerabilities rs),
  )

pub count_both :
    (severity : Severity) (allowed : List String) (ignore : Bool) (vs : List Vulnerability)
    → count (is_found severity true allowed ignore) vs
        + count (is_found severity false allowed ignore) vs
      ≡ count (of_severity severity allowed ignore) vs
unfolding count is_found
count_both severity allowed ignore [] = omega arith
count_both severity allowed ignore (v ∷ vs) = ground (arith, count_both severity allowed ignore vs)

pub count_without :
    (severity : Severity) (allowed : List String) (ignore : Bool) (vs : List Vulnerability)
    → count (is_found severity false allowed ignore) vs
      ≡ count (λ v. of_severity severity allowed ignore v && not (has_fix v)) vs
unfolding count is_found
count_without severity allowed ignore [] = refl
count_without severity allowed ignore (v ∷ vs) =
    ground (arith, count_without severity allowed ignore vs)

module _ (severity : Severity) (allowed : List String) (ignore : Bool) (report : Report) where
  pub length-find_vulnerabilities_both :
      length (find_vulnerabilities severity true allowed ignore report)
        + length (find_vulnerabilities severity false allowed ignore report)
      ≡ count (of_severity severity allowed ignore) (listed report)
  unfolding find_vulnerabilities
  length-find_vulnerabilities_both = ground (
    arith,
    length-find_in_results severity true allowed ignore report.results,
    length-find_in_results severity false allowed ignore report.results,
    count_both severity allowed ignore (listed report),
  )

  pub length-find_vulnerabilities_without :
      length (find_vulnerabilities severity false allowed ignore report)
      ≡ count (λ v. of_severity severity allowed ignore v && not (has_fix v)) (listed report)
  unfolding find_vulnerabilities
  length-find_vulnerabilities_without = ground (
    arith,
    length-find_in_results severity false allowed ignore report.results,
    count_without severity allowed ignore (listed report),
  )

contains-insert_ids :
    (vs : List Vulnerability) (ids : List String) (a : String)
    → contains (insert_ids vs ids) a ≡ (contains (cves vs) a || contains ids a)
unfolding insert_ids
contains-insert_ids [] ids a = refl
contains-insert_ids (v ∷ vs) ids a =
    ground (arith, contains-insert_ids vs (insert v.cve ids) a, contains-insert v.cve ids a)

cves-append :
    (xs ys : List Vulnerability) (a : String)
    → contains (cves (xs ++ ys)) a ≡ (contains (cves xs) a || contains (cves ys) a)
cves-append [] ys a = refl
cves-append (x ∷ xs) ys a = ground (arith, cves-append xs ys a)

contains-insert_results :
    (rs : List ScanResult) (ids : List String) (a : String)
    → contains (insert_results rs ids) a
      ≡ (contains (cves (all_vulnerabilities rs)) a || contains ids a)
unfolding insert_results all_vulnerabilities
contains-insert_results [] ids a = refl
contains-insert_results (r ∷ rs) ids a = ground (
  arith,
  contains-insert_results rs (insert_ids r.vulnerabilities ids) a,
  contains-insert_ids r.vulnerabilities ids a,
  cves-append r.vulnerabilities (all_vulnerabilities rs) a,
)

pub contains-vulnerabilties_ids :
    (report : Report) (a : String)
    → contains (vulnerabilties_ids report) a ≡ contains (cves (listed report)) a
unfolding vulnerabilties_ids
contains-vulnerabilties_ids report a = ground (arith, contains-insert_results report.results [] a)

module _ {F : Type 0} (float : Float F) (threshold : F) (allowed : List String)
    (ignore : Bool) where
  length-scores :
      (vs : List Vulnerability)
      → length
          (retain (λ f. float.ge f threshold) (scores float (retain (matters allowed ignore) vs)))
        ≡ count (λ v. matters allowed ignore v && reaches float threshold v) vs
  unfolding scores retain count
  length-scores [] = refl
  length-scores (v ∷ vs) = elim (Option-cases (score float v)) [
    | inl without ↦ ground (arith, length-scores vs)
    | inr (f, with_) ↦ ground (arith, length-scores vs)
  ]

  pub count_vulnerabilities_with_cvss_above_threshold-count :
      (report : Report)
      → count_vulnerabilities_with_cvss_above_threshold float report threshold allowed ignore
        ≡ count (λ v. matters allowed ignore v && reaches float threshold v) (listed report)
  unfolding count_vulnerabilities_with_cvss_above_threshold
  count_vulnerabilities_with_cvss_above_threshold-count report = length-scores (listed report)
