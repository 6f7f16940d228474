-- ===== src/ImageCve/Verify/Limits.antt =====
-- The limits of one severity: find_violation counts without an overflow.
use policies.Prelude.{
  ◌≡◌, ◌↔◌, inl, inr, refl, ℕ, ◌+◌, ◌^◌, ◌<◌, ◌≤◌, String, Bool, true, false, not, ◌&&◌, ◌||◌,
  Option, none, some, is_some, List, ◌++◌, length, count, count_le_length, contains, difference,
  from_iter, arith, Bool-cases, ltb, if◌then◌else◌,
}
use policies.Prelude.Sets.Laws.{contains-append, contains-difference, contains-from_iter}
use policies.ImageCve.Report.{Severity, Vulnerability, Report, has_fix, find_vulnerabilities}
use policies.ImageCve.Settings.{SeverityCount, total, total_without_fixes}
use policies.ImageCve.Verify.{Violation, as_u32, cves, find_violation}
use policies.ImageCve.Verify.Listing.{
  listed, of_severity, length-find_vulnerabilities_both, length-find_vulnerabilities_without,
}

abbrev pub counted : SeverityCount → List Vulnerability → List Vulnerability → ℕ
counted (total max) with_fixes without_fixes = length with_fixes + length without_fixes
counted (total_without_fixes max) with_fixes without_fixes = length without_fixes

abbrev pub maximum : SeverityCount → ℕ
maximum (total max) = max
maximum (total_without_fixes max) = max

-- The identifiers of what is counted.
abbrev pub is_counted : SeverityCount → List Vulnerability → List Vulnerability → String → Bool
is_counted (total max) with_fixes without_fixes a =
    contains (cves with_fixes) a || contains (cves without_fixes) a
is_counted (total_without_fixes max) with_fixes without_fixes a = contains (cves without_fixes) a

abbrev pub Tells :
    SeverityCount → List Vulnerability → List Vulnerability → Option Violation → Type 0
Tells limit with_fixes without_fixes none = counted limit with_fixes without_fixes ≤ maximum limit
Tells limit with_fixes without_fixes (some v) =
    (v.allowed ≡ limit)
    × (v.actual ≡ counted limit with_fixes without_fixes)
    × (maximum limit < v.actual)
    × ((a : String) → contains v.vulnerabilities a ≡ is_counted limit with_fixes without_fixes a)

as_u32_small : (n : ℕ) → n < 2 ^ 32 → as_u32 n ≡ n
unfolding as_u32
as_u32_small n h = omega arith

contains-union :
    (xs ys : List String) (a : String)
    → contains (from_iter ys ++ difference (from_iter xs) (from_iter ys)) a
      ≡ (contains xs a || contains ys a)
contains-union xs ys a = ground (
  arith,
  contains-append (from_iter ys) (difference (from_iter xs) (from_iter ys)) a,
  contains-difference (from_iter xs) (from_iter ys) a,
  contains-from_iter xs a,
  contains-from_iter ys a,
)

module _ (limit : SeverityCount) (with_fixes without_fixes : List Vulnerability) where
  decides_found :
      (found : ℕ) (ids : List String)
      → found ≡ counted limit with_fixes without_fixes
      → ((a : String) → contains ids a ≡ is_counted limit with_fixes without_fixes a)
      → Tells limit with_fixes without_fixes (
          if ltb (maximum limit) found
          then some (record { allowed = limit; actual = found; vulnerabilities = ids })
          else none)
  decides_found found ids same members = elim (Bool-cases (ltb (maximum limit) found)) [
    | inl over ↦ rw over (refl, same, ground arith, members)
    | inr under ↦ rw under (ground arith)
  ]

-- Where both lists together have fewer than 2^32 vulnerabilities, a violation is found exactly when
-- those that the limit counts are more than its maximum: all of them, or those without a fix. It
-- tells the limit, their true number, and exactly their identifiers.
pub find_violation-Tells :
    (limit : SeverityCount) (with_fixes without_fixes : List Vulnerability)
    → length with_fixes + length without_fixes < 2 ^ 32
    → Tells limit with_fixes without_fixes (find_violation (some limit) with_fixes without_fixes)
unfolding find_violation
find_violation-Tells (total max) with_fixes without_fixes h =
    decides_found (total max) with_fixes without_fixes
      (as_u32 (as_u32 (length with_fixes) + as_u32 (length without_fixes)))
      (from_iter (cves without_fixes)
        ++ difference (from_iter (cves with_fixes)) (from_iter (cves without_fixes)))
      (ground (
        arith,
        as_u32_small (length with_fixes),
        as_u32_small (length without_fixes),
        as_u32_small (length with_fixes + length without_fixes),
      ))
      (contains-union (cves with_fixes) (cves without_fixes))
find_violation-Tells (total_without_fixes max) with_fixes without_fixes h =
    decides_found (total_without_fixes max) with_fixes without_fixes (as_u32 (length without_fixes))
      (cves without_fixes) (ground (arith, as_u32_small (length without_fixes))) (λ a. refl)

find_violation-none :
    (with_fixes without_fixes : List Vulnerability)
    → is_some (find_violation none with_fixes without_fixes) ≡ false
unfolding find_violation
find_violation-none with_fixes without_fixes = refl

-- What a limit asks of the vulnerabilities of one severity.
abbrev pub WithinLimit : List String → Bool → Report → Severity → Option SeverityCount → Type 0
WithinLimit allowed ignore report severity none = Unit
WithinLimit allowed ignore report severity (some (total max)) =
    count (of_severity severity allowed ignore) (listed report) ≤ max
WithinLimit allowed ignore report severity (some (total_without_fixes max)) =
    count (λ v. of_severity severity allowed ignore v && not (has_fix v)) (listed report) ≤ max

module _ (allowed : List String) (ignore : Bool) (report : Report) (severity : Severity) where
  found : Bool → List Vulnerability
  found with_fix = find_vulnerabilities severity with_fix allowed ignore report

  few : length (listed report) < 2 ^ 32 → length (found true) + length (found false) < 2 ^ 32
  unfolding found
  few h = ground (
    arith,
    length-find_vulnerabilities_both severity allowed ignore report,
    count_le_length (of_severity severity allowed ignore) (listed report),
  )

  decides_within :
      (limit : SeverityCount) (o : Option Violation)
      → Tells limit (found true) (found false) o
      → (is_some o ≡ false) ↔ WithinLimit allowed ignore report severity (some limit)
  unfolding found
  decides_within (total max) none t =
      ground (arith, length-find_vulnerabilities_both severity allowed ignore report)
  decides_within (total max) (some v) t =
      ground (arith, length-find_vulnerabilities_both severity allowed ignore report)
  decides_within (total_without_fixes max) none t =
      ground (arith, length-find_vulnerabilities_without severity allowed ignore report)
  decides_within (total_without_fixes max) (some v) t =
      ground (arith, length-find_vulnerabilities_without severity allowed ignore report)

  pub find_violation-WithinLimit_iff :
      length (listed report) < 2 ^ 32
      → (limit : Option SeverityCount)
      → (is_some (
            find_violation limit
              (find_vulnerabilities severity true allowed ignore report)
              (find_vulnerabilities severity false allowed ignore report))
          ≡ false)
        ↔ WithinLimit allowed ignore report severity limit
  unfolding found
  find_violation-WithinLimit_iff h none =
      (λ same. tt, λ within. find_violation-none (found true) (found false))
  find_violation-WithinLimit_iff h (some limit) =
      decides_within limit (find_violation (some limit) (found true) (found false))
        (find_violation-Tells limit (found true) (found false) (few h))
