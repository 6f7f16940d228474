-- ===== src/FsGroups/Settings/Validity.antt =====
-- Which settings `validate` accepts.
use policies.Prelude.{◌≡◌, ◌≢◌, ◌↔◌, refl, List, [], ◌∷◌, true, arith, ok, All, all, is_ok, ◌≤ℤ◌}
use policies.FsGroups.Settings.{Range, Rule, must_run_as, may_run_as, run_as_any, check, validate}

abbrev pub AreProper : List Range → Type 0
AreProper ranges = (ranges ≢ []) × All (λ r. r.min ≤ℤ r.max) ranges

abbrev pub IsProperRule : Rule → Type 0
IsProperRule (must_run_as ranges) = AreProper ranges
IsProperRule (may_run_as ranges) = AreProper ranges
IsProperRule run_as_any = Unit

all-check_iff :
    (ranges : List Range)
    → (all (λ r. is_ok (check r)) ranges ≡ true) ↔ All (λ r. r.min ≤ℤ r.max) ranges
unfolding check
all-check_iff [] = (λ _. tt, λ _. refl)
all-check_iff (r ∷ ranges) = ground (arith, all-check_iff ranges)

-- The settings pass the check exactly when the list of ranges, where the rule has one, is not
-- empty and no range is inverted.
pub validate-IsProperRule_iff : (rule : Rule) → (validate rule ≡ ok tt) ↔ IsProperRule rule
unfolding validate
validate-IsProperRule_iff (must_run_as ranges) = ground (arith, all-check_iff ranges)
validate-IsProperRule_iff (may_run_as ranges) = ground (arith, all-check_iff ranges)
validate-IsProperRule_iff run_as_any = (λ _. tt, λ _. refl)
