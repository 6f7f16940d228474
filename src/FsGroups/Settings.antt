-- ===== src/FsGroups/Settings.antt =====
-- policies/allowed-fsgroups-psp-policy/src/settings.rs.
pub mod Validity
use policies.Prelude.{
  ℤ, Bool, not, List, Outcome, ok, err, leb_ℤ, is_ok, is_empty, all, if◌then◌else◌,
}

pub record Range : Type 0 where
  pub min : ℤ
  pub max : ℤ

pub data SettingsError : Type 0 where
  min_above_max no_range invalid_ranges : SettingsError

unfoldable pub check : Range → Outcome SettingsError (Unit {0})
check r = if not (leb_ℤ r.min r.max) then err min_above_max else ok tt

-- The lists stand in the record Ranges in the source.
pub data Rule : Type 0 where
  must_run_as may_run_as : List Range → Rule
  run_as_any : Rule

check_ranges : List Range → Outcome SettingsError (Unit {0})
check_ranges ranges =
    if is_empty ranges
    then err no_range
    else if not (all (λ r. is_ok (check r)) ranges)
    then err invalid_ranges
    else ok tt

-- The settings are their rule.
unfoldable pub validate : Rule → Outcome SettingsError (Unit {0})
unfolding check_ranges check
validate (must_run_as ranges) = check_ranges ranges
validate (may_run_as ranges) = check_ranges ranges
validate run_as_any = ok tt
