-- ===== src/Criteria/Settings.antt =====
-- policies/crates/criteria_policy_base/src/settings.rs.
use policies.Prelude.{String, List, Outcome, ok, err, is_empty, if◌then◌else◌}

pub data BaseSettings : Type 0 where
  contains_any_of does_not_contain_any_of contains_all_of : List String → BaseSettings
  does_not_contain_all_of contains_other_than : List String → BaseSettings
  does_not_contain_other_than : List String → BaseSettings

unfoldable pub values : BaseSettings → List String
values (contains_all_of vs) = vs
values (does_not_contain_all_of vs) = vs
values (contains_any_of vs) = vs
values (does_not_contain_any_of vs) = vs
values (contains_other_than vs) = vs
values (does_not_contain_other_than vs) = vs

pub data SettingsError : Type 0 where
  empty_list_not_allowed : SettingsError

unfoldable pub validate : BaseSettings → Outcome SettingsError (Unit {0})
unfolding values
validate s = if is_empty (values s) then err empty_list_not_allowed else ok tt
