-- ===== src/UserGroup/Settings.antt =====
-- policies/user-group-psp-policy/src/settings.rs. An error is a constructor with the values that
-- its message prints.
pub mod Ranges
pub mod Validity
use policies.Prelude.{
  ℤ, String, Bool, true, false, not, ◌&&◌, ◌||◌, List, [], ◌∷◌, leb_ℤ, if◌then◌else◌, is_empty,
  is_ok, Outcome, ok, err, panic, ◌>>=◌, ◌>>◌,
}

-- Called IDRange in the source.
pub record IdRange : Type 0 where
  pub min : ℤ
  pub max : ℤ

pub data Rule : Type 0 where
  must_run_as may_run_as run_as_any must_run_as_non_root : Rule

pub record RuleStrategy : Type 0 where
  pub rule : Rule
  pub ranges : List IdRange
  pub overwrite : Bool

pub record Settings : Type 0 where
  pub run_as_user : RuleStrategy
  pub run_as_group : RuleStrategy
  pub supplemental_groups : RuleStrategy
  pub validate_container_image_configuration : Bool
  pub validate_only : Bool

pub data SettingsError : Type 0 where
  min_above_max : SettingsError
  invalid_id_range : List IdRange → SettingsError
  cannot_set_overwrite : Rule → SettingsError
  missing_user_id_range : SettingsError
  missing_id_range : String → SettingsError
  invalid_rule : String → SettingsError
  with_prefix : String → SettingsError → SettingsError
  validation_mode_overwrite : SettingsError

is_valid_id_in : List IdRange → ℤ → Bool
is_valid_id_in [] id = false
is_valid_id_in (range ∷ ranges) id =
    let rest = is_valid_id_in ranges id in
    if leb_ℤ range.min id && leb_ℤ id range.max then true else rest

unfoldable pub is_valid_id : RuleStrategy → ℤ → Bool
unfolding is_valid_id_in
is_valid_id s id = is_valid_id_in s.ranges id

range_min_less_than_max : IdRange → Outcome SettingsError (Unit {0})
range_min_less_than_max r = if leb_ℤ r.min r.max then ok tt else err min_above_max

is_valid : IdRange → Outcome SettingsError (Unit {0})
unfolding range_min_less_than_max
is_valid r = do range_min_less_than_max r; ok tt

-- The `filter` of `valid_ranges`.
violations : List IdRange → List IdRange
violations [] = []
violations (r ∷ ranges) =
    let rest = violations ranges in if not (is_ok (is_valid r)) then r ∷ rest else rest

valid_ranges : List IdRange → Outcome SettingsError (Unit {0})
valid_ranges ranges =
    if is_empty (violations ranges) then ok tt else err (invalid_id_range (violations ranges))

abbrev map_err : String → Outcome SettingsError (Unit {0}) → Outcome SettingsError (Unit {0})
map_err prefix (ok u) = ok u
map_err prefix (err e) = err (with_prefix prefix e)
map_err prefix panic = panic

unfoldable pub valid_user_rule_settings :
    Rule → List IdRange → Bool → Outcome SettingsError (Unit {0})
unfolding valid_ranges violations is_valid
valid_user_rule_settings must_run_as ranges overwrite =
    if is_empty ranges
    then err missing_user_id_range
    else map_err "Invalid run_as_user settings" (valid_ranges ranges)
valid_user_rule_settings may_run_as ranges overwrite =
    err (invalid_rule "Invalid run_as_user settings")
valid_user_rule_settings rule ranges overwrite =
    if overwrite then err (cannot_set_overwrite rule) else ok tt

valid_group_ranges : List IdRange → String → Outcome SettingsError (Unit {0})
valid_group_ranges ranges prefix =
    if is_empty ranges then err (missing_id_range prefix) else map_err prefix (valid_ranges ranges)

unfoldable pub valid_group_rule_settings :
    Rule → List IdRange → Bool → String → Outcome SettingsError (Unit {0})
unfolding valid_group_ranges valid_ranges violations is_valid
valid_group_rule_settings may_run_as ranges true prefix = err (cannot_set_overwrite may_run_as)
valid_group_rule_settings run_as_any ranges true prefix = err (cannot_set_overwrite run_as_any)
valid_group_rule_settings run_as_any ranges false prefix = ok tt
valid_group_rule_settings must_run_as ranges overwrite prefix = valid_group_ranges ranges prefix
valid_group_rule_settings may_run_as ranges false prefix = valid_group_ranges ranges prefix
valid_group_rule_settings must_run_as_non_root ranges overwrite prefix = err (invalid_rule prefix)

unfoldable pub validate : Settings → Outcome SettingsError (Unit {0})
validate s = do
  valid_user_rule_settings s.run_as_user.rule s.run_as_user.ranges s.run_as_user.overwrite
  valid_group_rule_settings s.run_as_group.rule s.run_as_group.ranges s.run_as_group.overwrite
      "Invalid run_as_group settings"
  valid_group_rule_settings s.supplemental_groups.rule s.supplemental_groups.ranges
      s.supplemental_groups.overwrite "Invalid supplemental_groups settings"
  if s.validate_only
        && (s.run_as_user.overwrite || s.run_as_group.overwrite || s.supplemental_groups.overwrite)
      then err validation_mode_overwrite
      else ok tt
