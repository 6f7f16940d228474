-- ===== src/Capabilities/Settings.antt =====
-- policies/capabilities-psp-policy/src/settings.rs.
pub mod Consistency
use policies.Prelude.{
  String, Bool, not, ◌&&◌, List, Outcome, ok, err, contains, is_empty, intersection, difference,
  if◌then◌else◌, ◌>>=◌, ◌>>◌,
}

pub record Settings : Type 0 where
  pub allowed_capabilities : List String
  pub required_drop_capabilities : List String
  pub default_add_capabilities : List String

pub data SettingsError : Type 0 where
  allowed_and_dropped added_and_dropped added_and_not_allowed : List String → SettingsError

unfoldable pub allow_all_capabilities_enabled : Settings → Bool
allow_all_capabilities_enabled s = contains s.allowed_capabilities "*"

unfoldable pub validate : Settings → Outcome SettingsError (Unit {0})
validate s =
    let denied = intersection s.allowed_capabilities s.required_drop_capabilities in
    let added = intersection s.default_add_capabilities s.required_drop_capabilities in
    let extra = difference s.default_add_capabilities s.allowed_capabilities in
    if not (is_empty denied)
    then err (allowed_and_dropped denied)
    else if not (is_empty added)
    then err (added_and_dropped added)
    else if not (is_empty extra) && not (allow_all_capabilities_enabled s)
    then err (added_and_not_allowed extra)
    else ok tt
