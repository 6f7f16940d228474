-- ===== src/Seccomp/Settings.antt =====
-- policies/seccomp-psp-policy/src/settings.rs.
pub mod Validity
use policies.Prelude.{
  String, not, ◌&&◌, List, [], ◌∷◌, Outcome, ok, err, contains, is_empty, if◌then◌else◌, ◌==◌,
}

pub record Settings : Type 0 where
  pub allowed_profiles : List String
  pub profile_types : List String
  pub localhost_profiles : List String

pub data SettingsError : Type 0 where
  invalid_profile_type : String → SettingsError
  localhost_requires_profiles : SettingsError

abbrev pub allowed_profile_types : List String
allowed_profile_types = "Localhost" ∷ "RuntimeDefault" ∷ "Unconfined" ∷ []

check_types : Settings → List String → Outcome SettingsError (Unit {0})
check_types s [] = ok tt
check_types s (profile_type ∷ types) =
    let rest = check_types s types in
    if not (contains allowed_profile_types profile_type)
    then err (invalid_profile_type profile_type)
    else if profile_type == "Localhost" && is_empty s.localhost_profiles
    then err localhost_requires_profiles
    else rest

unfoldable pub validate : Settings → Outcome SettingsError (Unit {0})
unfolding check_types
validate s = check_types s s.profile_types
