-- ===== src/TrustedRepos/Settings.antt =====
-- policies/trusted-repos-policy/src/settings.rs.
pub mod Validity
use policies.Prelude.{
  String, Bool, true, false, ◌&&◌, not, ◌==◌, Option, none, some, List, [], ◌∷◌, ◌++◌, Outcome, ok,
  err, panic, is_empty, if◌then◌else◌, ◌+++◌, is_some,
}
use policies.TrustedRepos.Matchers.{Oci, StringMatcher, exact, pattern_, raw, ImageMatcher}

pub record Registries (W : Type 0) : Type 0 where
  pub allow : List (StringMatcher W)
  pub reject : List (StringMatcher W)

pub record Tags (W : Type 0) : Type 0 where
  pub reject : List (StringMatcher W)

pub record Images (R W : Type 0) : Type 0 where
  pub allow : List (ImageMatcher R W)
  pub reject : List (ImageMatcher R W)

pub record Settings (R W : Type 0) : Type 0 where
  pub registries : Registries W
  pub tags : Tags W
  pub images : Images R W

pub data SettingsError : Type 0 where
  registries_allow_and_reject images_allow_and_reject : SettingsError
  invalid_tags : List String → SettingsError

-- `Result::err`.
error_of : Outcome SettingsError (Unit {0}) → List SettingsError
error_of (err e) = e ∷ []
error_of r = []

module _ {R W : Type 0} (oci : Oci R) where
  unfoldable pub validate_registries : Registries W → Outcome SettingsError (Unit {0})
  validate_registries r =
      if not (is_empty r.allow) && not (is_empty r.reject)
      then err registries_allow_and_reject
      else ok tt

  is_invalid_tag : StringMatcher W → Bool
  is_invalid_tag (exact t) = not (is_some (oci.from_str ("hello:" +++ t)))
  is_invalid_tag (pattern_ w r) = r == ""

  tags_not_valid : List (StringMatcher W) → List String
  tags_not_valid [] = []
  tags_not_valid (m ∷ ms) =
      let rest = tags_not_valid ms in if is_invalid_tag m then raw m ∷ rest else rest

  unfoldable pub validate_tags : Tags W → Outcome SettingsError (Unit {0})
  unfolding tags_not_valid is_invalid_tag
  validate_tags t =
      if not (is_empty (tags_not_valid t.reject))
      then err (invalid_tags (tags_not_valid t.reject))
      else ok tt

  unfoldable pub validate_images : Images R W → Outcome SettingsError (Unit {0})
  validate_images i =
      if not (is_empty i.allow) && not (is_empty i.reject)
      then err images_allow_and_reject
      else ok tt

  unfoldable pub validate : Settings R W → Outcome (List SettingsError) (Unit {0})
  unfolding error_of
  validate s =
      let errors =
        error_of (validate_registries s.registries)
        ++ (error_of (validate_images s.images) ++ error_of (validate_tags s.tags)) in
      if not (is_empty errors) then err errors else ok tt
