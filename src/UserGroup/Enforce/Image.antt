-- ===== src/UserGroup/Enforce/Image.antt =====
-- The user and the group of an image configuration.
use policies.Prelude.{◌≢◌, Option, none, some, List, [], ◌∷◌, arith, panic, String}
use policies.Prelude.Text.Split.{split-cons}
use policies.UserGroup.Enforce.{
  ImageConfiguration, get_user_group_uid_from_image_configuration, user_group_of_config,
  user_group_of, group_of,
}

user_group_of-ne-panic :
    (part : String) (parts : List String) → user_group_of (part ∷ parts) ≢ panic
unfolding user_group_of group_of
user_group_of-ne-panic part [] h = ground arith
user_group_of-ne-panic part (group ∷ []) h = ground arith
user_group_of-ne-panic part (group ∷ next ∷ more) h = ground arith

pub get_user_group_uid-ne-panic :
    (config : Option ImageConfiguration)
    → get_user_group_uid_from_image_configuration config ≢ panic
unfolding get_user_group_uid_from_image_configuration
get_user_group_uid-ne-panic none h = cc
get_user_group_uid-ne-panic (some config) h = by_user config.user h
  where
    by_user : (user : Option String) → user_group_of_config user ≢ panic
    by_user none h = cc
    by_user (some user) h =
        let (part, parts, e) = split-cons b':' user in user_group_of-ne-panic part parts (rw e at h)
