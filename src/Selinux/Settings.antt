-- ===== src/Selinux/Settings.antt =====
-- policies/selinux-psp-policy/src/settings.rs.
pub mod Levels
pub mod Conversion
use Prim.Native.Char
use policies.Prelude.{
  from_iter, String, Bool, true, false, ◌&&◌, ◌||◌, Option, none, some, is_some, not, List, [], ◌∷◌,
  Outcome, ok, err, ◌>>=◌, contains, is_subset, split, if◌then◌else◌, ◌==◌,
}
use policies.K8s
use policies.K8s.{}

pub record SeLinuxOptionsExternal : Type 0 where
  pub user : Option String
  pub role : Option String
  pub type_ : Option String
  pub level : Option String

pub record SeLinuxLevel : Type 0 where
  pub level : String
  pub sensitivity : String
  pub categories : List String
  pub categories_hashset : List String

pub record SeLinuxOptions : Type 0 where
  pub user : Option String
  pub role : Option String
  pub type_ : Option String
  pub level : Option SeLinuxLevel

pub data ExternalSettings : Type 0 where
  must_run_as : SeLinuxOptionsExternal → ExternalSettings
  run_as_any : ExternalSettings

pub data Settings : Type 0 where
  must_run_as : SeLinuxOptions → Settings
  run_as_any : Settings

pub data SettingsError : Type 0 where
  nothing_provided : SettingsError

-- `SELinuxLevel::new` of the parts of the level. It never fails.
level_of_parts : String → List String → Outcome SettingsError SeLinuxLevel
unfolding from_iter
level_of_parts level (sensitivity ∷ categories ∷ []) = ok (record {
  level = level;
  sensitivity = sensitivity;
  categories = split b',' categories;
  categories_hashset = from_iter (split b',' categories);
})
level_of_parts level parts =
    ok (record { level = level; sensitivity = ""; categories = []; categories_hashset = [] })

unfoldable pub new : String → Outcome SettingsError SeLinuxLevel
unfolding level_of_parts
new level = level_of_parts level (split b':' level)

-- `PartialEq` of levels; two hash sets are equal if each holds what the other does.
unfoldable pub level_eq : SeLinuxLevel → SeLinuxLevel → Bool
level_eq a b =
    if a.level == b.level
    then true
    else a.sensitivity == b.sensitivity
      && (is_subset a.categories_hashset b.categories_hashset
          && is_subset b.categories_hashset a.categories_hashset)

level_from : Option String → Outcome SettingsError (Option SeLinuxLevel)
level_from none = ok none
level_from (some level) = do l ← new level; ok (some l)

unfoldable pub options_try_from : SeLinuxOptionsExternal → Outcome SettingsError SeLinuxOptions
unfolding level_from
options_try_from external = do
  level ← level_from external.level
  ok (record { user = external.user; role = external.role; type_ = external.type_; level = level })

unfoldable pub try_from : ExternalSettings → Outcome SettingsError Settings
try_from (must_run_as external) = do options ← options_try_from external; ok (must_run_as options)
try_from run_as_any = ok run_as_any

-- `SELinuxOptions::into`.
level_text : Option SeLinuxLevel → Option String
level_text none = none
level_text (some l) = some l.level

unfoldable pub into : SeLinuxOptions → K8s.SeLinuxOptions
unfolding level_text
into options = record {
  level = level_text options.level;
  role = options.role;
  type_ = options.type_;
  user = options.user;
}

unfoldable pub validate : ExternalSettings → Outcome SettingsError (Unit {0})
validate run_as_any = ok tt
validate (must_run_as external) =
    if not (
      is_some external.user
      || (is_some external.role || (is_some external.type_ || is_some external.level)))
    then err nothing_provided
    else (do s ← try_from (must_run_as external); ok tt)
