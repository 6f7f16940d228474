-- ===== src/StorageClass/Validate.antt =====
-- policies/persistentvolumeclaim-storageclass-policy/src/lib.rs and src/settings.rs.
pub mod Allowed
use policies.Prelude.{
  String, Bool, true, false, not, ◌&&◌, ◌||◌, Option, none, some, is_some, List, [], Outcome, ok,
  err, panic, ◌>>◌, is_empty, contains, unwrap_or, if◌then◌else◌,
}
use policies.Sdk.{Response, accept, reject, mutate}

pub record PersistentVolumeClaimSpec (X : Type 0) : Type 0 where
  pub storage_class_name : Option String
  pub others : X

pub record PersistentVolumeClaim (X : Type 0) : Type 0 where
  pub spec : Option (PersistentVolumeClaimSpec X)
  pub others : X

pub record Settings : Type 0 where
  pub denied_storage_classes : Option (List String)
  pub fallback_storage_class : Option String
  pub allowed_storage_classes : Option (List String)

pub data SettingsError : Type 0 where
  one_of_denied_or_allowed_must_be_set only_one_of_denied_or_allowed_can_be_set : SettingsError
  denied_cannot_be_empty fallback_in_denied allowed_cannot_be_empty : SettingsError
  fallback_not_in_allowed : SettingsError

-- A test of the fallback class, if there is one.
fallback_test : (String → Bool) → Option String → Bool
fallback_test p none = false
fallback_test p (some fallback) = p fallback

validate_denied : Option (List String) → Option String → Outcome SettingsError (Unit {0})
unfolding fallback_test
validate_denied none fallback = ok tt
validate_denied (some denied) fallback =
    if is_empty denied
    then err denied_cannot_be_empty
    else if fallback_test (contains denied) fallback
    then err fallback_in_denied
    else ok tt

validate_allowed : Option (List String) → Option String → Outcome SettingsError (Unit {0})
unfolding fallback_test
validate_allowed none fallback = ok tt
validate_allowed (some allowed) fallback =
    if is_empty allowed
    then err allowed_cannot_be_empty
    else if fallback_test (λ c. not (contains allowed c)) fallback
    then err fallback_not_in_allowed
    else ok tt

unfoldable pub validate_settings : Settings → Outcome SettingsError (Unit {0})
unfolding validate_denied validate_allowed
validate_settings s =
    if not (is_some s.denied_storage_classes) && not (is_some s.allowed_storage_classes)
    then err one_of_denied_or_allowed_must_be_set
    else if is_some s.denied_storage_classes && is_some s.allowed_storage_classes
    then err only_one_of_denied_or_allowed_can_be_set
    else validate_denied s.denied_storage_classes s.fallback_storage_class
      >> validate_allowed s.allowed_storage_classes s.fallback_storage_class

class_of_spec : {X : Type 0} → Option (PersistentVolumeClaimSpec X) → String
class_of_spec none = ""
class_of_spec (some spec) = unwrap_or "" spec.storage_class_name

unfoldable pub storage_class_of : {X : Type 0} → PersistentVolumeClaim X → String
unfolding class_of_spec
storage_class_of pvc = class_of_spec pvc.spec

module _ {X : Type 0} (unset : X) where
  -- `default_spec` is `PersistentVolumeClaimSpec::default()`.
  abbrev default_spec : PersistentVolumeClaimSpec X
  default_spec = record { storage_class_name = none; others = unset }

  unfoldable pub mutate_pvc : PersistentVolumeClaim X → String → PersistentVolumeClaim X
  mutate_pvc pvc fallback = record pvc {
    spec = some (record (unwrap_or default_spec pvc.spec) { storage_class_name = some fallback });
  }

  -- A rejection names the class.
  unfoldable pub mutate_or_reject :
      PersistentVolumeClaim X → String → Option String → Response String (PersistentVolumeClaim X)
  mutate_or_reject pvc name (some fallback) = mutate (mutate_pvc pvc fallback)
  mutate_or_reject pvc name none = reject name

  unfoldable pub validate_allowed_classes :
      PersistentVolumeClaim X
      → String
      → List String
      → Option String
      → Response String (PersistentVolumeClaim X)
  validate_allowed_classes pvc name allowed fallback =
      if contains allowed name then accept else mutate_or_reject pvc name fallback

  unfoldable pub validate_denied_classes :
      PersistentVolumeClaim X
      → String
      → List String
      → Option String
      → Response String (PersistentVolumeClaim X)
  validate_denied_classes pvc name denied fallback =
      if contains denied name then mutate_or_reject pvc name fallback else accept

  -- The lists of the settings; `none` is the panic of `unreachable!()`.
  by_lists :
      Option (List String)
      → Option (List String)
      → PersistentVolumeClaim X
      → Option String
      → Option (Response String (PersistentVolumeClaim X))
  by_lists (some allowed) denied pvc fallback =
      some (validate_allowed_classes pvc (storage_class_of pvc) allowed fallback)
  by_lists none (some denied) pvc fallback =
      some (validate_denied_classes pvc (storage_class_of pvc) denied fallback)
  by_lists none none pvc fallback = none

  -- An object that is no claim is `none`.
  unfoldable pub validate :
      Settings
      → Option (PersistentVolumeClaim X)
      → Option (Response String (PersistentVolumeClaim X))
  unfolding by_lists
  validate s none = some accept
  validate s (some pvc) =
      by_lists s.allowed_storage_classes s.denied_storage_classes pvc s.fallback_storage_class
