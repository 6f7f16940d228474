-- ===== src/PriorityClass/Validate.antt =====
-- policies/priority-class-policy/src/lib.rs and src/settings.rs.
pub mod Granted
use policies.Prelude.{
  String, Bool, true, false, not, ◌&&◌, Option, none, some, is_some, List, [], Outcome, ok, err,
  panic, ◌==◌, is_empty, contains, if◌then◌else◌,
}
use policies.K8s.{PodSpec}
use policies.Sdk.{Response, accept, reject, mutate, Extracted, pod_spec, no_pod_spec, unreadable}

pub record Settings : Type 0 where
  pub allowed_priority_classes : List String
  pub denied_priority_classes : List String
  pub default_priority_class : Option String

pub data SettingsError : Type 0 where
  both_lists no_lists empty_default : SettingsError
  default_not_allowed default_denied : String → SettingsError

validate_default : Settings → Option String → Outcome SettingsError (Unit {0})
validate_default s none = ok tt
validate_default s (some name) =
    if name == ""
    then err empty_default
    else if not (is_empty s.allowed_priority_classes)
        && not (contains s.allowed_priority_classes name)
    then err (default_not_allowed name)
    else if not (is_empty s.denied_priority_classes) && contains s.denied_priority_classes name
    then err (default_denied name)
    else ok tt

unfoldable pub validate_settings : Settings → Outcome SettingsError (Unit {0})
unfolding validate_default
validate_settings s =
    if not (is_empty s.allowed_priority_classes) && not (is_empty s.denied_priority_classes)
    then err both_lists
    else if is_empty s.allowed_priority_classes && is_empty s.denied_priority_classes
    then err no_lists
    else validate_default s s.default_priority_class

pub data PriorityError : Type 0 where
  is_denied is_not_allowed : String → PriorityError
  cannot_extract : PriorityError

-- `Mutated` with the pod that the code leaves, or `NotMutated`.
pub data PodSpecMutationState (P : Type 0) : Type 0 where
  mutated : P → PodSpecMutationState P
  not_mutated : PodSpecMutationState P

module _ {X : Type 0} (s : Settings) where
  check_class : String → Outcome PriorityError (PodSpecMutationState (PodSpec X))
  check_class name =
      if not (is_empty s.denied_priority_classes) && contains s.denied_priority_classes name
      then err (is_denied name)
      else if not (is_empty s.allowed_priority_classes)
          && not (contains s.allowed_priority_classes name)
      then err (is_not_allowed name)
      else ok not_mutated

  by_class :
      PodSpec X
      → Option String
      → Option String
      → Outcome PriorityError (PodSpecMutationState (PodSpec X))
  unfolding check_class
  by_class p none none = ok not_mutated
  by_class p none (some name) = ok (mutated (record p { priority_class_name = some name }))
  by_class p (some name) default_class = check_class name

  unfoldable pub validate_pod_priority_class :
      PodSpec X → Outcome PriorityError (PodSpecMutationState (PodSpec X))
  unfolding by_class
  validate_pod_priority_class p = by_class p p.priority_class_name s.default_priority_class

  answer :
      Outcome PriorityError (PodSpecMutationState (PodSpec X))
      → Option (Response PriorityError (PodSpec X))
  answer (ok not_mutated) = some accept
  answer (ok (mutated p)) = some (mutate p)
  answer (err e) = some (reject e)
  answer panic = none

  -- The result `none` is a panic.
  unfoldable pub validate : Extracted (PodSpec X) → Option (Response PriorityError (PodSpec X))
  unfolding answer
  validate (pod_spec p) = answer (validate_pod_priority_class p)
  validate no_pod_spec = some accept
  validate unreadable = some (reject cannot_extract)
