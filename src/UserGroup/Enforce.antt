-- ===== src/UserGroup/Enforce.antt =====
-- The rules of policies/user-group-psp-policy/src/lib.rs for one security context, with the errors
-- of src/error.rs. A request is its settings here: the rules read no other part of it.
pub mod Image
pub mod Group
pub mod User
use policies.Prelude.{
  ℤ, String, Bool, true, false, not, ◌&&◌, ◌||◌, Option, none, some, List, [], ◌∷◌, map, parse_i64,
  split, is_zero, is_some, unwrap_or, if◌then◌else◌, Outcome, ok, err, panic, ◌>>=◌, ◌>>◌,
}
use policies.K8s.{PodSecurityContext, default_pod_security_context}
use policies.UserGroup.Settings.{
  IdRange, must_run_as, may_run_as, must_run_as_non_root, Rule, RuleStrategy, Settings, is_valid_id,
}
use policies.UserGroup.Context.{GenericSecurityContext}

pub data ValidationError : Type 0 where
  user_id_outside_ranges group_id_outside_ranges should_run_as_non_root : ValidationError
  cannot_use_root_user_id : ValidationError
  image_config_group_id image_config_user_id : String → ValidationError
  image_config_user_id_outside_ranges image_config_user_id_cannot_be_root : ValidationError
  image_config_group_id_outside_ranges missing_user_id missing_group_id : ValidationError
  missing_supplemental_group_id : ValidationError

-- What the policy reads of an image configuration: whether its `os` is Windows, and the `user` of
-- its `config`, none where there is no `config`.
pub record ImageConfiguration : Type 0 where
  pub is_windows : Bool
  pub user : Option String

abbrev IdPair : Type 0
IdPair = Option ℤ × Option ℤ

group_of : ℤ → String → Option ℤ → Outcome ValidationError IdPair
group_of user_id group (some group_id) = ok (some user_id, some group_id)
group_of user_id group none = err (image_config_group_id group)

user_group_of : List String → Outcome ValidationError IdPair
user_group_of [] = panic
user_group_of (user ∷ rest) = elim (parse_i64 user) [
  | none ↦ err (image_config_user_id user)
  | some user_id ↦ elim rest [
    | [] ↦ ok (some user_id, none)
    | group ∷ more ↦ elim more [
      | [] ↦ group_of user_id group (parse_i64 group)
      | _ ∷ _ ↦ ok (some user_id, none)
    ]
  ]
]

user_group_of_config : Option String → Outcome ValidationError IdPair
user_group_of_config none = ok (none, none)
user_group_of_config (some user) = user_group_of (split b':' user)

unfoldable pub get_user_group_uid_from_image_configuration :
    Option ImageConfiguration → Outcome ValidationError IdPair
unfolding user_group_of_config user_group_of group_of
get_user_group_uid_from_image_configuration none = ok (none, none)
get_user_group_uid_from_image_configuration (some config) = user_group_of_config config.user

-- `if let Some(id) = id && test(id)`.
abbrev pub holds {ℓ} : {A : Type ℓ} → (A → Bool) → Option A → Bool
holds test none = false
holds test (some a) = test a

-- `ranges[0].min`.
unfoldable pub first_min : List IdRange → Outcome ValidationError ℤ
first_min [] = panic
first_min (r ∷ ranges) = ok r.min

module _ {T : Type 0} (G : GenericSecurityContext T) (s : Settings) where
  open G use {
    run_as_user, set_run_as_user, run_as_non_root, set_run_as_non_root, run_as_group,
    set_run_as_group, default,
  }

  user_must_run_as : T → Option ℤ → Outcome ValidationError (Option T)
  user_must_run_as context image_user =
      if holds (λ id. not (is_valid_id s.run_as_user id)) image_user
      then err image_config_user_id_outside_ranges
      else if s.run_as_user.overwrite
          || (not (is_some (run_as_user context)) && not s.validate_only)
      then (do id ← first_min s.run_as_user.ranges; ok (some (set_run_as_user (some id) context)))
      else if holds (λ id. not (is_valid_id s.run_as_user id)) (run_as_user context)
      then err user_id_outside_ranges
      else if s.validate_only
      then err missing_user_id
      else ok none

  user_must_run_as_non_root : T → Option ℤ → Outcome ValidationError (Option T)
  user_must_run_as_non_root context image_user =
      if holds is_zero image_user
      then err image_config_user_id_cannot_be_root
      else if holds not (run_as_non_root context)
      then err should_run_as_non_root
      else if holds is_zero (run_as_user context)
      then err cannot_use_root_user_id
      else if s.validate_only
      then err should_run_as_non_root
      else ok (some (set_run_as_non_root (some true) context))

  by_user_rule : Rule → T → Option ℤ → Outcome ValidationError (Option T)
  by_user_rule must_run_as context image_user = user_must_run_as context image_user
  by_user_rule must_run_as_non_root context image_user =
      user_must_run_as_non_root context image_user
  by_user_rule rule context image_user = ok none

  unfoldable pub enforce_run_as_user_rule :
      Option T → Option ImageConfiguration → Outcome ValidationError (Option T)
  unfolding by_user_rule user_must_run_as user_must_run_as_non_root first_min
  enforce_run_as_user_rule context image_config = do
    ids ← get_user_group_uid_from_image_configuration image_config
    by_user_rule s.run_as_user.rule (unwrap_or default context) ids.0

  -- Does not depend on the context.
  unfoldable pub enforce_container_image_group :
      Option ImageConfiguration → Outcome ValidationError (Unit {0})
  enforce_container_image_group image_config = do
    ids ← get_user_group_uid_from_image_configuration image_config
    if holds (λ id. not (is_valid_id s.run_as_group id)) ids.1
        then err image_config_group_id_outside_ranges
        else ok tt

  group_must_run_as : T → Outcome ValidationError (Option T)
  group_must_run_as context =
      if s.run_as_group.overwrite || (not (is_some (run_as_group context)) && not s.validate_only)
      then (do id ← first_min s.run_as_group.ranges; ok (some (set_run_as_group (some id) context)))
      else if holds (λ id. not (is_valid_id s.run_as_group id)) (run_as_group context)
      then err group_id_outside_ranges
      else if s.validate_only
      then err missing_group_id
      else ok none

  group_may_run_as : T → Outcome ValidationError (Option T)
  group_may_run_as context =
      if holds (λ id. not (is_valid_id s.run_as_group id)) (run_as_group context)
      then err group_id_outside_ranges
      else ok none

  by_group_rule : Rule → T → Option ImageConfiguration → Outcome ValidationError (Option T)
  by_group_rule must_run_as context image_config = do
    enforce_container_image_group image_config
    group_must_run_as context
  by_group_rule may_run_as context image_config = do
    enforce_container_image_group image_config
    group_may_run_as context
  by_group_rule rule context image_config = ok none

  unfoldable pub enforce_run_as_group :
      Option T → Option ImageConfiguration → Outcome ValidationError (Option T)
  unfolding by_group_rule group_must_run_as group_may_run_as first_min
  enforce_run_as_group context image_config =
      by_group_rule s.run_as_group.rule (unwrap_or default context) image_config

module _ {X : Type 0} (unset : X) (s : Settings) where
  -- The loop over the supplemental groups.
  some_invalid : List ℤ → Bool
  some_invalid [] = false
  some_invalid (id ∷ ids) =
      let rest = some_invalid ids in
      if not (is_valid_id s.supplemental_groups id) then true else rest

  by_supplemental_rule :
      Rule → PodSecurityContext X → Outcome ValidationError (Option (PodSecurityContext X))
  by_supplemental_rule must_run_as context =
      if s.supplemental_groups.overwrite
        || (not (is_some context.supplemental_groups) && not s.validate_only)
      then (do
        id ← first_min s.supplemental_groups.ranges
        ok (some (record context { supplemental_groups = some (id ∷ []) })))
      else if holds some_invalid context.supplemental_groups
      then err group_id_outside_ranges
      else if s.validate_only
      then err missing_supplemental_group_id
      else ok none
  by_supplemental_rule may_run_as context =
      if holds some_invalid context.supplemental_groups
      then err group_id_outside_ranges
      else ok none
  by_supplemental_rule rule context = ok none

  unfoldable pub enforce_supplemental_groups :
      Option (PodSecurityContext X) → Outcome ValidationError (Option (PodSecurityContext X))
  unfolding by_supplemental_rule some_invalid first_min
  enforce_supplemental_groups context =
      by_supplemental_rule s.supplemental_groups.rule
        (unwrap_or (default_pod_security_context unset) context)
