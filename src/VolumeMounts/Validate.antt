-- ===== src/VolumeMounts/Validate.antt =====
-- policies/volumeMounts-policy/src/lib.rs and src/settings.rs. An error holds the names that its text
-- lists, in the order of the set; the text sorts them.
pub mod Agreement
use policies.Prelude.{
  String, Option, none, some, List, [], ◌∷◌, ◌++◌, map, Outcome, ok, err, panic, ◌>>=◌, is_empty,
  insert, intersection, difference, is_subset, unwrap_or, if◌then◌else◌, cons_named_error,
}
use policies.K8s.{VolumeMount, Container, PodSpec}
use policies.Sdk.{Response, accept, reject, Extracted, pod_spec, no_pod_spec, unreadable}

-- The field `operator` of the settings.
pub data Reject : Type 0 where
  any_in any_not_in all_are_used not_all_are_used : Reject

pub record Settings : Type 0 where
  pub operator_ : Reject
  pub volume_mounts_names : List String

pub data SettingsError : Type 0 where
  no_names : SettingsError

unfoldable pub validate_settings : Settings → Outcome SettingsError (Unit {0})
validate_settings s = if is_empty s.volume_mounts_names then err no_names else ok tt

pub data MountError : Type 0 where
  not_allowed_together not_allowed missing : List String → MountError

-- The loop that inserts the names.
insert_names : List VolumeMount → List String → List String
insert_names [] names = names
insert_names (m ∷ ms) names = insert_names ms (insert m.name names)

by_operator : Reject → List String → List String → Outcome MountError (Unit {0})
by_operator all_are_used listed mounted =
    if is_subset listed mounted then err (not_allowed_together listed) else ok tt
by_operator any_in listed mounted =
    let found = intersection listed mounted in
    if is_empty found then ok tt else err (not_allowed found)
by_operator any_not_in listed mounted =
    let found = difference mounted listed in
    if is_empty found then ok tt else err (not_allowed found)
by_operator not_all_are_used listed mounted =
    let absent = difference listed mounted in
    if is_empty absent then ok tt else err (missing absent)

unfoldable pub validate_volume_mounts : List VolumeMount → Settings → Outcome MountError (Unit {0})
unfolding insert_names by_operator
validate_volume_mounts mounts s =
    by_operator s.operator_ s.volume_mounts_names (insert_names mounts [])

-- A container and what is wrong with its mounts.
abbrev pub ContainerError : Type 0
ContainerError = String × MountError

answer : Outcome (List ContainerError) (Unit {0}) → Response (List ContainerError) (Unit {0})
answer (ok u) = accept
answer (err errors) = reject errors
answer panic = reject []

by_mounts : Settings → Option (List VolumeMount) → Outcome MountError (Unit {0})
by_mounts s none = ok tt
by_mounts s (some mounts) = validate_volume_mounts mounts s

module _ {X : Type 0} (s : Settings) where
  -- Also of an ephemeral container.
  unfoldable pub validate_container : Container X → Outcome MountError (Unit {0})
  unfolding by_mounts
  validate_container c = by_mounts s c.volume_mounts

  errors_of : List (Container X) → List ContainerError
  errors_of [] = []
  errors_of (c ∷ cs) = cons_named_error c.name (validate_container c) (errors_of cs)

  unfoldable pub validate_pod : PodSpec X → Outcome (List ContainerError) (Unit {0})
  unfolding errors_of
  validate_pod p =
      let errors =
        errors_of p.containers
        ++ (errors_of (unwrap_or [] p.init_containers)
            ++ errors_of (unwrap_or [] p.ephemeral_containers)) in
      if is_empty errors then ok tt else err errors

  -- A request that does not parse is rejected without a container to blame.
  unfoldable pub validate : Extracted (PodSpec X) → Response (List ContainerError) (Unit {0})
  unfolding answer
  validate (pod_spec p) = answer (validate_pod p)
  validate no_pod_spec = accept
  validate unreadable = reject []
