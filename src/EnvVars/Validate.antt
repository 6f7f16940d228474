-- ===== src/EnvVars/Validate.antt =====
-- policies/environment-variable-policy/src/lib.rs and src/settings.rs. Settings are those of
-- criteria_policy_base. The regular expression for names is a parameter.
pub mod Named
use policies.Prelude.{
  String, Bool, not, Option, none, some, List, [], ◌∷◌, ◌++◌, map, Outcome, ok, err, panic, ◌>>=◌,
  ◌>>◌, map_err, is_empty, retain, put, unwrap_or, if◌then◌else◌, cons_named_error,
}
use policies.K8s.{EnvVar, Container, PodSpec}
use policies.Sdk.{Response, accept, reject, Extracted, pod_spec, no_pod_spec, unreadable}
use policies.Criteria.Settings
use policies.Criteria.Settings.{BaseSettings, values}
use policies.Criteria.Operators.{CriteriaError, validate_values}

pub data SettingsError : Type 0 where
  invalid_values : Settings.SettingsError → SettingsError
  invalid_names : List String → SettingsError

-- `is_match` of the expression of C identifiers.
unfoldable pub validate_settings : (String → Bool) → BaseSettings → Outcome SettingsError (Unit {0})
validate_settings is_match s =
    let invalid = retain (λ name. not (is_match name)) (values s) in
    map_err invalid_values (Settings.validate s)
    >> (if not (is_empty invalid) then err (invalid_names invalid) else ok tt)

-- The names of the variables by the name of the container.
abbrev pub EnvVars : Type 0
EnvVars = List (String × List String)

abbrev pub names_of : Option (List EnvVar) → List String
names_of none = []
names_of (some variables) = map (λ v. v.name) variables

-- The loop over containers, from the map that is there. A later container replaces an earlier one
-- of the same name.
insert_env_vars : {X : Type 0} → List (Container X) → EnvVars → EnvVars
insert_env_vars [] results = results
insert_env_vars (c ∷ cs) results = insert_env_vars cs (put c.name (names_of c.env) results)

unfoldable pub get_containers_env_vars : {X : Type 0} → List (Container X) → EnvVars
unfolding insert_env_vars
get_containers_env_vars cs = insert_env_vars cs []

-- `extend`.
unfoldable pub extend : EnvVars → EnvVars → EnvVars
extend results [] = results
extend results (entry ∷ entries) = extend (put entry.0 entry.1 results) entries

-- A container and how its variables miss the criterion.
abbrev pub ContainerError : Type 0
ContainerError = String × CriteriaError

module _ (s : BaseSettings) where
  -- `validate_envvar` is `validate_values`.
  errors_of : EnvVars → List ContainerError
  errors_of [] = []
  errors_of (entry ∷ entries) =
      cons_named_error entry.0 (validate_values s entry.1) (errors_of entries)

  module _ {X : Type 0} where
    unfoldable pub validate_environment_variables :
        PodSpec X → Outcome (List ContainerError) (Unit {0})
    unfolding errors_of
    validate_environment_variables p =
        let envvars =
          extend
            (extend (get_containers_env_vars p.containers)
              (get_containers_env_vars (unwrap_or [] p.init_containers)))
            (get_containers_env_vars (unwrap_or [] p.ephemeral_containers)) in
        if not (is_empty (errors_of envvars)) then err (errors_of envvars) else ok tt

answer : Outcome (List ContainerError) (Unit {0}) → Response (List ContainerError) (Unit {0})
answer (ok u) = accept
answer (err errors) = reject errors
answer panic = reject []

-- `default_spec` is `PodSpec::default()`. The result `none` is an object that does not parse, the
-- error of which is the error of the call.
unfoldable pub validate :
    {X : Type 0}
    → PodSpec X
    → BaseSettings
    → Extracted (PodSpec X)
    → Option (Response (List ContainerError) (Unit {0}))
unfolding answer
validate default_spec s (pod_spec p) = some (answer (validate_environment_variables s p))
validate default_spec s no_pod_spec = some (answer (validate_environment_variables s default_spec))
validate default_spec s unreadable = none
