-- ===== src/EnvVars/Validate/Named.antt =====
-- The map from the names of containers to the names of variables, and the pods that are accepted.
use policies.Prelude.{
  ◌≡◌, ◌↔◌, inl, inr, refl, sym, ap, subst, ◌∙◌, String, not, Option, none, some, List, [], ◌∷◌,
  ◌++◌, map, ok, err, is_empty, get, put, get-put, IsKeyed, put-IsKeyed, or_else, unwrap_or, ◌==◌,
  eq_iff, arith, Option-cases, Bool-cases, if◌then◌else◌, cons_named_error_iff,
}
use policies.K8s.{Container, PodSpec}
use policies.Sdk.{accept, pod_spec}
use policies.Criteria.Settings.{BaseSettings}
use policies.Criteria.Operators.{validate_values}
use policies.Criteria.Meaning.{Meets, validate_values_iff, validate_values-ne-panic}
use policies.EnvVars.Validate.{
  EnvVars, names_of, insert_env_vars, get_containers_env_vars, extend, ContainerError, errors_of,
  validate_environment_variables, answer, validate,
}

-- The names of the variables that a container sets.
abbrev pub variables : {X : Type 0} → Container X → List String
variables c = map (λ v. v.name) (unwrap_or [] c.env)

-- The variables of the last container of a name.
abbrev pub last_named : {X : Type 0} → String → List (Container X) → Option (List String)
last_named name [] = none
last_named name (c ∷ cs) =
    or_else (last_named name cs) (if name == c.name then some (variables c) else none)

names_of-variables : {X : Type 0} (c : Container X) → names_of c.env ≡ variables c
names_of-variables c = elim (Option-cases c.env) [
  | inl missing ↦ rw (missing, names_of) refl
  | inr (vs, has) ↦ rw (has, names_of) refl
]

insert_env_vars-IsKeyed :
    {X : Type 0} (cs : List (Container X)) (m : EnvVars)
    → IsKeyed m
    → IsKeyed (insert_env_vars cs m)
unfolding insert_env_vars
insert_env_vars-IsKeyed [] m h = h
insert_env_vars-IsKeyed (c ∷ cs) m h =
    insert_env_vars-IsKeyed cs (put c.name (names_of c.env) m)
      (put-IsKeyed c.name (names_of c.env) m h)

extend-IsKeyed : (m entries : EnvVars) → IsKeyed m → IsKeyed (extend m entries)
unfolding extend
extend-IsKeyed m [] h = h
extend-IsKeyed m (entry ∷ entries) h =
    extend-IsKeyed (put entry.0 entry.1 m) entries (put-IsKeyed entry.0 entry.1 m h)

get-insert_env_vars :
    {X : Type 0} (cs : List (Container X)) (m : EnvVars) (name : String)
    → get name (insert_env_vars cs m) ≡ or_else (last_named name cs) (get name m)
unfolding insert_env_vars
get-insert_env_vars [] m name = refl
get-insert_env_vars (c ∷ cs) m name = ground (
  arith,
  get-insert_env_vars cs (put c.name (names_of c.env) m) name,
  get-put c.name (names_of c.env) m name,
  names_of-variables c,
  Option-cases (last_named name cs),
)

get-extend :
    (m entries : EnvVars) (name : String)
    → IsKeyed entries
    → get name (extend m entries) ≡ or_else (get name entries) (get name m)
unfolding extend get
get-extend m [] name h = refl
get-extend m (entry ∷ entries) name (fresh, h) = ground (
  arith,
  get-extend (put entry.0 entry.1 m) entries name h,
  get-put entry.0 entry.1 m name,
  eq_iff name entry.0,
  Option-cases (get name entries),
)

last_named-++ :
    {X : Type 0} (cs ds : List (Container X)) (name : String)
    → last_named name (cs ++ ds) ≡ or_else (last_named name ds) (last_named name cs)
last_named-++ [] ds name = ground (arith, Option-cases (last_named name ds))
last_named-++ (c ∷ cs) ds name =
    ground (arith, last_named-++ cs ds name, Option-cases (last_named name ds))

-- The map that the code builds from the three lists of containers.
abbrev merged : {X : Type 0} → (cs inits ephemerals : List (Container X)) → EnvVars
merged cs inits ephemerals =
    extend (extend (get_containers_env_vars cs) (get_containers_env_vars inits))
      (get_containers_env_vars ephemerals)

module _ {X : Type 0} (cs inits ephemerals : List (Container X)) where
  merged-IsKeyed : IsKeyed (merged cs inits ephemerals)
  unfolding get_containers_env_vars
  merged-IsKeyed =
      extend-IsKeyed _ (insert_env_vars ephemerals [])
        (extend-IsKeyed _ (insert_env_vars inits []) (insert_env_vars-IsKeyed cs [] tt))

  get-merged :
      (name : String)
      → get name (merged cs inits ephemerals) ≡ last_named name (cs ++ (inits ++ ephemerals))
  unfolding get_containers_env_vars get
  get-merged name =
      let keyed_inits = insert_env_vars-IsKeyed inits [] tt in
      let keyed_ephemerals = insert_env_vars-IsKeyed ephemerals [] tt in
      let outer =
        get-extend (extend (insert_env_vars cs []) (insert_env_vars inits []))
          (insert_env_vars ephemerals []) name keyed_ephemerals in
      let inner = get-extend (insert_env_vars cs []) (insert_env_vars inits []) name keyed_inits in
      ground (
        arith,
        outer,
        inner,
        get-insert_env_vars cs [] name,
        get-insert_env_vars inits [] name,
        get-insert_env_vars ephemerals [] name,
        last_named-++ cs (inits ++ ephemerals) name,
        last_named-++ inits ephemerals name,
        Option-cases (last_named name cs),
        Option-cases (last_named name inits),
        Option-cases (last_named name ephemerals),
      )

module _ (s : BaseSettings) where
  -- Every name that the map holds has variables that meet the criterion.
  abbrev MeetAll : EnvVars → Type 0
  MeetAll m = (name : String) (names : List String) → get name m ≡ some names → Meets s names

  MeetAll-∷ :
      (entry : String × List String) (m : EnvVars)
      → get entry.0 m ≡ none
      → MeetAll (entry ∷ m) ↔ (Meets s entry.1 × MeetAll m)
  unfolding get
  MeetAll-∷ entry m fresh = (
    λ all_. (
      all_ entry.0 entry.1 (ground (arith, eq_iff entry.0 entry.0)),
      λ name names has. all_ name names (ground (arith, eq_iff name entry.0)),
    ),
    λ (first, rest) name names has. elim (Bool-cases (name == entry.0)) [
      | inl same ↦ let met : entry.1 ≡ names = ground arith in subst (Meets s) met first
      | inr other ↦ rest name names (ground arith)
    ],
  )

  errors_of_iff : (m : EnvVars) → IsKeyed m → (errors_of s m ≡ []) ↔ MeetAll m
  unfolding errors_of get
  errors_of_iff [] h = (λ e name names has. absurd (cc has), λ all_. refl)
  errors_of_iff (entry ∷ m) (fresh, h) =
      let first =
        cons_named_error_iff entry.0 (validate_values s entry.1) (errors_of s m)
          (validate_values-ne-panic s entry.1) in
      let meant = validate_values_iff s entry.1 in
      let split = MeetAll-∷ entry m fresh in
      let rest = errors_of_iff m h in
      (
        λ e. let (a, b) = first.0 e in split.1 (meant.0 a, rest.0 b),
        λ all_. let (a, b) = split.0 all_ in first.1 (meant.1 a, rest.1 b),
      )

  answer_iff :
      (errors : List ContainerError)
      → (answer (if not (is_empty errors) then err errors else ok tt) ≡ accept) ↔ (errors ≡ [])
  unfolding answer
  answer_iff [] = (λ h. refl, λ h. refl)
  answer_iff (e ∷ es) = (λ h. absurd (cc h), λ h. absurd (cc h))

  abbrev pub all_containers : {X : Type 0} → PodSpec X → List (Container X)
  all_containers p =
      p.containers ++ (unwrap_or [] p.init_containers ++ unwrap_or [] p.ephemeral_containers)

  -- The policy accepts a pod exactly when each container, init container and ephemeral container
  -- meets the criterion of the settings by itself, with the names of the environment variables that
  -- it sets; of those with the same name, which a cluster does not allow, only the last is looked
  -- at.
  pub validate-Meets_iff :
      {X : Type 0} (default_spec p : PodSpec X)
      → (validate default_spec s (pod_spec p) ≡ some accept) ↔ (
          (name : String) (names : List String)
          → last_named name (all_containers p) ≡ some names
          → Meets s names)
  unfolding validate validate_environment_variables
  validate-Meets_iff default_spec p =
      let inits = unwrap_or [] p.init_containers in
      let ephemerals = unwrap_or [] p.ephemeral_containers in
      let m = merged p.containers inits ephemerals in
      let told = answer_iff (errors_of s m) in
      let meant = errors_of_iff m (merged-IsKeyed p.containers inits ephemerals) in
      let same = get-merged p.containers inits ephemerals in
      (
        λ h name names has. meant.0 (told.0 (cc h)) name names (same name ∙ has),
        λ all_.
            ap some (told.1 (meant.1 (λ name names has. all_ name names (sym (same name) ∙ has)))),
      )
