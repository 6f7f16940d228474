-- ===== src/UserGroup/Pod.antt =====
-- The walk of policies/user-group-psp-policy/src/lib.rs over the containers of a pod, and its
-- answer. `get_manifest_and_config`, which asks the host, is a parameter.
pub mod Walk
pub mod Guarantees
use policies.Prelude.{
  Bool, true, false, ◌||◌, String, Option, none, some, is_some, List, [], ◌∷◌, ◌⊎◌, inl, inr,
  Outcome, ok, err, panic, ◌>>=◌, if◌then◌else◌,
}
use policies.K8s.{Container, PodSpec, SecurityContext, PodSecurityContext}
use policies.Sdk.{Response, accept, reject, mutate, Extracted, pod_spec, no_pod_spec, unreadable}
use policies.UserGroup.Settings.{Settings}
use policies.UserGroup.Context.{container_context, pod_context}
use policies.UserGroup.Enforce.{
  ValidationError, ImageConfiguration, enforce_run_as_user_rule, enforce_run_as_group,
  enforce_supplemental_groups,
}

-- An `anyhow` error: one of the rules, or the host's.
pub data PodError (H : Type 0) : Type 0 where
  violation : ValidationError → PodError H
  host : H → PodError H

pub data Rejection (H : Type 0) : Type 0 where
  because : PodError H → Rejection H
  cannot_parse : Rejection H

abbrev pub from_rule : {H A : Type 0} → Outcome ValidationError A → Outcome (PodError H) A
from_rule (ok a) = ok a
from_rule (err e) = err (violation e)
from_rule panic = panic

-- `mutated` or not.
abbrev pub Changed : Type 0 → Type 0
Changed A = Bool × A

module _ {X H : Type 0} (unset : X) (get_manifest_and_config : String → H ⊎ ImageConfiguration)
    (s : Settings) where
  -- `container.image.as_ref().unwrap()`, then the request to the host; Windows images are skipped.
  image_config_of : Option String → Outcome (PodError H) (Option ImageConfiguration)
  image_config_of none = panic
  image_config_of (some image) = elim (get_manifest_and_config image) [
    | inl e ↦ err (host e)
    | inr config ↦ if config.is_windows then ok none else ok (some config)
  ]

  -- `if mutate_request.is_some() { mutated = true; container.security_context = mutate_request; }`
  set_container : Option (SecurityContext X) → Changed (Container X) → Changed (Container X)
  set_container none c = c
  set_container (some context) (m, c) = (true, record c { security_context = some context })

  unfoldable pub enforce_container_security_policies :
      Container X → Outcome (PodError H) (Changed (Container X))
  unfolding image_config_of set_container
  enforce_container_security_policies c = do
    config ← if s.validate_container_image_configuration then image_config_of c.image else ok none
    user ←
        from_rule (enforce_run_as_user_rule (container_context unset) s c.security_context config)
    let c' = set_container user (false, c)
    group ←
        from_rule (enforce_run_as_group (container_context unset) s c'.1.security_context config)
    ok (set_container group c')

  set_pod : Option (PodSecurityContext X) → Changed (PodSpec X) → Changed (PodSpec X)
  set_pod none p = p
  set_pod (some context) (m, p) = (true, record p { security_context = some context })

  unfoldable pub enforce_pod_spec_security_policies :
      PodSpec X → Outcome (PodError H) (Changed (PodSpec X))
  unfolding set_pod
  enforce_pod_spec_security_policies p = do
    user ← from_rule (enforce_run_as_user_rule (pod_context unset) s p.security_context none)
    let p' = set_pod user (false, p)
    group ← from_rule (enforce_run_as_group (pod_context unset) s p'.1.security_context none)
    ok (set_pod group p')

  -- The two loops over containers.
  enforce_containers : List (Container X) → Outcome (PodError H) (Changed (List (Container X)))
  enforce_containers [] = ok (false, [])
  enforce_containers (c ∷ cs) = do
    c' ← enforce_container_security_policies c
    cs' ← enforce_containers cs
    ok (c'.0 || cs'.0, c'.1 ∷ cs'.1)

  enforce_init_containers :
      Option (List (Container X)) → Outcome (PodError H) (Changed (Option (List (Container X))))
  enforce_init_containers none = ok (false, none)
  enforce_init_containers (some cs) = do cs' ← enforce_containers cs; ok (cs'.0, some cs'.1)

  -- The pod's own context is looked at only when some container was changed.
  enforce_pod_spec_if : Changed (PodSpec X) → Outcome (PodError H) (Changed (PodSpec X))
  enforce_pod_spec_if (false, p) = ok (false, p)
  enforce_pod_spec_if (true, p) = do p' ← enforce_pod_spec_security_policies p; ok (true, p'.1)

  unfoldable pub enforce_pod : PodSpec X → Outcome (PodError H) (Changed (PodSpec X))
  unfolding enforce_containers enforce_init_containers enforce_pod_spec_if set_pod
  enforce_pod p = do
    inits ← enforce_init_containers p.init_containers
    cs ← enforce_containers p.containers
    p' ←
        enforce_pod_spec_if
          (inits.0 || cs.0, record p { init_containers = inits.1; containers = cs.1 })
    groups ← from_rule (enforce_supplemental_groups unset s p'.1.security_context)
    ok (set_pod groups p')

  answer :
      Outcome (PodError H) (Changed (PodSpec X)) → Outcome ⊥ (Response (Rejection H) (PodSpec X))
  answer (ok (true, p)) = ok (mutate p)
  answer (ok (false, p)) = ok accept
  answer (err e) = ok (reject (because e))
  answer panic = panic

  unfoldable pub validate : Extracted (PodSpec X) → Outcome ⊥ (Response (Rejection H) (PodSpec X))
  unfolding answer
  validate (pod_spec p) = answer (enforce_pod p)
  validate no_pod_spec = ok accept
  validate unreadable = ok (reject cannot_parse)
