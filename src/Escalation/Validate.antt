-- ===== src/Escalation/Validate.antt =====
-- policies/allow-privilege-escalation-psp-policy/src/lib.rs and src/settings.rs, whose check accepts
-- all settings.
pub mod Contexts
pub mod Confined
use policies.Prelude.{
  String, Bool, true, false, not, ◌||◌, Option, none, some, is_some, List, [], ◌∷◌, ◌++◌, any,
  is_empty, or_else, unwrap_or, if◌then◌else◌,
}
use policies.K8s.{Container, PodSpec, SecurityContext, default_security_context}
use policies.Sdk.{Response, accept, reject, mutate, Extracted, pod_spec, no_pod_spec, unreadable}

pub record Settings : Type 0 where
  pub default_allow_privilege_escalation : Bool

-- The texts of the rejections.
pub data EscalationError : Type 0 where
  init_containers_escalate containers_escalate cannot_parse : EscalationError

-- `== Some(false)`
forbids : Option Bool → Bool
forbids (some false) = true
forbids o = false

module _ {X : Type 0} where
  allows : Option (SecurityContext X) → Bool
  allows none = false
  allows (some sc) = unwrap_or false sc.allow_privilege_escalation

  unfoldable pub has_allowed_privilege_escalation_container : List (Container X) → Bool
  unfolding allows
  has_allowed_privilege_escalation_container cs = any (λ c. allows c.security_context) cs

module _ {X : Type 0} (unset : X) where
  -- The new context, and whether the code counts a mutation.
  new_context : Option (SecurityContext X) → Bool × SecurityContext X
  unfolding forbids
  new_context (some sc) =
      if forbids sc.allow_privilege_escalation
      then (false, sc)
      else (true, record sc { allow_privilege_escalation = some false })
  new_context none =
      (true, record (default_security_context unset) { allow_privilege_escalation = some false })

  pub new_containers : List (Container X) → Bool × List (Container X)
  unfolding new_context
  new_containers [] = (false, [])
  new_containers (c ∷ cs) =
      let (mutated, sc) = new_context c.security_context in
      let (later, rest) = new_containers cs in
      (mutated || later, record c { security_context = some sc } ∷ rest)

  unfoldable pub patch_containers : List (Container X) → Bool → Option (List (Container X))
  unfolding new_containers
  patch_containers cs default_allow =
      let (mutations_done, new) = new_containers cs in
      if default_allow then none else if mutations_done then some new else none

  module _ (s : Settings) where
    -- The errors, and the new containers.
    checked :
        List (Container X) → EscalationError → List EscalationError × Option (List (Container X))
    checked cs e =
        if has_allowed_privilege_escalation_container cs
        then (e ∷ [], none)
        else ([], patch_containers cs s.default_allow_privilege_escalation)

    checked_inits : Option (List (Container X)) → List EscalationError × Option (List (Container X))
    unfolding checked
    checked_inits none = ([], none)
    checked_inits (some cs) = checked cs init_containers_escalate

    answer :
        PodSpec X
        → List EscalationError × Option (List (Container X))
        → List EscalationError × Option (List (Container X))
        → Response (List EscalationError) (PodSpec X)
    answer p (errors, inits) (more, containers) =
        if not (is_empty (errors ++ more))
        then reject (errors ++ more)
        else if is_some containers || is_some inits
        then mutate (record p {
          init_containers = or_else inits p.init_containers;
          containers = unwrap_or p.containers containers;
        })
        else accept

    unfoldable pub validate : Extracted (PodSpec X) → Response (List EscalationError) (PodSpec X)
    unfolding checked checked_inits answer
    validate (pod_spec p) =
        answer p (checked_inits p.init_containers) (checked p.containers containers_escalate)
    validate no_pod_spec = accept
    validate unreadable = reject (cannot_parse ∷ [])
