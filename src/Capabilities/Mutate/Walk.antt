-- ===== src/Capabilities/Mutate/Walk.antt =====
-- The patch of a whole pod, and the answer of the policy.
use policies.Prelude.{
  ◌≡◌, refl, ap, ◌⊎◌, inl, inr, false, Option, none, some, List, [], ◌∷◌, String, arith, ok,
  Outcome, Each, done, more, All, unwrap_or, Option-cases,
}
use policies.K8s.{AllContainers, Container, PodSpec}
use policies.Sdk.{accept, pod_spec}
use policies.Capabilities.Settings.{Settings}
use policies.Capabilities.Validate.Laws.{IsAdded, IsAllowed, validate_added_caps_iff}
use policies.Capabilities.Mutate.{
  CapabilityError, patch_container_security_context, patch_container, patch_containers, patch_inits,
  any_changed, patch_pod_spec, patch_object, validate,
}
use policies.Capabilities.Mutate.Patch.{Complies, patch-eq-none_iff, patch-Complies}

module _ {X : Type 0} (unset : X) (s : Settings) where
  -- What the loop does to a container: one that does not comply gets a context that does; one that
  -- complies loses its context.
  abbrev pub IsPatched : Container X → Container X → Type 0
  IsPatched c c' =
      ((¬ (Complies s c.security_context))
        × Complies s c'.security_context
        × (c' ≡ record c { security_context = c'.security_context }))
      ⊎ (Complies s c.security_context × (c' ≡ record c { security_context = none }))

  patch_container-IsPatched : (c : Container X) → IsPatched c (patch_container unset s c)
  unfolding patch_container
  patch_container-IsPatched c =
      elim (Option-cases (patch_container_security_context unset c.security_context s)) [
        | inl same ↦ inr (
          (patch-eq-none_iff unset s c.security_context).0 same,
          ap (λ o. record c { security_context = o }) same,
        )
        | inr (sc, new) ↦ inl (
          (λ complies. cc ((patch-eq-none_iff unset s c.security_context).1 complies, new)),
          rw new ((patch-Complies unset s c.security_context sc new).0),
          refl,
        )
      ]

  patch_containers-IsPatched :
      (cs : List (Container X)) → Each IsPatched cs (patch_containers unset s cs)
  unfolding patch_containers
  patch_containers-IsPatched [] = done
  patch_containers-IsPatched (c ∷ cs) =
      more (patch_container-IsPatched c) (patch_containers-IsPatched cs)

  patch_inits-IsPatched :
      (cs : Option (List (Container X)))
      → Each IsPatched (unwrap_or [] cs) (unwrap_or [] (patch_inits unset s cs))
  unfolding patch_inits
  patch_inits-IsPatched none = done
  patch_inits-IsPatched (some cs) = patch_containers-IsPatched cs

  any_changed-Complies :
      (cs : List (Container X))
      → any_changed unset s cs ≡ false
      → All (λ c. Complies s c.security_context) cs
  unfolding any_changed
  any_changed-Complies [] h = tt
  any_changed-Complies (c ∷ cs) h = (
    (patch-eq-none_iff unset s c.security_context).0 (ground arith),
    any_changed-Complies cs (ground arith),
  )

  -- A pod that is patched keeps its containers and its init containers in their order. Of each, only
  -- the security context changes: one that did not comply gets a context that does, and one that
  -- complied loses its context.
  pub patch_pod_spec-IsPatched :
      (p p' : PodSpec X)
      → patch_pod_spec unset s p ≡ some p'
      → Each IsPatched p.containers p'.containers
        × Each IsPatched (unwrap_or [] p.init_containers) (unwrap_or [] p'.init_containers)
  unfolding patch_pod_spec
  patch_pod_spec-IsPatched p p' h =
      let cs : p'.containers ≡ patch_containers unset s p.containers = ground arith in
      let is : p'.init_containers ≡ patch_inits unset s p.init_containers = ground arith in
      (
        rw cs (patch_containers-IsPatched p.containers),
        rw is (patch_inits-IsPatched p.init_containers),
      )

  -- The policy accepts a pod as it is only if every container complies with the settings, and if
  -- every capability that is added is allowed.
  pub validate-accept :
      (reread : Outcome CapabilityError (PodSpec X)) (p : PodSpec X)
      → validate unset s reread (pod_spec p) ≡ ok accept
      → AllContainers (λ c. Complies s c.security_context) p
        × ((a : String) → IsAdded p a → IsAllowed s a)
  unfolding validate patch_object patch_pod_spec
  validate-accept reread p h = (
    (
      any_changed-Complies p.containers (ground arith),
      any_changed-Complies (unwrap_or [] p.init_containers) (ground arith),
    ),
    (validate_added_caps_iff s p).0 (ground arith),
  )
