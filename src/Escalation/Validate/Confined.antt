-- ===== src/Escalation/Validate/Confined.antt =====
-- What the pods that the policy lets through may do.
use policies.Prelude.{
  ◌≡◌, ◌⊎◌, inl, inr, refl, sym, subst, false, Option, none, some, List, [], ◌∷◌, All, Each,
  unwrap_or, arith, Bool-cases,
}
use policies.K8s.{Container, PodSpec}
use policies.Sdk.{Response, accept, reject, mutate, pod_spec}
use policies.Escalation.Validate.{
  Settings, EscalationError, init_containers_escalate, containers_escalate,
  has_allowed_privilege_escalation_container, new_containers, patch_containers, checked,
  checked_inits, answer, validate,
}
use policies.Escalation.Validate.Contexts.{
  IsConfined, Complies, AllFree, any-AllFree_iff, BecomesConfined, new_containers-BecomesConfined,
  new_containers-IsConfined, stays-BecomesConfined,
}

module _ {X : Type 0} (unset : X) (s : Settings) where
  -- What the code finds in one list of containers.
  abbrev Finds :
      List (Container X)
      → EscalationError
      → List EscalationError × Option (List (Container X))
      → Type 0
  Finds cs e (errors, none) =
      ((errors ≡ e ∷ []) × (¬ AllFree cs)) ⊎ ((errors ≡ []) × AllFree cs × All (Complies s) cs)
  Finds cs e (errors, some new) =
      (errors ≡ [])
      × AllFree cs
      × (s.default_allow_privilege_escalation ≡ false)
      × Each (BecomesConfined unset) cs new

  All-Complies :
      (cs : List (Container X))
      → AllFree cs
      → (s.default_allow_privilege_escalation ≡ false → All IsConfined cs)
      → All (Complies s) cs
  All-Complies [] free said = tt
  All-Complies (c ∷ cs) (first, free) said =
      ((first, λ h. (said h).0), All-Complies cs free (λ h. (said h).1))

  checked-Finds :
      (cs : List (Container X)) (e : EscalationError) → Finds cs e (checked unset s cs e)
  unfolding checked patch_containers
  checked-Finds cs e = elim (Bool-cases (has_allowed_privilege_escalation_container cs)) [
    | inl escalates ↦ rw escalates (inl (refl, λ free. cc ((any-AllFree_iff cs).1 free, escalates)))
    | inr quiet ↦
        let free = (any-AllFree_iff cs).0 quiet in
        elim (Bool-cases s.default_allow_privilege_escalation) [
          | inl default_ ↦
              let same : checked unset s cs e ≡ ([], none) = ground arith in
              subst (Finds cs e) (sym same)
                (inr (refl, free, All-Complies cs free (λ h. absurd (cc (h, default_)))))
          | inr denied ↦ elim (Bool-cases (new_containers unset cs).0) [
            | inl mutated ↦
                let same : checked unset s cs e ≡ ([], some (new_containers unset cs).1) =
                  ground arith in
                subst (Finds cs e) (sym same)
                  (refl, free, denied, new_containers-BecomesConfined unset cs free)
            | inr kept ↦
                let same : checked unset s cs e ≡ ([], none) = ground arith in
                subst (Finds cs e) (sym same) (
                  inr (
                    refl,
                    free,
                    All-Complies cs free (λ h. new_containers-IsConfined unset cs kept),
                  ))
          ]
        ]
  ]

  abbrev pub EachOptional : Option (List (Container X)) → Option (List (Container X)) → Type 0
  EachOptional none none = Unit
  EachOptional (some cs) (some cs') = Each (BecomesConfined unset) cs cs'
  EachOptional o o' = ⊥

  abbrev FindsOptional :
      EscalationError
      → Option (List (Container X))
      → List EscalationError × Option (List (Container X))
      → Type 0
  FindsOptional e none found = found ≡ ([], none)
  FindsOptional e (some cs) found = Finds cs e found

  finds_error :
      (e : EscalationError) (o : Option (List (Container X))) (first : EscalationError)
      (errors : List EscalationError) (new : Option (List (Container X)))
      → FindsOptional e o (first ∷ errors, new)
      → ¬ AllFree (unwrap_or [] o)
  finds_error e none first errors new h = absurd (cc h)
  finds_error e (some cs) first errors none (inl (same, escalates)) = escalates
  finds_error e (some cs) first errors none (inr (same, free, comply)) = absurd (cc same)
  finds_error e (some cs) first errors (some new) (same, free, denied, each) = absurd (cc same)

  finds_same :
      (e : EscalationError) (o : Option (List (Container X)))
      → FindsOptional e o ([], none)
      → AllFree (unwrap_or [] o) × All (Complies s) (unwrap_or [] o)
  finds_same e none h = (tt, tt)
  finds_same e (some cs) (inl (same, escalates)) = absurd (cc same)
  finds_same e (some cs) (inr (same, free, comply)) = (free, comply)

  finds_new :
      (e : EscalationError) (o : Option (List (Container X))) (new : List (Container X))
      → FindsOptional e o ([], some new)
      → (s.default_allow_privilege_escalation ≡ false) × EachOptional o (some new)
  finds_new e none new h = absurd (cc h)
  finds_new e (some cs) new (same, free, denied, each) = (denied, each)

  All-IsConfined :
      (cs : List (Container X))
      → s.default_allow_privilege_escalation ≡ false
      → All (Complies s) cs
      → All IsConfined cs
  All-IsConfined [] denied h = tt
  All-IsConfined (c ∷ cs) denied (first, h) = (first.1 denied, All-IsConfined cs denied h)

  stays-EachOptional :
      (o : Option (List (Container X)))
      → s.default_allow_privilege_escalation ≡ false
      → AllFree (unwrap_or [] o)
      → All (Complies s) (unwrap_or [] o)
      → EachOptional o o
  stays-EachOptional none denied free h = tt
  stays-EachOptional (some cs) denied free h =
      stays-BecomesConfined unset cs free (All-IsConfined cs denied h)

  checked_inits-Finds :
      (o : Option (List (Container X)))
      → FindsOptional init_containers_escalate o (checked_inits unset s o)
  unfolding checked_inits
  checked_inits-Finds none = refl
  checked_inits-Finds (some cs) = checked-Finds cs init_containers_escalate

  -- What the answer to a pod says of its containers and its init containers.
  abbrev pub IsConfining : PodSpec X → Response (List EscalationError) (PodSpec X) → Type 0
  IsConfining p accept =
      All (Complies s) p.containers × All (Complies s) (unwrap_or [] p.init_containers)
  IsConfining p (reject errors) =
      ¬ (AllFree p.containers × AllFree (unwrap_or [] p.init_containers))
  IsConfining p (mutate p') =
      (s.default_allow_privilege_escalation ≡ false)
      × Each (BecomesConfined unset) p.containers p'.containers
      × EachOptional p.init_containers p'.init_containers
      × (p' ≡ record p { containers = p'.containers; init_containers = p'.init_containers })

  answer-IsConfining :
      (p : PodSpec X) (inits containers : List EscalationError × Option (List (Container X)))
      → FindsOptional init_containers_escalate p.init_containers inits
      → FindsOptional containers_escalate (some p.containers) containers
      → IsConfining p (answer unset s p inits containers)
  unfolding answer
  answer-IsConfining p (e ∷ es, inits) (more_, containers) fi fc =
      λ (a, b). finds_error init_containers_escalate p.init_containers e es inits fi b
  answer-IsConfining p ([], inits) (e ∷ es, containers) fi fc =
      λ (a, b). finds_error containers_escalate (some p.containers) e es containers fc a
  answer-IsConfining p ([], none) ([], none) fi fc = (
    (finds_same containers_escalate (some p.containers) fc).1,
    (finds_same init_containers_escalate p.init_containers fi).1,
  )
  answer-IsConfining p ([], some inits) ([], none) fi fc =
      let (free, same) = finds_same containers_escalate (some p.containers) fc in
      let (denied, each) = finds_new init_containers_escalate p.init_containers inits fi in
      (denied, stays-EachOptional (some p.containers) denied free same, each, refl)
  answer-IsConfining p ([], none) ([], some containers) fi fc =
      let (free, same) = finds_same init_containers_escalate p.init_containers fi in
      let (denied, each) = finds_new containers_escalate (some p.containers) containers fc in
      (denied, each, stays-EachOptional p.init_containers denied free same, refl)
  answer-IsConfining p ([], some inits) ([], some containers) fi fc =
      let (denied, each_init) = finds_new init_containers_escalate p.init_containers inits fi in
      let (denied_too, each) = finds_new containers_escalate (some p.containers) containers fc in
      (denied, each, each_init, refl)

  -- The policy accepts a pod only if no container and no init container allows privilege
  -- escalation, and, where the settings forbid it by default, all of them forbid it. It changes a
  -- pod only where the settings forbid it by default and none allows it: each container and init
  -- container then forbids it, and nothing else changes. It rejects a pod only if some container
  -- or init container allows it.
  pub validate-IsConfining : (p : PodSpec X) → IsConfining p (validate unset s (pod_spec p))
  unfolding validate
  validate-IsConfining p =
      answer-IsConfining p (checked_inits unset s p.init_containers)
        (checked unset s p.containers containers_escalate) (checked_inits-Finds p.init_containers)
        (checked-Finds p.containers containers_escalate)
