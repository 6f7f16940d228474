-- ===== src/Escalation/Validate/Contexts.antt =====
-- What the code makes of single contexts and of lists of containers.
use policies.Prelude.{
  ◌≡◌, ◌↔◌, inl, inr, refl, sym, ap, Bool, true, false, Option, none, some, List, [], ◌∷◌, All,
  Each, done, more, unwrap_or, arith, Bool-cases, Option-cases,
}
use policies.K8s.{Container, SecurityContext, default_security_context}
use policies.Escalation.Validate.{
  Settings, allows, has_allowed_privilege_escalation_container, forbids, new_context,
  new_containers,
}

forbids_iff : (o : Option Bool) → (forbids o ≡ true) ↔ (o ≡ some false)
unfolding forbids
forbids_iff none = (λ h. absurd (cc h), λ h. absurd (cc h))
forbids_iff (some true) = (λ h. absurd (cc h), λ h. absurd (cc h))
forbids_iff (some false) = (λ h. refl, λ h. refl)

module _ {X : Type 0} where
  -- The context says that privileges may escalate, or that they may not.
  abbrev pub Says : Bool → Option (SecurityContext X) → Type 0
  Says b none = ⊥
  Says b (some sc) = sc.allow_privilege_escalation ≡ some b

  abbrev pub Escalates : Container X → Type 0
  Escalates c = Says true c.security_context

  abbrev pub IsConfined : Container X → Type 0
  IsConfined c = Says false c.security_context

  -- By the default of the settings.
  abbrev pub Complies : Settings → Container X → Type 0
  Complies s c = (¬ Escalates c) × (s.default_allow_privilege_escalation ≡ false → IsConfined c)

  allows_iff : (o : Option (SecurityContext X)) → (allows o ≡ true) ↔ Says true o
  unfolding allows
  allows_iff none = (λ h. absurd (cc h), λ h. absurd h)
  allows_iff (some sc) = ground (arith, Option-cases sc.allow_privilege_escalation)

  abbrev pub AllFree : List (Container X) → Type 0
  AllFree cs = All (λ c. ¬ Escalates c) cs

  pub any-AllFree_iff :
      (cs : List (Container X))
      → (has_allowed_privilege_escalation_container cs ≡ false) ↔ AllFree cs
  unfolding has_allowed_privilege_escalation_container
  any-AllFree_iff [] = (λ h. tt, λ h. refl)
  any-AllFree_iff (c ∷ cs) = ground (arith, any-AllFree_iff cs, allows_iff c.security_context)

module _ {X : Type 0} (unset : X) where
  -- The context with the escalation forbidden, and all else as it was.
  abbrev pub confined : Option (SecurityContext X) → SecurityContext X
  confined o = record (unwrap_or (default_security_context unset) o) {
    allow_privilege_escalation = some false;
  }

  abbrev pub BecomesConfined : Container X → Container X → Type 0
  BecomesConfined c c' =
      (¬ Escalates c) × (c' ≡ record c { security_context = some (confined c.security_context) })

  abbrev allowing : SecurityContext X → Option Bool → SecurityContext X
  allowing sc o = record sc { allow_privilege_escalation = o }

  new_context-confined : (o : Option (SecurityContext X)) → (new_context unset o).1 ≡ confined o
  unfolding new_context
  new_context-confined none = refl
  new_context-confined (some sc) = elim (Bool-cases (forbids sc.allow_privilege_escalation)) [
    | inl confined_ ↦
        let said : sc.allow_privilege_escalation ≡ some false = (forbids_iff _).0 confined_ in
        rw confined_ (ap {A = Option Bool} (allowing sc) said)
    | inr other ↦ rw other refl
  ]

  same_context : (o : Option (SecurityContext X)) → Says false o → some (confined o) ≡ o
  same_context none h = absurd h
  same_context (some sc) h = ap {A = Option Bool} (λ o. some (allowing sc o)) (sym h)

  new_context-Says :
      (o : Option (SecurityContext X)) → (new_context unset o).0 ≡ false → Says false o
  unfolding new_context
  new_context-Says none h = absurd (cc h)
  new_context-Says (some sc) h = ground (arith, forbids_iff sc.allow_privilege_escalation)

  pub new_containers-BecomesConfined :
      (cs : List (Container X)) → AllFree cs → Each BecomesConfined cs (new_containers unset cs).1
  unfolding new_containers
  new_containers-BecomesConfined [] free = done
  new_containers-BecomesConfined (c ∷ cs) (first, free) =
      more
        (
          first,
          ap (λ sc. record c { security_context = some sc })
              (new_context-confined c.security_context),
        )
        (new_containers-BecomesConfined cs free)

  pub new_containers-IsConfined :
      (cs : List (Container X)) → (new_containers unset cs).0 ≡ false → All IsConfined cs
  unfolding new_containers
  new_containers-IsConfined [] h = tt
  new_containers-IsConfined (c ∷ cs) h = (
    new_context-Says c.security_context (ground arith),
    new_containers-IsConfined cs (ground arith),
  )

  pub stays-BecomesConfined :
      (cs : List (Container X)) → AllFree cs → All IsConfined cs → Each BecomesConfined cs cs
  stays-BecomesConfined [] free said = done
  stays-BecomesConfined (c ∷ cs) (first, free) (says, said) =
      more
        (
          first,
          ap (λ o. record c { security_context = o }) (sym (same_context c.security_context says)),
        )
        (stays-BecomesConfined cs free said)
