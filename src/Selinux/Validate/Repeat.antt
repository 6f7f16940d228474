-- ===== src/Selinux/Validate/Repeat.antt =====
-- That the policy leaves alone what it has changed.
use policies.Prelude.{
  ◌≡◌, ◌≢◌, ◌↔◌, inl, inr, refl, sym, ap, Option, none, some, List, [], ◌∷◌, ok, done, more, Any,
  here, there, unwrap_or,
}
use policies.K8s
use policies.K8s.{Container, PodSpec, Pod, SecurityContext, PodSecurityContext}
use policies.Sdk.{Response, accept, reject, mutate}
use policies.Selinux.Settings.{SeLinuxOptionsExternal, must_run_as}
use policies.Selinux.Validate.{SeLinuxError, validate}
use policies.Selinux.Validate.Defaults.{
  options_of, pod_options_of, IsSettled, Clashes, IsDefaultedPod, IsDefaultedContainer,
}
use policies.Selinux.Validate.Walk.{
  ClashesContainer, ClashesPodSpec, AreDefaulted, AreDefaultedIf, IsDefaultedPodSpec,
}
use policies.Selinux.Validate.Guarantees.{
  AreSettled, IsSettledPodSpec, Justified, validate-Justified,
}

module _ (external : SeLinuxOptionsExternal) where
  settled-ne-none : (o : Option K8s.SeLinuxOptions) → IsSettled external o → o ≢ none
  settled-ne-none o (options, set, _) = λ missing. cc (set, missing)

  settled-not-Clashes :
      (o : Option K8s.SeLinuxOptions) → IsSettled external o → ¬ Clashes external o
  settled-not-Clashes o (options, set, complies) = λ (options', set', other).
      let same : options' ≡ options = cc (set, set') in other (rw same complies)

module _ {X : Type 0} (external : SeLinuxOptionsExternal) where
  settled_containers-not-Clashes :
      (cs : List (Container X)) → AreSettled external cs → ¬ Any (ClashesContainer external) cs
  settled_containers-not-Clashes [] s = λ clash. elim clash [ ]
  settled_containers-not-Clashes (c ∷ cs) (s, ss) = λ clash. elim clash [
    | here first ↦ settled-not-Clashes external (options_of c.security_context) s first
    | there later ↦ settled_containers-not-Clashes cs ss later
  ]

  settled_spec-not-Clashes :
      (p : PodSpec X) → IsSettledPodSpec external p → ¬ ClashesPodSpec external p
  settled_spec-not-Clashes p s = λ clash. elim clash [
    | inl c ↦ settled-not-Clashes external (pod_options_of p.security_context) s.context c
    | inr (inl c) ↦ settled_containers-not-Clashes p.containers s.containers c
    | inr (inr (inl c)) ↦
        settled_containers-not-Clashes (unwrap_or [] p.init_containers) s.init_containers c
    | inr (inr (inr c)) ↦
        settled_containers-not-Clashes (unwrap_or [] p.ephemeral_containers) s.ephemeral_containers
          c
  ]

module _ {X : Type 0} (unset : X) (external : SeLinuxOptionsExternal) where
  same_container :
      (c c' : Container X)
      → IsDefaultedContainer unset external c c'
      → IsSettled external (options_of c.security_context)
      → c ≡ c'
  same_container c c' (inl (_, same), only) s = cc (same, only)
  same_container c c' (inr (missing, _), only) s =
      absurd (settled-ne-none external (options_of c.security_context) s missing)

  same_context :
      (o o' : Option (PodSecurityContext X))
      → IsDefaultedPod unset external o o'
      → IsSettled external (pod_options_of o)
      → o ≡ o'
  same_context o o' (inl (_, same)) s = sym same
  same_context o o' (inr (missing, _)) s =
      absurd (settled-ne-none external (pod_options_of o) s missing)

  same_containers :
      (cs cs' : List (Container X))
      → AreDefaulted unset external cs cs'
      → AreSettled external cs
      → cs ≡ cs'
  same_containers [] [] done s = refl
  same_containers [] (c' ∷ cs') ds s = elim ds [ ]
  same_containers (c ∷ cs) [] ds s = elim ds [ ]
  same_containers (c ∷ cs) (c' ∷ cs') (more d ds) (s, ss) =
      cc (same_container c c' d s, same_containers cs cs' ds ss)

  same_optional :
      (cs cs' : Option (List (Container X)))
      → AreDefaultedIf unset external cs cs'
      → AreSettled external (unwrap_or [] cs)
      → cs ≡ cs'
  same_optional none none d s = refl
  same_optional (some cs) (some cs') d s = ap some (same_containers cs cs' d s)
  same_optional none (some cs') d s = absurd d
  same_optional (some cs) none d s = absurd d

  same_spec :
      (p p' : PodSpec X)
      → IsDefaultedPodSpec unset external p p'
      → IsSettledPodSpec external p
      → p ≡ p'
  same_spec p p' d s = cc (
    d.rest,
    same_context p.security_context p'.security_context d.context s.context,
    same_containers p.containers p'.containers d.containers s.containers,
    same_optional p.init_containers p'.init_containers d.init_containers s.init_containers,
    same_optional p.ephemeral_containers p'.ephemeral_containers d.ephemeral_containers
        s.ephemeral_containers,
  )

  -- A pod whose contexts all have options that comply is accepted as it is.
  settled-accept :
      (eq : Discrete (PodSpec X)) (pod : Pod X) (p : PodSpec X) (has : pod.spec ≡ some p)
      → IsSettledPodSpec external p
      → validate unset eq (must_run_as external) (some pod) ≡ ok accept
  settled-accept eq pod p has s = by_response (validate-Justified unset external eq pod p has)
    where
      by_response :
          ((r : Response SeLinuxError (Pod X)) × (validate unset eq
                (must_run_as external)
                (some pod)
              ≡ ok r)
            × Justified unset external eq pod p has r)
          → validate unset eq (must_run_as external) (some pod) ≡ ok accept
      by_response (accept, e, _) = e
      by_response (reject reason, e, clash) = absurd (settled_spec-not-Clashes external p s clash)
      by_response (mutate pod', e, (p', _, d, _, other)) = absurd (other (same_spec p p' d s))

  -- Under MustRunAs the policy accepts exactly the pods whose contexts all have options that
  -- comply, the pod's own and those of the containers of all three kinds.
  pub validate-IsSettledPodSpec_iff :
      (eq : Discrete (PodSpec X)) (pod : Pod X) (p : PodSpec X)
      → pod.spec ≡ some p
      → (validate unset eq (must_run_as external) (some pod) ≡ ok accept)
        ↔ IsSettledPodSpec external p
  validate-IsSettledPodSpec_iff eq pod p has =
      (by_response (validate-Justified unset external eq pod p has), settled-accept eq pod p has)
    where
      by_response :
          ((r : Response SeLinuxError (Pod X)) × (validate unset eq
                (must_run_as external)
                (some pod)
              ≡ ok r)
            × Justified unset external eq pod p has r)
          → validate unset eq (must_run_as external) (some pod) ≡ ok accept
          → IsSettledPodSpec external p
      by_response (accept, e, s) e' = s
      by_response (reject reason, e, clash) e' = cc (e, e')
      by_response (mutate pod', e, _) e' = cc (e, e')

  -- Under MustRunAs the policy accepts, without another change, every pod that it has changed.
  pub validate_again :
      (eq : Discrete (PodSpec X)) (pod : Pod X) (p : PodSpec X) (pod' : Pod X)
      → pod.spec ≡ some p
      → validate unset eq (must_run_as external) (some pod) ≡ ok (mutate pod')
      → validate unset eq (must_run_as external) (some pod') ≡ ok accept
  validate_again eq pod p pod' has changed =
      by_response (validate-Justified unset external eq pod p has)
    where
      by_response :
          ((r : Response SeLinuxError (Pod X)) × (validate unset eq
                (must_run_as external)
                (some pod)
              ≡ ok r)
            × Justified unset external eq pod p has r)
          → validate unset eq (must_run_as external) (some pod') ≡ ok accept
      by_response (accept, e, _) = cc (e, changed)
      by_response (reject reason, e, _) = cc (e, changed)
      by_response (mutate pod1, e, (p1, new, _, s, _)) =
          let same : pod' ≡ record pod { spec = some p1 } = cc (e, changed, new) in
          settled-accept eq pod' p1 (ap (λ x. x.spec) same) s
