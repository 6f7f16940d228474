-- ===== src/Selinux/Validate/Guarantees.antt =====
-- What the policy guarantees of the pods that it lets through.
use policies.Prelude.{
  ◌≡◌, ◌≢◌, ap, ◌∙◌, inl, inr, refl, Option, none, some, List, [], ◌∷◌, arith, ok, done, more, All,
  unwrap_or,
}
use policies.K8s.{Container, PodSpec, Pod, PodSecurityContext}
use policies.Sdk.{Response, accept, reject, mutate}
use policies.Selinux.Settings.{SeLinuxOptionsExternal, SeLinuxOptions, must_run_as, try_from}
use policies.Selinux.Settings.Conversion.{IsConverted, options_try_from-IsConverted}
use policies.Selinux.Validate.{
  SeLinuxError, validation_failed, default_pod_spec, by_options, by_default, by_change, do_validate,
  validate,
}
use policies.Selinux.Validate.Defaults.{
  options_of, pod_options_of, IsSettled, IsDefaultedPod, IsDefaultedContainer, wanted-IsSettled,
}
use policies.Selinux.Validate.Walk.{
  ClashesPodSpec, AreDefaulted, AreDefaultedIf, IsDefaultedPodSpec, pod_spec_cases,
}

module _ {X : Type 0} (external : SeLinuxOptionsExternal) where
  abbrev pub AreSettled : List (Container X) → Type 0
  AreSettled cs = All (λ c. IsSettled external (options_of c.security_context)) cs

  -- Every context of the pod has options that comply.
  pub record IsSettledPodSpec (p : PodSpec X) : Type 0 where
    pub context : IsSettled external (pod_options_of p.security_context)
    pub containers : AreSettled p.containers
    pub init_containers : AreSettled (unwrap_or [] p.init_containers)
    pub ephemeral_containers : AreSettled (unwrap_or [] p.ephemeral_containers)

module _ {X : Type 0} (unset : X) (external : SeLinuxOptionsExternal) where
  defaulted-IsSettled :
      (c c' : Container X)
      → IsDefaultedContainer unset external c c'
      → IsSettled external (options_of c'.security_context)
  defaulted-IsSettled c c' (inl (settled, same), _) = rw same settled
  defaulted-IsSettled c c' (inr (_, new), _) = rw new (wanted-IsSettled external)

  pod_defaulted-IsSettled :
      (o o' : Option (PodSecurityContext X))
      → IsDefaultedPod unset external o o'
      → IsSettled external (pod_options_of o')
  pod_defaulted-IsSettled o o' (inl (settled, same)) = rw same settled
  pod_defaulted-IsSettled o o' (inr (_, new)) = rw new (wanted-IsSettled external)

  defaulted-AreSettled :
      (cs cs' : List (Container X)) → AreDefaulted unset external cs cs' → AreSettled external cs'
  defaulted-AreSettled [] [] done = tt
  defaulted-AreSettled [] (c' ∷ cs') ds = elim ds [ ]
  defaulted-AreSettled (c ∷ cs) [] ds = elim ds [ ]
  defaulted-AreSettled (c ∷ cs) (c' ∷ cs') (more d ds) =
      (defaulted-IsSettled c c' d, defaulted-AreSettled cs cs' ds)

  defaulted_if-AreSettled :
      (cs cs' : Option (List (Container X)))
      → AreDefaultedIf unset external cs cs'
      → AreSettled external (unwrap_or [] cs')
  defaulted_if-AreSettled none none d = tt
  defaulted_if-AreSettled (some cs) (some cs') d = defaulted-AreSettled cs cs' d
  defaulted_if-AreSettled none (some cs') d = absurd d
  defaulted_if-AreSettled (some cs) none d = absurd d

  spec_defaulted-IsSettled :
      (p p' : PodSpec X) → IsDefaultedPodSpec unset external p p' → IsSettledPodSpec external p'
  spec_defaulted-IsSettled p p' d = record {
    context = pod_defaulted-IsSettled p.security_context p'.security_context d.context;
    containers = defaulted-AreSettled p.containers p'.containers d.containers;
    init_containers =
        defaulted_if-AreSettled p.init_containers p'.init_containers d.init_containers;
    ephemeral_containers =
        defaulted_if-AreSettled p.ephemeral_containers p'.ephemeral_containers
          d.ephemeral_containers;
  }

  module _ (eq : Discrete (PodSpec X)) (pod : Pod X) (p : PodSpec X) (has : pod.spec ≡ some p) where
    -- What the answer says of the pod, in each of its forms.
    abbrev pub Justified : Response SeLinuxError (Pod X) → Type 0
    Justified accept = IsSettledPodSpec external p
    Justified (mutate pod') =
        (p' : PodSpec X) × (pod' ≡ record pod { spec = some p' })
        × IsDefaultedPodSpec unset external p p'
        × IsSettledPodSpec external p'
        × (p ≢ p')
    Justified (reject reason) = ClashesPodSpec external p

    by_options-Justified :
        (expected : SeLinuxOptions)
        → IsConverted external expected
        → (r : Response SeLinuxError (Pod X)) × (by_options unset eq pod expected p ≡ r)
          × Justified r
    unfolding by_options by_default by_change
    by_options-Justified expected converted =
        elim (pod_spec_cases unset external expected converted p) [
          | inr (e, clash) ↦ (reject validation_failed, ap (by_default unset eq pod p) e, clash)
          | inl (p', e, d) ↦ decided p' e d (eq p p') refl
        ]
      where
        answers :
            {p' : PodSpec X} {same : Dec (p ≡ p')}
            → default_pod_spec unset expected p ≡ some p'
            → eq p p' ≡ same
            → by_options unset eq pod expected p ≡ by_change unset eq pod p p' same
        answers {p'} e chosen =
            ap (by_default unset eq pod p) e ∙ ap (by_change unset eq pod p p') chosen

        decided :
            (p' : PodSpec X)
            → default_pod_spec unset expected p ≡ some p'
            → IsDefaultedPodSpec unset external p p'
            → (same : Dec (p ≡ p')) → eq p p' ≡ same
            → (r : Response SeLinuxError (Pod X)) × (by_options unset eq pod expected p ≡ r)
              × Justified r
        decided p' e d (yes same) chosen =
            (accept, answers e chosen, rw same (spec_defaulted-IsSettled p p' d))
        decided p' e d (no other) chosen = (
          mutate (record pod { spec = some p' }),
          answers e chosen,
          (p', refl, d, spec_defaulted-IsSettled p p' d, other),
        )

    -- Under MustRunAs the policy answers for every pod with a specification, without an error or a
    -- panic. It accepts the pod only if every context, the pod's and those of the containers of all
    -- three kinds, has options that comply. It changes the pod only to one where they do: contexts
    -- that had options stay, the others get those of the settings, and nothing else changes. It
    -- rejects the pod only if some context has options that do not comply.
    pub validate-Justified :
        (r : Response SeLinuxError (Pod X)) × (validate unset eq (must_run_as external) (some pod)
          ≡ ok r)
        × Justified r
    unfolding validate do_validate try_from
    validate-Justified =
        let (expected, converts, converted) = options_try_from-IsConverted external in
        let (r, answered, justified) = by_options-Justified expected converted in
        (r, ground arith, justified)
