-- ===== src/Selinux/Validate/Walk.antt =====
-- What the policy makes of all the containers of a pod under MustRunAs.
use policies.Prelude.{
  ◌≡◌, ◌⊎◌, inl, inr, refl, Option, none, some, List, [], ◌∷◌, arith, Each, done, more, Any, here,
  there, unwrap_or,
}
use policies.K8s.{Container, PodSpec}
use policies.Selinux.Settings.{SeLinuxOptionsExternal, SeLinuxOptions}
use policies.Selinux.Settings.Conversion.{IsConverted}
use policies.Selinux.Validate.{cons_if, default_containers, default_optional, default_pod_spec}
use policies.Selinux.Validate.Defaults.{
  options_of, pod_options_of, Clashes, IsDefaultedPod, IsDefaultedContainer, pod_context_cases,
  container_cases,
}

module _ {X : Type 0} (external : SeLinuxOptionsExternal) where
  abbrev pub ClashesContainer : Container X → Type 0
  ClashesContainer c = Clashes external (options_of c.security_context)

  -- Some context of the pod has options that do not comply.
  abbrev pub ClashesPodSpec : PodSpec X → Type 0
  ClashesPodSpec p =
      Clashes external (pod_options_of p.security_context)
      ⊎ Any ClashesContainer p.containers
      ⊎ Any ClashesContainer (unwrap_or [] p.init_containers)
      ⊎ Any ClashesContainer (unwrap_or [] p.ephemeral_containers)

module _ {X : Type 0} (unset : X) (external : SeLinuxOptionsExternal) where
  abbrev pub AreDefaulted : List (Container X) → List (Container X) → Type 0
  AreDefaulted = Each (IsDefaultedContainer unset external)

  abbrev pub AreDefaultedIf : Option (List (Container X)) → Option (List (Container X)) → Type 0
  AreDefaultedIf none none = Unit
  AreDefaultedIf (some cs) (some cs') = AreDefaulted cs cs'
  AreDefaultedIf cs cs' = ⊥

  -- The pod with every context defaulted, and nothing else changed.
  pub record IsDefaultedPodSpec (p p' : PodSpec X) : Type 0 where
    pub context : IsDefaultedPod unset external p.security_context p'.security_context
    pub containers : AreDefaulted p.containers p'.containers
    pub init_containers : AreDefaultedIf p.init_containers p'.init_containers
    pub ephemeral_containers : AreDefaultedIf p.ephemeral_containers p'.ephemeral_containers
    pub rest : p' ≡ record p {
      containers = p'.containers;
      init_containers = p'.init_containers;
      ephemeral_containers = p'.ephemeral_containers;
      security_context = p'.security_context;
    }

  module _ (expected : SeLinuxOptions) (converted : IsConverted external expected) where
    containers_cases :
        (cs : List (Container X))
        → ((cs' : List (Container X)) × (default_containers unset expected cs ≡ some cs')
            × AreDefaulted cs cs')
          ⊎ ((default_containers unset expected cs ≡ none) × Any (ClashesContainer external) cs)
    unfolding default_containers cons_if
    containers_cases [] = inl ([], refl, done)
    containers_cases (c ∷ cs) = elim (container_cases unset external expected converted c) [
      | inr (e, clashes) ↦ inr (ground arith, here clashes)
      | inl (c', e, defaulted) ↦ elim (containers_cases cs) [
        | inr (es, clash) ↦ inr (ground arith, there clash)
        | inl (cs', es, all) ↦ inl (c' ∷ cs', ground arith, more defaulted all)
      ]
    ]

    optional_cases :
        (cs : Option (List (Container X)))
        → ((cs' : Option (List (Container X))) × (default_optional unset expected cs ≡ some cs')
            × AreDefaultedIf cs cs')
          ⊎ ((default_optional unset expected cs ≡ none)
              × Any (ClashesContainer external) (unwrap_or [] cs))
    unfolding default_optional
    optional_cases none = inl (none, refl, tt)
    optional_cases (some cs) = elim (containers_cases cs) [
      | inr (e, clash) ↦ inr (ground arith, clash)
      | inl (cs', e, all) ↦ inl (some cs', ground arith, all)
    ]

    pub pod_spec_cases :
        (p : PodSpec X)
        → ((p' : PodSpec X) × (default_pod_spec unset expected p ≡ some p')
            × IsDefaultedPodSpec p p')
          ⊎ ((default_pod_spec unset expected p ≡ none) × ClashesPodSpec external p)
    unfolding default_pod_spec
    pod_spec_cases p =
        elim (pod_context_cases unset external expected converted p.security_context) [
          | inr (e, clash) ↦ inr (ground arith, inl clash)
          | inl (context, e, defaulted) ↦ elim (containers_cases p.containers) [
            | inr (e1, clash) ↦ inr (ground arith, inr (inl clash))
            | inl (containers, e1, all1) ↦ elim (optional_cases p.init_containers) [
              | inr (e2, clash) ↦ inr (ground arith, inr (inr (inl clash)))
              | inl (inits, e2, all2) ↦ elim (optional_cases p.ephemeral_containers) [
                | inr (e3, clash) ↦ inr (ground arith, inr (inr (inr clash)))
                | inl (ephemerals, e3, all3) ↦ inl (
                  record p {
                    containers = containers;
                    init_containers = inits;
                    ephemeral_containers = ephemerals;
                    security_context = context;
                  },
                  ground arith,
                  record {
                    context = defaulted;
                    containers = all1;
                    init_containers = all2;
                    ephemeral_containers = all3;
                    rest = refl;
                  },
                )
              ]
            ]
          ]
        ]
