-- ===== src/Signatures/Verify/Pods.antt =====
-- What the verification of a pod gives.
use policies.Prelude.{
  ◌≡◌, ◌↔◌, inl, inr, refl, sym, subst, Option, none, some, is_some, List, [], ◌∷◌, Outcome, ok,
  err, panic, All, Each, unwrap_or, Bool-cases, ◌||◌,
}
use policies.K8s.{Container, PodSpec}
use policies.TrustedRepos.Matchers.{Wild}
use policies.Signatures.Settings.{Signature}
use policies.Signatures.Verify.{
  Verifier, Failure, changed, verify_container_images, verify_optional_images, or_old, pod_with,
  verify_all_images_in_pod,
}
use policies.Signatures.Verify.Loops.{IsPinned, IsSigned, HasImage, verify_containers-IsPinned}

module _ {X : Type 0} where
  -- A property of all containers of the three kinds.
  abbrev pub AllThree : (Container X → Type 0) → PodSpec X → Type 0
  AllThree P p =
      All P p.containers
      × All P (unwrap_or [] p.init_containers)
      × All P (unwrap_or [] p.ephemeral_containers)

  abbrev pub EachOptional :
      (Container X → Container X → Type 0)
      → Option (List (Container X))
      → Option (List (Container X))
      → Type 0
  EachOptional R none none = Unit
  EachOptional R (some cs) (some cs') = Each R cs cs'
  EachOptional R o o' = ⊥

module _ {K KP W X : Type 0} (wild : Wild W) (host : Verifier K KP)
    (eq : Discrete (List (Container X))) (signatures : List (Signature K KP)) where
  -- The pod with its containers pinned, in their order, and all else as it was.
  abbrev pub IsPinnedPod : PodSpec X → PodSpec X → Type 0
  IsPinnedPod p p' =
      Each (IsPinned wild host) p.containers p'.containers
      × EachOptional (IsPinned wild host) p.init_containers p'.init_containers
      × EachOptional (IsPinned wild host) p.ephemeral_containers p'.ephemeral_containers
      × (p' ≡ record p {
        containers = p'.containers;
        init_containers = p'.init_containers;
        ephemeral_containers = p'.ephemeral_containers;
      })

  abbrev pub Concludes : PodSpec X → Outcome (List Failure) (Option (PodSpec X)) → Type 0
  Concludes p (ok none) = AllThree (IsSigned wild host signatures) p
  Concludes p (ok (some p')) = AllThree (IsSigned wild host signatures) p × IsPinnedPod p p'
  Concludes p (err errors) = (¬ (errors ≡ [])) × (¬ AllThree (IsSigned wild host signatures) p)
  Concludes p panic = ⊥

  changed_same :
      (cs cs' : List (Container X)) (d : Dec (cs ≡ cs'))
      → unwrap_or cs (changed wild host d cs') ≡ cs'
  unfolding changed
  changed_same cs cs' (yes same) = same
  changed_same cs cs' (no other) = refl

  verify_container_images-IsPinned :
      (cs : List (Container X)) (errors : List Failure)
      → All HasImage cs
      → (o : Option (List (Container X))) × (later : List Failure) × (verify_container_images wild
            host eq signatures cs errors
          ≡ ok (o, later))
        × Each (IsPinned wild host) cs (unwrap_or cs o)
        × ((later ≡ []) ↔ ((errors ≡ []) × All (IsSigned wild host signatures) cs))
  unfolding verify_container_images
  verify_container_images-IsPinned cs errors named =
      let (cs', later, run, pinned, free) =
        verify_containers-IsPinned wild host signatures cs errors named in
      (
        changed wild host (eq cs cs') cs',
        later,
        rw run refl,
        subst (Each (IsPinned wild host) cs) (sym (changed_same cs cs' (eq cs cs'))) pinned,
        free,
      )

  or_old-EachOptional :
      (cs : List (Container X)) (o : Option (List (Container X)))
      → Each (IsPinned wild host) cs (unwrap_or cs o)
      → EachOptional (IsPinned wild host) (some cs) (or_old wild host eq signatures o (some cs))
  unfolding or_old
  or_old-EachOptional cs none h = h
  or_old-EachOptional cs (some cs') h = h

  verify_optional_images-IsPinned :
      (old : Option (List (Container X))) (errors : List Failure)
      → All HasImage (unwrap_or [] old)
      → (o : Option (List (Container X))) × (later : List Failure) × (verify_optional_images wild
            host eq signatures old errors
          ≡ ok (o, later))
        × EachOptional (IsPinned wild host) old (or_old wild host eq signatures o old)
        × ((later ≡ []) ↔ ((errors ≡ []) × All (IsSigned wild host signatures) (unwrap_or [] old)))
  unfolding verify_optional_images or_old
  verify_optional_images-IsPinned none errors named =
      (none, errors, refl, tt, (λ h. (h, tt), λ h. h.0))
  verify_optional_images-IsPinned (some cs) errors named =
      let (o, later, run, pinned, free) = verify_container_images-IsPinned cs errors named in
      (o, later, run, or_old-EachOptional cs o pinned, free)

  pod_with-Concludes :
      (p : PodSpec X) (containers inits ephemerals : Option (List (Container X)))
      (errors : List Failure)
      → Each (IsPinned wild host) p.containers (unwrap_or p.containers containers)
      → EachOptional
          (IsPinned wild host)
          p.init_containers
          (or_old wild host eq signatures inits p.init_containers)
      → EachOptional
          (IsPinned wild host)
          p.ephemeral_containers
          (or_old wild host eq signatures ephemerals p.ephemeral_containers)
      → (errors ≡ []) ↔ AllThree (IsSigned wild host signatures) p
      → Concludes p (pod_with wild host eq signatures p containers inits ephemerals errors)
  unfolding pod_with
  pod_with-Concludes p containers inits ephemerals (e ∷ errors) a b c free =
      (λ h. cc h, λ signed. cc (free.1 signed))
  pod_with-Concludes p containers inits ephemerals [] a b c free =
      elim (Bool-cases (is_some containers || (is_some inits || is_some ephemerals))) [
        | inl some_ ↦ rw some_ (free.0 refl, (a, b, c, refl))
        | inr none_ ↦ rw none_ (free.0 refl)
      ]

  -- Where all containers of the three kinds have an image, a pod is verified without a panic.
  pub verify_all_images_in_pod-Concludes :
      (p : PodSpec X)
      → AllThree HasImage p
      → Concludes p (verify_all_images_in_pod wild host eq signatures p)
  unfolding verify_all_images_in_pod
  verify_all_images_in_pod-Concludes p (named, named_inits, named_ephemerals) =
      let (containers, first, run, pinned, free) =
        verify_container_images-IsPinned p.containers [] named in
      let (inits, second, run_inits, pinned_inits, free_inits) =
        verify_optional_images-IsPinned p.init_containers first named_inits in
      let (ephemerals, errors, run_ephemerals, pinned_ephemerals, free_ephemerals) =
        verify_optional_images-IsPinned p.ephemeral_containers second named_ephemerals in
      rw (run, run_inits, run_ephemerals)
        (pod_with-Concludes p containers inits ephemerals errors pinned pinned_inits
          pinned_ephemerals
          (
            λ h.
                let (a, x) = free_ephemerals.0 h in
                let (b, y) = free_inits.0 a in ((free.0 b).1, y, x),
            λ (x, y, z). free_ephemerals.1 (free_inits.1 (free.1 (refl, x), y), z),
          ))
