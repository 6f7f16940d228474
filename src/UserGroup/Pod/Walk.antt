-- ===== src/UserGroup/Pod/Walk.antt =====
-- What holds of every container that the walk lets through.
use policies.Prelude.{
  ◌≡◌, refl, Outcome, Bool, true, false, ◌||◌, Option, none, some, List, [], ◌∷◌, arith, ok, err,
  panic, inl, inr, ap, String, ◌⊎◌, >>=-eq-ok, All, unwrap_or,
}
use policies.K8s.{AllContainers, Container, PodSpec, PodSecurityContext}
use policies.Sdk.{accept, mutate, pod_spec}
use policies.UserGroup.Settings.{Settings}
use policies.UserGroup.Enforce.{ImageConfiguration, enforce_supplemental_groups}
use policies.UserGroup.Pod.{
  from_rule, enforce_container_security_policies, enforce_containers, enforce_init_containers,
  enforce_pod_spec_if, enforce_pod_spec_security_policies, enforce_pod, set_pod, validate, answer,
  Changed, PodError,
}

module _ {X H : Type 0} (P : Container X → Type 0) where
  cons-All :
      {c c' : Container X} {cs cs' ds : List (Container X)} {m n k : Bool}
      → P c'
      → (m ≡ false → c' ≡ c)
      → All P cs'
      → (n ≡ false → cs' ≡ cs)
      → ◌≡◌ {A = Outcome (PodError H) (Changed (List (Container X)))}
          (ok (m || n, c' ∷ cs'))
          (ok (k, ds))
      → All P ds × (k ≡ false → ds ≡ c ∷ cs)
  cons-All {c'} {cs'} {ds} p same ps sames h =
      let e : ds ≡ c' ∷ cs' = ground arith in (rw e (p, ps), λ z. ground arith)

  some-All :
      {cs cs' : List (Container X)} {ds : Option (List (Container X))} {m k : Bool}
      → All P cs' × (m ≡ false → cs' ≡ cs)
      → ◌≡◌ {A = Outcome (PodError H) (Changed (Option (List (Container X))))}
          (ok (m, some cs'))
          (ok (k, ds))
      → All P (unwrap_or [] ds) × (k ≡ false → ds ≡ some cs)
  some-All {cs'} {ds} (ps, same) h =
      let e : ds ≡ some cs' = ground arith in (rw e ps, λ z. ground arith)

module _ {X : Type 0} where
  set_pod-keeps :
      {H : Type 0} (unset : X) (fetch : String → H ⊎ ImageConfiguration) (s : Settings)
      (o : Option (PodSecurityContext X)) (q : Changed (PodSpec X))
      → ((set_pod unset fetch s o q).1.containers ≡ q.1.containers)
        × ((set_pod unset fetch s o q).1.init_containers ≡ q.1.init_containers)
        × ((set_pod unset fetch s o q).0 ≡ false → (q.0 ≡ false) × (set_pod unset fetch s o q ≡ q))
  unfolding set_pod
  set_pod-keeps unset fetch s none q = (refl, refl, λ e. (e, refl))
  set_pod-keeps unset fetch s (some c) q = (refl, refl, λ e. cc)

module _ {X H : Type 0} (unset : X) (fetch : String → H ⊎ ImageConfiguration) (s : Settings) where
  answer-mutate :
      (r : Outcome (PodError H) (Changed (PodSpec X))) {p : PodSpec X}
      → answer unset fetch s r ≡ ok (mutate p)
      → r ≡ ok (true, p)
  unfolding answer
  answer-mutate r h = ground arith

  answer-accept :
      (r : Outcome (PodError H) (Changed (PodSpec X)))
      → answer unset fetch s r ≡ ok accept
      → (p : PodSpec X) × (r ≡ ok (false, p))
  unfolding answer
  answer-accept (ok (false, p)) h = (p, refl)
  answer-accept (ok (true, p)) h = cc
  answer-accept (err e) h = cc
  answer-accept panic h = cc

module _ {X H : Type 0} (unset : X) (fetch : String → H ⊎ ImageConfiguration) (s : Settings) where
  enforce_pod_spec-keeps :
      (p : PodSpec X) (r : Changed (PodSpec X))
      → enforce_pod_spec_security_policies unset fetch s p ≡ ok r
      → (r.1.containers ≡ p.containers) × (r.1.init_containers ≡ p.init_containers)
  unfolding enforce_pod_spec_security_policies set_pod
  enforce_pod_spec-keeps p r h = ground arith

  enforce_pod_spec_if-keeps :
      (q r : Changed (PodSpec X))
      → enforce_pod_spec_if unset fetch s q ≡ ok r
      → (r.1.containers ≡ q.1.containers)
        × (r.1.init_containers ≡ q.1.init_containers)
        × (r.0 ≡ q.0)
        × (q.0 ≡ false → r ≡ q)
  unfolding enforce_pod_spec_if
  enforce_pod_spec_if-keeps (false, p) r h = ground arith
  enforce_pod_spec_if-keeps (true, p) r h =
      let (t, run, h') = >>=-eq-ok (enforce_pod_spec_security_policies unset fetch s p) _ h in
      ground (arith, enforce_pod_spec-keeps p t run)

module _ {X H : Type 0} (unset : X) (fetch : String → H ⊎ ImageConfiguration) (s : Settings)
    (P : Container X → Type 0)
    (each : (c c' : Container X) (m : Bool)
      → enforce_container_security_policies unset fetch s c ≡ ok (m, c')
      → P c' × (m ≡ false → c' ≡ c)) where
  pod-All :
      (p p' : PodSpec X) (m : Bool) (i : Changed (Option (List (Container X))))
      (c : Changed (List (Container X))) (q : Changed (PodSpec X))
      (g : Option (PodSecurityContext X))
      → All P c.1 × (c.0 ≡ false → c.1 ≡ p.containers)
      → All P (unwrap_or [] i.1) × (i.0 ≡ false → i.1 ≡ p.init_containers)
      → (q.1.containers ≡ c.1)
        × (q.1.init_containers ≡ i.1)
        × (q.0 ≡ (i.0 || c.0))
        × ((i.0 || c.0) ≡ false
            → q ≡ (i.0 || c.0, record p { init_containers = i.1; containers = c.1 }))
      → ◌≡◌ {A = Outcome (PodError H) (Changed (PodSpec X))}
          (ok (set_pod unset fetch s g q))
          (ok (m, p'))
      → AllContainers P p' × (m ≡ false → p' ≡ p)
  pod-All p p' m i c q g (ps, same_cs) (qs, same_inits) (keep_cs, keep_inits, flag, same) h =
      let (cs, inits, flags) = set_pod-keeps unset fetch s g q in
      let e : set_pod unset fetch s g q ≡ (m, p') = cc in
      (
        (
          rw (← ap (λ r. r.1.containers) e, cs, keep_cs) ps,
          rw (← ap (λ r. r.1.init_containers) e, inits, keep_inits) qs,
        ),
        λ z. ground arith,
      )

  enforce_containers-All :
      (cs cs' : List (Container X)) (m : Bool)
      → enforce_containers unset fetch s cs ≡ ok (m, cs')
      → All P cs' × (m ≡ false → cs' ≡ cs)
  unfolding enforce_containers
  enforce_containers-All [] [] m h = (tt, λ e. refl)
  enforce_containers-All [] (c' ∷ cs') m h = cc
  enforce_containers-All (c ∷ cs) cs' m h =
      let (r, first, h') = >>=-eq-ok (enforce_container_security_policies unset fetch s c) _ h in
      let (rs, rest, h'') = >>=-eq-ok (enforce_containers unset fetch s cs) _ h' in
      let (p, same) = each c r.1 r.0 first in
      let (ps, sames) = enforce_containers-All cs rs.1 rs.0 rest in cons-All P p same ps sames h''

  enforce_init_containers-All :
      (cs cs' : Option (List (Container X))) (m : Bool)
      → enforce_init_containers unset fetch s cs ≡ ok (m, cs')
      → All P (unwrap_or [] cs') × (m ≡ false → cs' ≡ cs)
  unfolding enforce_init_containers
  enforce_init_containers-All none none m h = (tt, λ e. refl)
  enforce_init_containers-All none (some cs') m h = cc
  enforce_init_containers-All (some cs) cs' m h =
      let (r, walk, h') = >>=-eq-ok (enforce_containers unset fetch s cs) _ h in
      some-All P (enforce_containers-All cs r.1 r.0 walk) h'

  enforce_pod-All :
      (p p' : PodSpec X) (m : Bool)
      → enforce_pod unset fetch s p ≡ ok (m, p')
      → AllContainers P p' × (m ≡ false → p' ≡ p)
  unfolding enforce_pod
  enforce_pod-All p p' m h =
      let (i, inits, h₁) =
        >>=-eq-ok (enforce_init_containers unset fetch s p.init_containers) _ h in
      let (c, cs, h₂) = >>=-eq-ok (enforce_containers unset fetch s p.containers) _ h₁ in
      let (q, pod, h₃) =
        >>=-eq-ok
          (enforce_pod_spec_if unset fetch s
            (i.0 || c.0, record p { init_containers = i.1; containers = c.1 }))
          _ h₂ in
      let (g, groups, h₄) =
        >>=-eq-ok (from_rule {H = H} (enforce_supplemental_groups unset s q.1.security_context)) _
          h₃ in
      pod-All p p' m i c q g (enforce_containers-All p.containers c.1 c.0 cs)
        (enforce_init_containers-All p.init_containers i.1 i.0 inits)
        (enforce_pod_spec_if-keeps unset fetch s _ _ pod) h₄

  -- Whatever the answer lets through has the property in every container: the pod itself if it is
  -- accepted as it is, or the one that replaces it.
  pub validate-All :
      (p p' : PodSpec X)
      → (validate unset fetch s (pod_spec p) ≡ ok (mutate p'))
        ⊎ ((validate unset fetch s (pod_spec p) ≡ ok accept) × (p' ≡ p))
      → AllContainers P p'
  unfolding validate
  validate-All p p' h = elim h [
    | inl mutated ↦ (enforce_pod-All p p' true (answer-mutate unset fetch s _ mutated)).0
    | inr (accepted, same) ↦
        let (q, run) = answer-accept unset fetch s _ accepted in
        let (ps, same_pod) = enforce_pod-All p q false run in rw (same, ← same_pod refl) ps
  ]
