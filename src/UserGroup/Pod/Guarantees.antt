-- ===== src/UserGroup/Pod/Guarantees.antt =====
-- The whole policy: what holds of every container of a pod that is let through, and that the
-- policy answers.
use policies.Prelude.{
  ◌≡◌, ◌≢◌, refl, sym, ap, ◌∙◌, Bool, true, false, ℤ, pos, String, Option, none, some, arith, ok,
  Outcome, >>=-eq-ok, ◌⊎◌, inl, inr, unwrap_or, if◌then◌else◌,
}
use policies.K8s.{AllContainers, Container, PodSpec, SecurityContext}
use policies.Sdk.{accept, mutate, pod_spec}
use policies.UserGroup.Settings.{Settings, must_run_as, must_run_as_non_root, is_valid_id}
use policies.UserGroup.Settings.Validity.{AreProper}
use policies.UserGroup.Context.{container_context}
use policies.UserGroup.Enforce.{
  ImageConfiguration, ValidationError, enforce_run_as_user_rule, enforce_run_as_group,
}
use policies.UserGroup.Enforce.User.{
  settled, bind, enforce_run_as_user_rule-valid, enforce_run_as_user_rule-non_root,
}
use policies.UserGroup.Enforce.Group.{enforce_run_as_group-change}
use policies.UserGroup.Pod.{
  from_rule, image_config_of, set_container, enforce_container_security_policies, validate,
  PodError, Changed,
}
use policies.UserGroup.Pod.Walk.{validate-All}

module _ {X : Type 0} (s : Settings) where
  abbrev pub HasUserInRange : Container X → Type 0
  HasUserInRange c =
      (id : ℤ) × (bind c.security_context (λ sc. sc.run_as_user) ≡ some id)
      × (is_valid_id s.run_as_user id ≡ true)

module _ {X : Type 0} where
  abbrev pub IsNonRoot : Container X → Type 0
  IsNonRoot c =
      (sc : SecurityContext X) × (c.security_context ≡ some sc)
      × (sc.run_as_non_root ≡ some true)
      × (sc.run_as_user ≢ some (pos 0))

module _ {X H : Type 0} (unset : X) (fetch : String → H ⊎ ImageConfiguration) (s : Settings) where
  -- The parts of a container's walk.
  pub record Walked (c c' : Container X) (m : Bool) : Type 0 where
    pub config : Option ImageConfiguration
    pub user : Option (SecurityContext X)
    pub group : Option (SecurityContext X)
    pub user_rule :
        enforce_run_as_user_rule (container_context unset) s c.security_context config ≡ ok user
    pub group_rule :
        enforce_run_as_group (container_context unset) s (settled c.security_context user) config
        ≡ ok group
    pub context : c'.security_context ≡ settled (settled c.security_context user) group
    pub unchanged : m ≡ false → c' ≡ c

  set_container-context :
      (o : Option (SecurityContext X)) (q : Changed (Container X))
      → ((set_container unset fetch s o q).1.security_context ≡ settled q.1.security_context o)
        × ((set_container unset fetch s o q).0 ≡ false
            → (q.0 ≡ false) × (set_container unset fetch s o q ≡ q))
  unfolding set_container
  set_container-context none q = (refl, λ e. (e, refl))
  set_container-context (some sc) q = (refl, λ e. cc)

  from_rule-eq-ok :
      {A : Type 0} (r : Outcome ValidationError A) {a : A} → from_rule {H = H} r ≡ ok a → r ≡ ok a
  from_rule-eq-ok r h = ground arith

  -- Whatever group the rule writes, what does not depend on the group stays.
  group-keeps :
      {A : Type 0} (f : SecurityContext X → A) (context : Option (SecurityContext X))
      (config : Option ImageConfiguration) (out : Option (SecurityContext X)) {a : A}
      → ((v : Option ℤ) (c : SecurityContext X) → f (record c { run_as_group = v }) ≡ f c)
      → (c : SecurityContext X) → context ≡ some c
      → f c ≡ a
      → enforce_run_as_group (container_context unset) s context config ≡ ok out
      → (c' : SecurityContext X) × (settled context out ≡ some c') × (f c' ≡ a)
  group-keeps f context config out indep c e fa h =
      elim (enforce_run_as_group-change (container_context unset) s context config out h) [
        | inl same ↦ (c, rw same e, fa)
        | inr (id, new) ↦ (
          record (unwrap_or (container_context unset).default context) { run_as_group = some id },
          rw new,
          let same : unwrap_or (container_context unset).default context ≡ c = rw e in
              indep (some id) (unwrap_or (container_context unset).default context)
              ∙ ap f same
              ∙ fa,
        )
      ]

  group-keeps-user :
      (context : Option (SecurityContext X)) (config : Option ImageConfiguration)
      (out : Option (SecurityContext X)) (id : ℤ)
      → bind context (λ sc. sc.run_as_user) ≡ some id
      → enforce_run_as_group (container_context unset) s context config ≡ ok out
      → bind (settled context out) (λ sc. sc.run_as_user) ≡ some id
  group-keeps-user none config out id e h = cc
  group-keeps-user (some c) config out id e h =
      let (c', there, user) =
        group-keeps (λ sc. sc.run_as_user) (some c) config out (λ v d. refl) c refl e h in
      rw there user

  after :
      (c c' : Container X) (m : Bool) (config : Option ImageConfiguration)
      (user group : Option (SecurityContext X))
      → enforce_run_as_user_rule (container_context unset) s c.security_context config ≡ ok user
      → enforce_run_as_group
          (container_context unset)
          s
          (set_container unset fetch s user (false, c)).1.security_context
          config
        ≡ ok group
      → ◌≡◌ {A = Outcome (PodError H) (Changed (Container X))}
          (ok (set_container unset fetch s group (set_container unset fetch s user (false, c))))
          (ok (m, c'))
      → Walked c c' m
  after c c' m config user group u g h =
      let (first, first_same) = set_container-context user (false, c) in
      let (second, second_same) =
        set_container-context group (set_container unset fetch s user (false, c)) in
      record {
        config = config;
        user = user;
        group = group;
        user_rule = u;
        group_rule = rw (← first) g;
        context = ground arith;
        unchanged = λ e. ground arith;
      }

  walked :
      (c c' : Container X) (m : Bool)
      → enforce_container_security_policies unset fetch s c ≡ ok (m, c')
      → Walked c c' m
  unfolding enforce_container_security_policies
  walked c c' m h =
      let (config, read, h₁) =
        >>=-eq-ok
          (if s.validate_container_image_configuration
            then image_config_of unset fetch s c.image
            else ok none)
          _ h in
      let (user, u, h₂) =
        >>=-eq-ok
          (from_rule
            (enforce_run_as_user_rule (container_context unset) s c.security_context config))
          _ h₁ in
      let (group, g, h₃) =
        >>=-eq-ok
          (from_rule (
            enforce_run_as_group (container_context unset) s
              (set_container unset fetch s user (false, c)).1.security_context config))
          _ h₂ in
      after c c' m config user group (from_rule-eq-ok _ u) (from_rule-eq-ok _ g) h₃

  -- Under the rule MustRunAs and checked ranges, every container and init container of a pod that
  -- is accepted, or of the pod that replaces it, runs as a user inside of the ranges.
  pub validate-HasUserInRange :
      (p p' : PodSpec X)
      → s.run_as_user.rule ≡ must_run_as
      → AreProper s.run_as_user.ranges
      → (validate unset fetch s (pod_spec p) ≡ ok (mutate p'))
        ⊎ ((validate unset fetch s (pod_spec p) ≡ ok accept) × (p' ≡ p))
      → AllContainers (HasUserInRange s) p'
  validate-HasUserInRange p p' rule proper = validate-All unset fetch s (HasUserInRange s) each p p'
    where
      each :
          (c c' : Container X) (m : Bool)
          → enforce_container_security_policies unset fetch s c ≡ ok (m, c')
          → HasUserInRange s c' × (m ≡ false → c' ≡ c)
      each c c' m h =
          let w = walked c c' m h in
          let (id, user, valid, change) =
            enforce_run_as_user_rule-valid (container_context unset) s c.security_context w.config
              w.user rule proper w.user_rule in
          let kept = group-keeps-user _ w.config w.group id user w.group_rule in
          ((id, rw w.context kept, valid), w.unchanged)

  -- Under the rule MustRunAsNonRoot, every container and init container of a pod that is accepted,
  -- or of the pod that replaces it, has `runAsNonRoot: true` and no user that is root.
  pub validate-IsNonRoot :
      (p p' : PodSpec X)
      → s.run_as_user.rule ≡ must_run_as_non_root
      → (validate unset fetch s (pod_spec p) ≡ ok (mutate p'))
        ⊎ ((validate unset fetch s (pod_spec p) ≡ ok accept) × (p' ≡ p))
      → AllContainers IsNonRoot p'
  validate-IsNonRoot p p' rule = validate-All unset fetch s IsNonRoot each p p'
    where
      each :
          (c c' : Container X) (m : Bool)
          → enforce_container_security_policies unset fetch s c ≡ ok (m, c')
          → IsNonRoot c' × (m ≡ false → c' ≡ c)
      each c c' m h =
          let w = walked c c' m h in
          let (d, out, new, root, user, image) =
            enforce_run_as_user_rule-non_root (container_context unset) s c.security_context
              w.config w.user rule w.user_rule in
          let (c'', there, both) =
            group-keeps {A = Option Bool × Option ℤ} (λ sc. (sc.run_as_non_root, sc.run_as_user))
              (settled c.security_context w.user) w.config w.group (λ v e. refl) d (rw out) refl
              w.group_rule in
          (
            (
              c'',
              w.context ∙ there,
              ap (λ b. b.0) both ∙ root,
              λ e. user (sym (ap (λ b. b.1) both) ∙ e),
            ),
            w.unchanged,
          )
