-- ===== src/Seccomp/Validate/Accepts.antt =====
-- Which pods the policy accepts.
use text.Mathlib.Text.{starts_with}
use text.Mathlib.TextEquality.{starts_with_iff}
use policies.Prelude.{
  ++-eq-nil_iff, Option-cases, Bool-cases, eq_iff, ◌+++◌, ◌⊎◌, ◌≡◌, ◌↔◌, inl, inr, refl, true, ◌&&◌,
  Option, none, some, List, [], ◌∷◌, ◌++◌, if◌then◌else◌, String, arith, ok, err, panic, Outcome,
  ◌>>=◌, ◌∈◌, All, unwrap_or, is_empty,
}
use policies.K8s.{SeccompProfile, SecurityContext, PodSecurityContext, Container, PodSpec, Pod}
use policies.Sdk.{accept}
use policies.Seccomp.Settings.{Settings}
use policies.Seccomp.Validate.{
  SeccompError, container_violations, is_seccomp_annotation, invalid_annotations,
  do_validate_annotations, profile_of, check_container, check_containers, do_validate_containers,
  profile_of_pod, pod_profile, do_validate_pod_security_context, violation, optional_containers,
  spec_violations, do_validate,
}
use policies.Seccomp.Validate.Profiles.{IsAllowedProfile, check_profile_iff, pod_profile_iff}

-- A profile that is set is allowed.
abbrev pub IsFine : Settings → Option SeccompProfile → Type 0
IsFine s none = Unit
IsFine s (some p) = IsAllowedProfile s p

-- The two forms of keys that set a profile: of a container, and of the pod.
abbrev pub SetsProfile : String → Type 0
SetsProfile key =
    ((rest : String) × ("container.seccomp.security.alpha.kubernetes.io" +++ rest ≡ key))
    ⊎ (key ≡ "seccomp.security.alpha.kubernetes.io/pod")

abbrev pub IsFineAnnotation : Settings → String × String → Type 0
IsFineAnnotation s a = SetsProfile a.0 → a.1 ∈ s.allowed_profiles

is_seccomp_annotation_iff : (key : String) → (is_seccomp_annotation key ≡ true) ↔ SetsProfile key
unfolding is_seccomp_annotation
is_seccomp_annotation_iff key =
    let starts = starts_with_iff key "container.seccomp.security.alpha.kubernetes.io" in
    let same = eq_iff key "seccomp.security.alpha.kubernetes.io/pod" in
    (
      λ h. elim (Bool-cases (starts_with key "container.seccomp.security.alpha.kubernetes.io")) [
        | inl prefixed ↦ inl (starts.0 prefixed)
        | inr other ↦ inr (same.0 (ground arith))
      ],
      λ h. elim h [
        | inl prefixed ↦ let is_prefixed = starts.1 prefixed in ground arith
        | inr pod_key ↦ let is_same = same.1 pod_key in ground arith
      ],
    )

invalid_annotations_iff :
    (s : Settings) (l : List (String × String))
    → (is_empty (invalid_annotations s l) ≡ true) ↔ All (IsFineAnnotation s) l
unfolding invalid_annotations
invalid_annotations_iff s [] = (λ _. tt, λ _. refl)
invalid_annotations_iff s ((a, p) ∷ l) =
    let rest = invalid_annotations_iff s l in
    let sets = is_seccomp_annotation_iff a in
    (
      λ h. ((λ set. let is_set = sets.1 set in ground arith), rest.0 (ground arith)),
      λ (first, fine). elim (Bool-cases (is_seccomp_annotation a)) [
        | inl is_set ↦ let listed = first (sets.0 is_set) in ground (arith, rest.1 fine)
        | inr other ↦ ground (arith, rest.1 fine)
      ],
    )

check_container_iff :
    (s : Settings) (o : Option SeccompProfile) → (check_container s o ≡ ok ([], [])) ↔ IsFine s o
unfolding check_container
check_container_iff s none = (λ _. tt, λ _. refl)
check_container_iff s (some p) = check_profile_iff s p

pod_context_iff :
    (s : Settings) (o : Option SeccompProfile) → (pod_profile s o ≡ ok tt) ↔ IsFine s o
unfolding pod_profile
pod_context_iff s none = (λ _. tt, λ _. refl)
pod_context_iff s (some p) = pod_profile_iff s p

violation-eq-nil_iff : (r : Outcome SeccompError (Unit {0})) → (violation r ≡ ok []) ↔ (r ≡ ok tt)
unfolding violation
violation-eq-nil_iff r = ground arith

abbrev answer : Outcome SeccompError (List String × List String) → Outcome SeccompError (Unit {0})
answer r = do
  found ← r
  if is_empty found.0 && is_empty found.1 then ok tt else err (container_violations found.0 found.1)

answers_iff :
    (r : Outcome SeccompError (List String × List String)) → (answer r ≡ ok tt) ↔ (r ≡ ok ([], []))
answers_iff panic = (λ h. cc, λ h. cc)
answers_iff (err e) = (λ h. cc, λ h. cc)
answers_iff (ok ([], [])) = (λ _. refl, λ _. refl)
answers_iff (ok ([], x ∷ profiles)) = (λ h. cc, λ h. cc)
answers_iff (ok (x ∷ types, profiles)) = (λ h. cc, λ h. cc)

abbrev chain :
    (a b c d : Outcome SeccompError (List SeccompError)) → Outcome SeccompError (List SeccompError)
chain a b c d = do
  context ← a
  containers ← b
  inits ← c
  ephemerals ← d
  ok (context ++ (containers ++ (inits ++ ephemerals)))

chain_iff :
    (a b c d : Outcome SeccompError (List SeccompError))
    → (chain a b c d ≡ ok []) ↔ ((a ≡ ok []) × (b ≡ ok []) × (c ≡ ok []) × (d ≡ ok []))
chain_iff panic b c d = (λ h. cc, λ h. cc (h.0))
chain_iff (err e) b c d = (λ h. cc, λ h. cc (h.0))
chain_iff (ok _) panic c d = (λ h. cc, λ h. cc (h.1))
chain_iff (ok _) (err e) c d = (λ h. cc, λ h. cc (h.1))
chain_iff (ok _) (ok _) panic d = (λ h. cc, λ h. cc (h.2))
chain_iff (ok _) (ok _) (err e) d = (λ h. cc, λ h. cc (h.2))
chain_iff (ok _) (ok _) (ok _) panic = (λ h. cc, λ h. cc (h.3))
chain_iff (ok _) (ok _) (ok _) (err e) = (λ h. cc, λ h. cc (h.3))
chain_iff (ok a) (ok b) (ok c) (ok d) =
    ground (arith, ++-eq-nil_iff a (b ++ (c ++ d)), ++-eq-nil_iff b (c ++ d), ++-eq-nil_iff c d)

module _ {X : Type 0} (s : Settings) where
  -- The profile of a security context, if both are there, is allowed.
  abbrev pub IsFineContext : Option (SecurityContext X) → Type 0
  IsFineContext none = Unit
  IsFineContext (some sc) = IsFine s sc.seccomp_profile

  abbrev pub IsFinePodContext : Option (PodSecurityContext X) → Type 0
  IsFinePodContext none = Unit
  IsFinePodContext (some sc) = IsFine s sc.seccomp_profile

  abbrev pub AreFine : List (Container X) → Type 0
  AreFine cs = All (λ c. IsFineContext c.security_context) cs

  check_context_iff :
      (c : Container X)
      → (check_container s (profile_of c) ≡ ok ([], [])) ↔ IsFineContext c.security_context
  unfolding profile_of
  check_context_iff c = elim (Option-cases c.security_context) [
    | inl missing ↦ rw (missing, profile_of, IsFineContext) (check_container_iff s none)
    | inr (sc, has) ↦ rw (has, profile_of, IsFineContext) (check_container_iff s sc.seccomp_profile)
  ]

  pod_profile_of_iff :
      (p : PodSpec X)
      → (pod_profile s (profile_of_pod p) ≡ ok tt) ↔ IsFinePodContext p.security_context
  unfolding profile_of_pod
  pod_profile_of_iff p = elim (Option-cases p.security_context) [
    | inl missing ↦ rw (missing, profile_of_pod, IsFinePodContext) (pod_context_iff s none)
    | inr (sc, has) ↦
        rw (has, profile_of_pod, IsFinePodContext) (pod_context_iff s sc.seccomp_profile)
  ]

  check_containers_iff :
      (cs : List (Container X)) → (check_containers s cs ≡ ok ([], [])) ↔ AreFine cs
  unfolding check_containers
  check_containers_iff [] = (λ _. tt, λ _. refl)
  check_containers_iff (c ∷ cs) = ground (arith, check_context_iff c, check_containers_iff cs)

  do_validate_containers_iff :
      (cs : List (Container X)) → (do_validate_containers cs s ≡ ok tt) ↔ AreFine cs
  unfolding do_validate_containers
  do_validate_containers_iff cs = (
    λ h. (check_containers_iff cs).0 ((answers_iff (check_containers s cs)).0 h),
    λ a. (answers_iff (check_containers s cs)).1 ((check_containers_iff cs).1 a),
  )

  optional_containers_iff :
      (cs : Option (List (Container X)))
      → (optional_containers cs s ≡ ok tt) ↔ AreFine (unwrap_or [] cs)
  unfolding optional_containers
  optional_containers_iff none = (λ _. tt, λ _. refl)
  optional_containers_iff (some cs) = do_validate_containers_iff cs

  pub record IsFineSpec (p : PodSpec X) : Type 0 where
    pub context : IsFinePodContext p.security_context
    pub containers : AreFine p.containers
    pub init_containers : AreFine (unwrap_or [] p.init_containers)
    pub ephemeral_containers : AreFine (unwrap_or [] p.ephemeral_containers)

  spec_chain_iff :
      (p : PodSpec X)
      → (spec_violations s (some p) ≡ ok []) ↔ (
          (do_validate_pod_security_context p s ≡ ok tt)
          × (do_validate_containers p.containers s ≡ ok tt)
          × (optional_containers p.init_containers s ≡ ok tt)
          × (optional_containers p.ephemeral_containers s ≡ ok tt))
  unfolding spec_violations
  spec_chain_iff p = ground (
    arith,
    chain_iff (violation (do_validate_pod_security_context p s))
        (violation (do_validate_containers p.containers s))
        (violation (optional_containers p.init_containers s))
        (violation (optional_containers p.ephemeral_containers s)),
    violation-eq-nil_iff (do_validate_pod_security_context p s),
    violation-eq-nil_iff (do_validate_containers p.containers s),
    violation-eq-nil_iff (optional_containers p.init_containers s),
    violation-eq-nil_iff (optional_containers p.ephemeral_containers s),
  )

  spec_violations_iff : (p : PodSpec X) → (spec_violations s (some p) ≡ ok []) ↔ IsFineSpec p
  unfolding do_validate_pod_security_context
  spec_violations_iff p = (
    λ h.
        let (a, b, c, d) = (spec_chain_iff p).0 h in
        record {
          context = (pod_profile_of_iff p).0 a;
          containers = (do_validate_containers_iff p.containers).0 b;
          init_containers = (optional_containers_iff p.init_containers).0 c;
          ephemeral_containers = (optional_containers_iff p.ephemeral_containers).0 d;
        },
    λ f. (spec_chain_iff p).1 (
      (pod_profile_of_iff p).1 f.context,
      (do_validate_containers_iff p.containers).1 f.containers,
      (optional_containers_iff p.init_containers).1 f.init_containers,
      (optional_containers_iff p.ephemeral_containers).1 f.ephemeral_containers,
    ),
  )

  -- Every annotation that sets a profile, the pod's context and all containers of the three kinds
  -- have profiles that the settings allow.
  pub record IsFinePod (pod : Pod X) : Type 0 where
    pub annotations : All (IsFineAnnotation s) (unwrap_or [] pod.annotations)
    pub spec : (p : PodSpec X) → pod.spec ≡ some p → IsFineSpec p

module _ {X : Type 0} (s : Settings) (pod : Pod X) where
  do_validate_annotations_iff :
      (l : Option (List (String × String)))
      → (do_validate_annotations l s ≡ ok tt) ↔ All (IsFineAnnotation s) (unwrap_or [] l)
  unfolding do_validate_annotations
  do_validate_annotations_iff none = (λ _. tt, λ _. refl)
  do_validate_annotations_iff (some l) = ground (arith, invalid_annotations_iff s l)

  accepts_iff :
      (do_validate pod s ≡ ok accept)
      ↔ ((do_validate_annotations pod.annotations s ≡ ok tt) × (spec_violations s pod.spec ≡ ok []))
  unfolding do_validate
  accepts_iff = ground (arith, violation-eq-nil_iff (do_validate_annotations pod.annotations s))

  no_spec : pod.spec ≡ none → spec_violations s pod.spec ≡ ok []
  unfolding spec_violations
  no_spec e = ground arith

  pub do_validate-IsFinePod_iff : (do_validate pod s ≡ ok accept) ↔ IsFinePod s pod
  do_validate-IsFinePod_iff = (
    λ h.
        let (notes, found) = accepts_iff.0 h in
        record {
          annotations = (do_validate_annotations_iff pod.annotations).0 notes;
          spec = λ p e. (spec_violations_iff s p).0 cc;
        },
    λ f. accepts_iff.1 (
      (do_validate_annotations_iff pod.annotations).1 f.annotations,
      elim (Option-cases pod.spec) [
        | inl e ↦ no_spec e
        | inr (p, e) ↦ cc (e, (spec_violations_iff s p).1 (f.spec p e))
      ],
    ),
  )
