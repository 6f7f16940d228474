-- ===== src/Seccomp/Validate/Answers.antt =====
-- That the policy always answers.
use policies.Prelude.{
  ◌≡◌, ◌≢◌, ◌⊎◌, inl, inr, refl, Option, none, some, List, [], ◌∷◌, ◌++◌, String, arith, ok, err,
  panic, Outcome, is_empty, Bool-cases,
}
use policies.K8s.{SeccompProfile, Container, PodSpec, Pod}
use policies.Sdk.{accept, reject}
use policies.Seccomp.Settings.{Settings}
use policies.Seccomp.Validate.{
  SeccompError, do_validate_annotations, profile_of, check_container, check_containers,
  check_profile, localhost_of_profile, do_validate_containers, profile_of_pod, pod_profile,
  pod_localhost, do_validate_pod_security_context, violation, optional_containers, spec_violations,
  do_validate,
}
use policies.Seccomp.Validate.Accepts.{IsFinePod, do_validate-IsFinePod_iff}

check_container-ne-panic : (s : Settings) (o : Option SeccompProfile) → check_container s o ≢ panic
unfolding check_container check_profile localhost_of_profile
check_container-ne-panic s o = ground arith

pod_profile-ne-panic : (s : Settings) (o : Option SeccompProfile) → pod_profile s o ≢ panic
unfolding pod_profile pod_localhost
pod_profile-ne-panic s o = ground arith

do_validate_annotations-ne-panic :
    (l : Option (List (String × String))) (s : Settings) → do_validate_annotations l s ≢ panic
unfolding do_validate_annotations
do_validate_annotations-ne-panic l s = ground arith

violation-ok :
    (r : Outcome SeccompError (Unit {0}))
    → r ≢ panic
    → (l : List SeccompError) × (violation r ≡ ok l)
unfolding violation
violation-ok panic h = absurd (h refl)
violation-ok (err e) h = (e ∷ [], refl)
violation-ok (ok tt) h = ([], refl)

module _ {X : Type 0} (s : Settings) where
  check_containers-ne-panic : (cs : List (Container X)) → check_containers s cs ≢ panic
  unfolding check_containers
  check_containers-ne-panic [] = λ h. cc
  check_containers-ne-panic (c ∷ cs) =
      ground (arith, check_container-ne-panic s (profile_of c), check_containers-ne-panic cs)

  do_validate_containers-ne-panic : (cs : List (Container X)) → do_validate_containers cs s ≢ panic
  unfolding do_validate_containers
  do_validate_containers-ne-panic cs = ground (arith, check_containers-ne-panic cs)

  optional_containers-ne-panic :
      (cs : Option (List (Container X))) → optional_containers cs s ≢ panic
  unfolding optional_containers
  optional_containers-ne-panic none = λ h. cc
  optional_containers-ne-panic (some cs) = do_validate_containers-ne-panic cs

  spec_violations-ok :
      (o : Option (PodSpec X)) → (l : List SeccompError) × (spec_violations s o ≡ ok l)
  unfolding spec_violations do_validate_pod_security_context
  spec_violations-ok none = ([], refl)
  spec_violations-ok (some p) =
      let (a, ea) =
        violation-ok (pod_profile s (profile_of_pod p))
          (pod_profile-ne-panic s (profile_of_pod p)) in
      let (b, eb) =
        violation-ok (do_validate_containers p.containers s)
          (do_validate_containers-ne-panic p.containers) in
      let (c, ec) =
        violation-ok (optional_containers p.init_containers s)
          (optional_containers-ne-panic p.init_containers) in
      let (d, ed) =
        violation-ok (optional_containers p.ephemeral_containers s)
          (optional_containers-ne-panic p.ephemeral_containers) in
      (a ++ (b ++ (c ++ d)), ground arith)

  -- The policy always answers, without an error or a panic: it accepts the pod, or rejects it with at
  -- least one violation, and then some profile or annotation of the pod is not allowed.
  pub do_validate-answers :
      (pod : Pod X)
      → (do_validate pod s ≡ ok accept)
        ⊎ ((violations : List SeccompError) × (do_validate pod s ≡ ok (reject violations))
            × (violations ≢ [])
            × ¬ IsFinePod s pod)
  unfolding do_validate
  do_validate-answers pod =
      let (a, ea) =
        violation-ok (do_validate_annotations pod.annotations s)
          (do_validate_annotations-ne-panic pod.annotations s) in
      let (b, eb) = spec_violations-ok pod.spec in
      elim (Bool-cases (is_empty (a ++ b))) [
        | inl empty ↦ inl (ground arith)
        | inr found ↦ inr (
          a ++ b,
          ground arith,
          λ h. cc (h, found),
          λ fine. cc (ea, eb, found, (do_validate-IsFinePod_iff s pod).1 fine),
        )
      ]
