-- ===== src/Signatures/Resources/Answers.antt =====
-- What the policy answers to a workload.
use policies.Prelude.{
  ◌≡◌, inl, inr, refl, true, Option, none, some, List, [], Outcome, ok, err, panic, arith,
  Bool-cases,
}
use policies.K8s.{Container, PodSpec}
use policies.Sdk.{Response, accept, reject, mutate}
use policies.TrustedRepos.Matchers.{Wild}
use policies.TrustedRepos.Resources.{
  Resource, pod, deployment, stateful_set, daemon_set, job, cron_job, replica_set,
  replication_controller, spec,
}
use policies.Signatures.Settings.{Settings}
use policies.Signatures.Verify.{Verifier, Failure, verify_all_images_in_pod}
use policies.Signatures.Verify.Loops.{IsSigned, HasImage}
use policies.Signatures.Verify.Pods.{
  AllThree, IsPinnedPod, Concludes, verify_all_images_in_pod-Concludes,
}
use policies.Signatures.Resources.{
  set_spec, Workload, Rejection, mutated, answer, validate_spec, validate_resource, validate, name,
}

-- Of the same kind.
abbrev pub SameKind : {X : Type 0} → Resource X → Resource X → Type 0
SameKind (pod a) (pod b) = Unit
SameKind (deployment a) (deployment b) = Unit
SameKind (stateful_set a) (stateful_set b) = Unit
SameKind (daemon_set a) (daemon_set b) = Unit
SameKind (job a) (job b) = Unit
SameKind (cron_job a) (cron_job b) = Unit
SameKind (replica_set a) (replica_set b) = Unit
SameKind (replication_controller a) (replication_controller b) = Unit
SameKind a b = ⊥

-- A resource that has a specification of a pod can get another one.
set_spec-spec :
    {X : Type 0} (r : Resource X) (p p' : PodSpec X)
    → spec r ≡ some p
    → (r' : Resource X) × (set_spec r p' ≡ some r') × (spec r' ≡ some p') × SameKind r r'
unfolding set_spec spec
set_spec-spec (pod old) p p' h = (pod (some p'), refl, refl, tt)
set_spec-spec (deployment none) p p' h = absurd (cc h)
set_spec-spec (deployment (some old)) p p' h = (deployment (some (some p')), refl, refl, tt)
set_spec-spec (stateful_set none) p p' h = absurd (cc h)
set_spec-spec (stateful_set (some old)) p p' h = (stateful_set (some (some p')), refl, refl, tt)
set_spec-spec (daemon_set none) p p' h = absurd (cc h)
set_spec-spec (daemon_set (some old)) p p' h = (daemon_set (some (some p')), refl, refl, tt)
set_spec-spec (job none) p p' h = absurd (cc h)
set_spec-spec (job (some old)) p p' h = (job (some (some p')), refl, refl, tt)
set_spec-spec (cron_job none) p p' h = absurd (cc h)
set_spec-spec (cron_job (some old)) p p' h = (cron_job (some (some p')), refl, refl, tt)
set_spec-spec (replica_set none) p p' h = absurd (cc h)
set_spec-spec (replica_set (some none)) p p' h = absurd (cc h)
set_spec-spec (replica_set (some (some old))) p p' h =
    (replica_set (some (some (some p'))), refl, refl, tt)
set_spec-spec (replication_controller none) p p' h = absurd (cc h)
set_spec-spec (replication_controller (some none)) p p' h = absurd (cc h)
set_spec-spec (replication_controller (some (some old))) p p' h =
    (replication_controller (some (some (some p'))), refl, refl, tt)

module _ {K KP W X : Type 0} (wild : Wild W) (host : Verifier K KP)
    (eq : Discrete (List (Container X))) (s : Settings K KP) where
  abbrev pub IsSignedAnswer : Workload X → PodSpec X → Response Rejection (Workload X) → Type 0
  IsSignedAnswer w p accept = AllThree (IsSigned wild host s.signatures) p
  IsSignedAnswer w p (reject r) =
      (r.resource ≡ name w) × (¬ (r.errors ≡ [])) × (¬ AllThree (IsSigned wild host s.signatures) p)
  IsSignedAnswer w p (mutate w') =
      AllThree (IsSigned wild host s.signatures) p
      × (s.modify_images_with_digest ≡ true)
      × (w'.name_ ≡ w.name_)
      × SameKind w.resource w'.resource
      × ((p' : PodSpec X) × (spec w'.resource ≡ some p')
          × IsPinnedPod wild host eq s.signatures p p')

  answer-IsSignedAnswer :
      (w : Workload X) (p : PodSpec X) (o : Outcome (List Failure) (Option (PodSpec X)))
      → spec w.resource ≡ some p
      → Concludes wild host eq s.signatures p o
      → (r : Response Rejection (Workload X)) × (answer wild host eq s w o ≡ some r)
        × IsSignedAnswer w p r
  unfolding answer mutated
  answer-IsSignedAnswer w p (ok none) inside h = (accept, refl, h)
  answer-IsSignedAnswer w p (ok (some p')) inside (signed, pinned) =
      elim (Bool-cases s.modify_images_with_digest) [
        | inl modify ↦
            let (r', set, has, same) = set_spec-spec w.resource p p' inside in
            (
              mutate (record w { resource = r' }),
              rw (modify, set) refl,
              (signed, modify, refl, same, (p', has, pinned)),
            )
        | inr keep ↦ (accept, rw keep refl, signed)
      ]
  answer-IsSignedAnswer w p (err errors) inside (some_, unsigned) =
      (reject (record { resource = name w; errors = errors }), refl, (refl, some_, unsigned))
  answer-IsSignedAnswer w p panic inside h = absurd h

  -- To a workload in whose pod all containers, init containers and ephemeral containers have an
  -- image, the policy always answers. It accepts or changes the workload only if each image passes
  -- the verification of every signature whose pattern matches it, with certificates each of them
  -- and at least one; it rejects the workload only if some image does not. It changes the workload
  -- only if the settings say so, and then only images: each stays as it is, or gets a digest that
  -- the host gave for it. The kind and the name of the workload and all else of its pod stay.
  pub validate-IsSignedAnswer :
      (w : Workload X) (p : PodSpec X)
      → spec w.resource ≡ some p
      → AllThree HasImage p
      → (r : Response Rejection (Workload X)) × (validate wild host eq s (some w) ≡ some r)
        × IsSignedAnswer w p r
  unfolding validate validate_resource validate_spec
  validate-IsSignedAnswer w p inside named =
      let (r, answered, signed) =
        answer-IsSignedAnswer w p (verify_all_images_in_pod wild host eq s.signatures p) inside
          (verify_all_images_in_pod-Concludes wild host eq s.signatures p named) in
      (r, ground arith, signed)
