-- ===== src/FsGroups/Validate/Laws.antt =====
-- What the policy guarantees of the file system group.
use policies.Prelude.{
  ℤ, ◌≡◌, ◌↔◌, inl, inr, refl, List, [], ◌∷◌, true, Option, none, some, arith, ok, Any, here, there,
  ◌≤ℤ◌, leb_ℤ, ◌&&◌, Bool-cases, Option-cases, ≤ℤ_refl,
}
use policies.K8s.{default_pod_security_context, PodSpec, Pod}
use policies.Sdk.{accept, mutate}
use policies.FsGroups.Settings.{Range, Rule, must_run_as, may_run_as, run_as_any}
use policies.FsGroups.Settings.Validity.{AreProper, IsProperRule}
use policies.FsGroups.Validate.{in_any_range, fs_group_of, do_validate}

abbrev pub InRange : ℤ → Range → Type 0
InRange id r = (r.min ≤ℤ id) × (id ≤ℤ r.max)

in_any_range_sound :
    (ranges : List Range) (id : ℤ) → in_any_range ranges id ≡ true → Any (InRange id) ranges
unfolding in_any_range
in_any_range_sound [] id h = cc
in_any_range_sound (r ∷ ranges) id h = elim (Bool-cases (leb_ℤ r.min id && leb_ℤ id r.max)) [
  | inl inside ↦ here (ground arith)
  | inr outside ↦ there (in_any_range_sound ranges id (ground arith))
]

in_any_range_complete :
    (ranges : List Range) (id : ℤ) → Any (InRange id) ranges → in_any_range ranges id ≡ true
unfolding in_any_range
in_any_range_complete [] id h = elim h [ ]
in_any_range_complete (r ∷ ranges) id (here (above, below)) = ground arith
in_any_range_complete (r ∷ ranges) id (there later) =
    ground (arith, in_any_range_complete ranges id later)

in_any_range_iff :
    (ranges : List Range) (id : ℤ) → (in_any_range ranges id ≡ true) ↔ Any (InRange id) ranges
in_any_range_iff ranges id = (in_any_range_sound ranges id, in_any_range_complete ranges id)

AreProper-first :
    (ranges : List Range)
    → AreProper ranges
    → (r : Range) × (rest : List Range) × (ranges ≡ r ∷ rest) × Any (InRange r.min) ranges
AreProper-first [] h = absurd (h.0 refl)
AreProper-first (r ∷ rest) h = (r, rest, refl, here (≤ℤ_refl r.min, h.1.0))

-- Whether the rule lets a pod with this group through unchanged.
abbrev pub Admits : Rule → Option ℤ → Type 0
Admits (must_run_as ranges) group = (id : ℤ) × (group ≡ some id) × Any (InRange id) ranges
Admits (may_run_as ranges) group = (id : ℤ) → group ≡ some id → Any (InRange id) ranges
Admits run_as_any group = Unit

module _ {X : Type 0} (unset : X) (pod : Pod X) (spec : PodSpec X) where
  -- With checked settings the policy accepts a pod as it is exactly when the rule admits its
  -- group: MustRunAs wants one inside of a range, MayRunAs wants none outside of the ranges.
  pub do_validate-accept_iff :
      (rule : Rule)
      → pod.spec ≡ some spec
      → IsProperRule rule
      → (do_validate unset pod rule ≡ ok accept) ↔ Admits rule (fs_group_of spec.security_context)
  unfolding do_validate
  do_validate-accept_iff (must_run_as ranges) e proper =
      let (r, rest, first, default_in) = AreProper-first ranges proper in
      elim (Option-cases (fs_group_of spec.security_context)) [
        | inl missing ↦ (λ h. absurd (ground arith), λ a. cc (a.1, missing))
        | inr (id, set) ↦ (
          λ h. (id, set, in_any_range_sound ranges id (ground arith)),
          λ a. ground (arith, in_any_range_complete ranges a.0 a.2, a.1),
        )
      ]
  do_validate-accept_iff (may_run_as ranges) e proper =
      elim (Option-cases (fs_group_of spec.security_context)) [
        | inl missing ↦ (λ h id set. cc, λ a. ground arith)
        | inr (id, set) ↦ (
          λ h id' set'. in_any_range_sound ranges id' (ground arith),
          λ a. ground (arith, in_any_range_complete ranges id (a id set)),
        )
      ]
  do_validate-accept_iff run_as_any e proper = (λ _. tt, λ _. ground arith)

  -- With checked settings the policy changes a pod only under MustRunAs, only where no group is
  -- set, and then to a group that some range holds; its containers stay. What the pod's security
  -- context said besides is lost: the new one has nothing but the group.
  pub do_validate-mutate :
      (rule : Rule) (pod' : Pod X)
      → pod.spec ≡ some spec
      → IsProperRule rule
      → do_validate unset pod rule ≡ ok (mutate pod')
      → (fs_group_of spec.security_context ≡ none)
        × ((ranges : List Range) × (id : ℤ) × (spec' : PodSpec X) × (rule ≡ must_run_as ranges)
            × Any (InRange id) ranges
            × (pod' ≡ record pod { spec = some spec' })
            × (spec' ≡ record spec {
              security_context =
                  some (record (default_pod_security_context unset) { fs_group = some id });
            }))
  unfolding do_validate
  do_validate-mutate (must_run_as ranges) pod' e proper h =
      let (r, rest, first, default_in) = AreProper-first ranges proper in
      (
        ground arith,
        (
          ranges,
          r.min,
          record spec {
            security_context =
                some (record (default_pod_security_context unset) { fs_group = some r.min });
          },
          refl,
          default_in,
          ground arith,
          refl,
        ),
      )
  do_validate-mutate (may_run_as ranges) pod' e proper h = absurd (ground arith)
  do_validate-mutate run_as_any pod' e proper h = absurd (ground arith)
