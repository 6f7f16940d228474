-- ===== src/UserGroup/Enforce/Group.antt =====
-- What enforce_run_as_group and enforce_supplemental_groups guarantee.
use policies.Prelude.{
  ℤ, ◌≡◌, ◌≢◌, refl, ap, true, false, Option, none, some, List, [], ◌∷◌, arith, ok, panic,
  unwrap_or, All, Any, Option-cases, ◌⊎◌, inl, inr,
}
use policies.K8s.{PodSecurityContext}
use policies.UserGroup.Settings.{IdRange, Settings, must_run_as, may_run_as, is_valid_id}
use policies.UserGroup.Settings.Ranges.{InRange, is_valid_id_iff}
use policies.UserGroup.Settings.Validity.{AreProper}
use policies.UserGroup.Context.{GenericSecurityContext}
use policies.UserGroup.Enforce.{
  ImageConfiguration, get_user_group_uid_from_image_configuration, enforce_container_image_group,
  first_min, enforce_run_as_group, some_invalid, enforce_supplemental_groups,
}
use policies.UserGroup.Enforce.Image.{get_user_group_uid-ne-panic}
use policies.UserGroup.Enforce.User.{settled, bind, first_min-valid, Rule-cases}

first_min-cases :
    (ranges : List IdRange) → (first_min ranges ≡ panic) ⊎ ((id : ℤ) × (first_min ranges ≡ ok id))
unfolding first_min
first_min-cases [] = inl refl
first_min-cases (r ∷ ranges) = inr (r.min, refl)

module _ {T : Type 0} (G : GenericSecurityContext T) (s : Settings) where
  open G use {run_as_group, set_run_as_group, default}

  -- Under MustRunAs with checked ranges, a context that is let through ends with a group ID inside
  -- of the ranges; under MayRunAs its group ID, if it has one, is inside of them. Its own ID is
  -- kept, or the rule wrote one under MustRunAs and changed nothing else. The group of the image,
  -- if it has one, is inside of the ranges too.
  pub enforce_run_as_group-valid :
      (context : Option T) (config : Option ImageConfiguration) (out : Option T)
      → AreProper s.run_as_group.ranges
      → (s.run_as_group.rule ≡ must_run_as) ⊎ (s.run_as_group.rule ≡ may_run_as)
      → enforce_run_as_group G s context config ≡ ok out
      → (s.run_as_group.rule ≡ must_run_as
          → (id : ℤ) × (bind (settled context out) run_as_group ≡ some id))
        × ((id : ℤ)
            → bind (settled context out) run_as_group ≡ some id
            → Any (InRange id) s.run_as_group.ranges)
        × ((out ≡ none)
            ⊎ ((s.run_as_group.rule ≡ must_run_as)
                × ((id : ℤ) × (out
                      ≡ some (set_run_as_group (some id) (unwrap_or default context))))))
        × ((user : Option ℤ) (id : ℤ)
            → get_user_group_uid_from_image_configuration config ≡ ok (user, some id)
            → Any (InRange id) s.run_as_group.ranges)
  unfolding enforce_run_as_group enforce_container_image_group
  enforce_run_as_group-valid none config none proper rule h = (
    λ must.
        (let without = G.group-default in
          let (id, first, valid) = first_min-valid s.run_as_group proper in absurd (ground arith)),
    (λ id e. cc),
    inl refl,
    (λ user id e. (is_valid_id_iff s.run_as_group id).0 (ground arith)),
  )
  enforce_run_as_group-valid (some c) config none proper rule h = (
    λ must. elim (Option-cases (run_as_group c)) [
      | inl missing ↦
          let (id, first, valid) = first_min-valid s.run_as_group proper in absurd (ground arith)
      | inr present ↦ present
    ],
    (λ id e. (is_valid_id_iff s.run_as_group id).0 (ground arith)),
    inl refl,
    (λ user id e. (is_valid_id_iff s.run_as_group id).0 (ground arith)),
  )
  enforce_run_as_group-valid context config (some c) proper rule h =
      let (id, first, valid) = first_min-valid s.run_as_group proper in
      let same : c ≡ set_run_as_group (some id) (unwrap_or default context) = ground arith in
      (
        λ must. (id, ground (arith, G.group-set_group (some id) (unwrap_or default context))),
        (λ j e.
            (is_valid_id_iff s.run_as_group j).0
              (ground (arith, G.group-set_group (some id) (unwrap_or default context)))),
        inr (ground arith, (id, ap some same)),
        (λ user j e. (is_valid_id_iff s.run_as_group j).0 (ground arith)),
      )

  -- The rule writes nothing but a group.
  pub enforce_run_as_group-change :
      (context : Option T) (config : Option ImageConfiguration) (out : Option T)
      → enforce_run_as_group G s context config ≡ ok out
      → (out ≡ none)
        ⊎ ((id : ℤ) × (out ≡ some (set_run_as_group (some id) (unwrap_or default context))))
  unfolding enforce_run_as_group
  enforce_run_as_group-change context config none h = inl refl
  enforce_run_as_group-change context config (some c) h =
      elim (first_min-cases s.run_as_group.ranges) [
        | inl fault ↦ absurd (ground arith)
        | inr (id, first) ↦ inr (id, ground arith)
      ]

  pub enforce_run_as_group-ne-panic :
      (context : Option T) (config : Option ImageConfiguration)
      → (s.run_as_group.rule ≡ must_run_as → AreProper s.run_as_group.ranges)
      → enforce_run_as_group G s context config ≢ panic
  unfolding enforce_run_as_group enforce_container_image_group
  enforce_run_as_group-ne-panic context config proper h = elim (Rule-cases s.run_as_group.rule) [
    | inl must ↦
        let (id, first, valid) = first_min-valid s.run_as_group (proper must) in
        ground (arith, get_user_group_uid-ne-panic config)
    | inr other ↦ ground (arith, get_user_group_uid-ne-panic config)
  ]

module _ {X : Type 0} (unset : X) (s : Settings) where
  some_invalid-All :
      (ids : List ℤ)
      → some_invalid unset s ids ≡ false
      → All (λ id. is_valid_id s.supplemental_groups id ≡ true) ids
  unfolding some_invalid
  some_invalid-All [] h = tt
  some_invalid-All (id ∷ ids) h = (ground arith, some_invalid-All ids (ground arith))

  -- Under MustRunAs and under MayRunAs with checked ranges, the supplemental groups of a pod that
  -- is let through all lie inside of the ranges.
  pub enforce_supplemental_groups-valid :
      (context out : Option (PodSecurityContext X)) (ids : List ℤ)
      → AreProper s.supplemental_groups.ranges
      → (s.supplemental_groups.rule ≡ must_run_as) ⊎ (s.supplemental_groups.rule ≡ may_run_as)
      → enforce_supplemental_groups unset s context ≡ ok out
      → bind (settled context out) (λ c. c.supplemental_groups) ≡ some ids
      → All (λ id. is_valid_id s.supplemental_groups id ≡ true) ids
  unfolding enforce_supplemental_groups
  enforce_supplemental_groups-valid none none ids proper rule h e = cc
  enforce_supplemental_groups-valid (some c) none ids proper rule h e =
      some_invalid-All ids (ground arith)
  enforce_supplemental_groups-valid context (some c) ids proper rule h e =
      let (id, first, valid) = first_min-valid s.supplemental_groups proper in
      let same : ids ≡ id ∷ [] = ground arith in rw same (valid, tt)

  pub enforce_supplemental_groups-ne-panic :
      (context : Option (PodSecurityContext X))
      → (s.supplemental_groups.rule ≡ must_run_as → AreProper s.supplemental_groups.ranges)
      → enforce_supplemental_groups unset s context ≢ panic
  unfolding enforce_supplemental_groups
  enforce_supplemental_groups-ne-panic context proper h =
      elim (Rule-cases s.supplemental_groups.rule) [
        | inl must ↦
            let (id, first, valid) = first_min-valid s.supplemental_groups (proper must) in
            ground arith
        | inr other ↦ ground arith
      ]
