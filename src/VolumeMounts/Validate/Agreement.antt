-- ===== src/VolumeMounts/Validate/Agreement.antt =====
-- The four operators against the criteria of criteria_policy_base.
use policies.Prelude.{
  ◌≡◌, ◌↔◌, refl, sym, ++-eq-nil_iff, String, ◌||◌, Option, none, some, List, [], ◌∷◌, ◌++◌, map,
  ok, err, panic, is_empty, contains, insert, is_subset, All, arith, unwrap_or, if◌then◌else◌,
  cons_named_error_iff,
}
use policies.Prelude.Sets.Laws.{contains-insert}
use policies.K8s.{VolumeMount, Container, PodSpec}
use policies.Sdk.{accept, pod_spec}
use policies.Criteria.Settings.{BaseSettings}
use policies.Criteria.Operators.{validate_values}
use policies.Criteria.Meaning.{Meets, validate_values_iff}
use policies.VolumeMounts.Validate.{
  Reject, any_in, any_not_in, all_are_used, not_all_are_used, Settings, ContainerError,
  insert_names, by_operator, validate_volume_mounts, validate_container, by_mounts, errors_of,
  validate_pod, answer, validate,
}

abbrev pub criterion_of : Reject → List String → BaseSettings
criterion_of any_in listed = BaseSettings.does_not_contain_any_of listed
criterion_of any_not_in listed = BaseSettings.does_not_contain_other_than listed
criterion_of all_are_used listed = BaseSettings.does_not_contain_all_of listed
criterion_of not_all_are_used listed = BaseSettings.contains_all_of listed

abbrev pub names_of : List VolumeMount → List String
names_of mounts = map (λ m. m.name) mounts

contains-insert_names :
    (mounts : List VolumeMount) (names : List String) (a : String)
    → contains (insert_names mounts names) a ≡ (contains (names_of mounts) a || contains names a)
unfolding insert_names
contains-insert_names [] names a = refl
contains-insert_names (m ∷ ms) names a =
    ground (arith, contains-insert_names ms (insert m.name names) a, contains-insert m.name names a)

by_operator_iff :
    (r : Reject) (listed mounted : List String)
    → (by_operator r listed mounted ≡ ok tt)
      ↔ (validate_values (criterion_of r listed) mounted ≡ ok tt)
unfolding by_operator validate_values is_subset
by_operator_iff any_in listed mounted = ground arith
by_operator_iff any_not_in listed mounted = ground arith
by_operator_iff all_are_used listed mounted = ground arith
by_operator_iff not_all_are_used listed mounted = ground arith

by_operator-ne-panic :
    (r : Reject) (listed mounted : List String) → ¬ (by_operator r listed mounted ≡ panic)
unfolding by_operator
by_operator-ne-panic any_in listed mounted h = ground arith
by_operator-ne-panic any_not_in listed mounted h = ground arith
by_operator-ne-panic all_are_used listed mounted h = ground arith
by_operator-ne-panic not_all_are_used listed mounted h = ground arith

-- A criterion asks for the members only.
Meets-members :
    (c : BaseSettings) (xs ys : List String)
    → ((a : String) → contains xs a ≡ contains ys a)
    → Meets c xs
    → Meets c ys
Meets-members (BaseSettings.contains_any_of vs) xs ys same (a, m, n) = (a, m, cc (same a, n))
Meets-members (BaseSettings.does_not_contain_any_of vs) xs ys same h =
    λ a m n. h a m (cc (same a, n))
Meets-members (BaseSettings.contains_all_of vs) xs ys same h = λ a m. cc (same a, h a m)
Meets-members (BaseSettings.does_not_contain_all_of vs) xs ys same (a, m, n) =
    (a, m, λ k. n (cc (same a, k)))
Meets-members (BaseSettings.contains_other_than vs) xs ys same (a, m, n) = (a, cc (same a, m), n)
Meets-members (BaseSettings.does_not_contain_other_than vs) xs ys same h =
    λ a m. h a (cc (same a, m))

validate_volume_mounts_iff :
    (s : Settings) (mounts : List VolumeMount)
    → (validate_volume_mounts mounts s ≡ ok tt)
      ↔ Meets (criterion_of s.operator_ s.volume_mounts_names) (names_of mounts)
unfolding validate_volume_mounts
validate_volume_mounts_iff s mounts =
    let c = criterion_of s.operator_ s.volume_mounts_names in
    let names = insert_names mounts [] in
    let decided = by_operator_iff s.operator_ s.volume_mounts_names names in
    let meant = validate_values_iff c names in
    let same : (a : String) → contains names a ≡ contains (names_of mounts) a =
      λ a. ground (arith, contains-insert_names mounts [] a) in
    (
      λ h. Meets-members c names (names_of mounts) same (meant.0 (decided.0 h)),
      λ h. decided.1 (meant.1 (Meets-members c (names_of mounts) names (λ a. sym (same a)) h)),
    )

module _ (s : Settings) where
  -- The mounts of a container, if it has any, meet the criterion.
  abbrev pub HasFineMounts : Option (List VolumeMount) → Type 0
  HasFineMounts none = Unit
  HasFineMounts (some mounts) =
      Meets (criterion_of s.operator_ s.volume_mounts_names) (names_of mounts)

  by_mounts_iff : (o : Option (List VolumeMount)) → (by_mounts s o ≡ ok tt) ↔ HasFineMounts o
  unfolding by_mounts
  by_mounts_iff none = (λ h. tt, λ h. refl)
  by_mounts_iff (some mounts) = validate_volume_mounts_iff s mounts

  validate_volume_mounts-ne-panic :
      (mounts : List VolumeMount) → ¬ (validate_volume_mounts mounts s ≡ panic)
  unfolding validate_volume_mounts
  validate_volume_mounts-ne-panic mounts =
      by_operator-ne-panic s.operator_ s.volume_mounts_names (insert_names mounts [])

  by_mounts-ne-panic : (o : Option (List VolumeMount)) → ¬ (by_mounts s o ≡ panic)
  unfolding by_mounts
  by_mounts-ne-panic none h = cc
  by_mounts-ne-panic (some mounts) h = validate_volume_mounts-ne-panic mounts h

answer_iff :
    (errors : List ContainerError)
    → (answer (if is_empty errors then ok tt else err errors) ≡ accept) ↔ (errors ≡ [])
unfolding answer
answer_iff [] = (λ h. refl, λ h. refl)
answer_iff (e ∷ es) = (λ h. absurd (cc h), λ h. absurd (cc h))

module _ {X : Type 0} (s : Settings) where
  abbrev pub AllFineMounts : List (Container X) → Type 0
  AllFineMounts cs = All (λ c. HasFineMounts s c.volume_mounts) cs

  errors_of_iff : (cs : List (Container X)) → (errors_of s cs ≡ []) ↔ AllFineMounts cs
  unfolding errors_of validate_container
  errors_of_iff [] = (λ h. tt, λ h. refl)
  errors_of_iff (c ∷ cs) =
      let first =
        cons_named_error_iff c.name (by_mounts s c.volume_mounts) (errors_of s cs)
          (by_mounts-ne-panic s c.volume_mounts) in
      let fine = by_mounts_iff s c.volume_mounts in
      let rest = errors_of_iff cs in
      (λ h. let (a, b) = first.0 h in (fine.0 a, rest.0 b), λ (a, b). first.1 (fine.1 a, rest.1 b))

  -- The policy accepts a pod exactly when the mounts of every container, init container and
  -- ephemeral container that has some meet the operator, which asks of their names what a
  -- criterion asks: `anyIn` that none is listed, `anyNotIn` that all are, `allAreUsed` that one of
  -- those listed is not used, `notAllAreUsed` that all of them are.
  pub validate-AllFineMounts_iff :
      (p : PodSpec X)
      → (validate s (pod_spec p) ≡ accept) ↔ (
          AllFineMounts p.containers
          × AllFineMounts (unwrap_or [] p.init_containers)
          × AllFineMounts (unwrap_or [] p.ephemeral_containers))
  unfolding validate answer validate_pod
  validate-AllFineMounts_iff p =
      let firsts = errors_of s p.containers in
      let inits = errors_of s (unwrap_or [] p.init_containers) in
      let ephemerals = errors_of s (unwrap_or [] p.ephemeral_containers) in
      let told = answer_iff (firsts ++ (inits ++ ephemerals)) in
      let outer = ++-eq-nil_iff firsts (inits ++ ephemerals) in
      let inner = ++-eq-nil_iff inits ephemerals in
      let a = errors_of_iff p.containers in
      let b = errors_of_iff (unwrap_or [] p.init_containers) in
      let c = errors_of_iff (unwrap_or [] p.ephemeral_containers) in
      (
        λ h. let (x, yz) = outer.0 (told.0 h) in let (y, z) = inner.0 yz in (a.0 x, b.0 y, c.0 z),
        λ (x, y, z). told.1 (outer.1 (a.1 x, inner.1 (b.1 y, c.1 z))),
      )
