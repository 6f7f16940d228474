-- ===== src/Capabilities/Validate/Laws.antt =====
-- Which pods `validate_added_caps` lets through.
use policies.Prelude.{
  ◌≡◌, ◌↔◌, ◌⊎◌, String, List, [], ◌∷◌, true, false, arith, ok, contains, ◌∈◌, is_empty,
  intersection, difference, is_disjoint, is_subset, inl, inr, Bool-cases, Any, here, there,
  unwrap_or,
}
use policies.Prelude.Sets.Laws.{is_disjoint_iff, is_subset_iff, contains-append}
use policies.K8s.{Container, PodSpec}
use policies.Sdk.{pod_spec}
use policies.Capabilities.Settings.{Settings, allow_all_capabilities_enabled}
use policies.Capabilities.Validate.{
  added_by, added_by_all, get_caps, check_caps, check_dropped, validate_added_caps,
}

-- What the settings let a container add.
abbrev pub IsAllowed : Settings → String → Type 0
IsAllowed s a =
    (("*" ∈ s.allowed_capabilities) ⊎ (a ∈ s.allowed_capabilities))
    × (contains s.required_drop_capabilities a ≡ false)

module _ {X : Type 0} where
  added_by_all_sound :
      (cs : List (Container X)) (a : String) → a ∈ added_by_all cs → Any (λ c. a ∈ added_by c) cs
  unfolding added_by_all
  added_by_all_sound [] a h = cc
  added_by_all_sound (c ∷ cs) a h = elim (Bool-cases (contains (added_by c) a)) [
    | inl yes' ↦ here yes'
    | inr no' ↦
        there (
          added_by_all_sound cs a
            (ground (arith, contains-append (added_by c) (added_by_all cs) a)))
  ]

  added_by_all_complete :
      (cs : List (Container X)) (a : String) → Any (λ c. a ∈ added_by c) cs → a ∈ added_by_all cs
  unfolding added_by_all
  added_by_all_complete [] a h = elim h [ ]
  added_by_all_complete (c ∷ cs) a (here m) =
      ground (arith, contains-append (added_by c) (added_by_all cs) a)
  added_by_all_complete (c ∷ cs) a (there m) =
      ground (arith, contains-append (added_by c) (added_by_all cs) a, added_by_all_complete cs a m)

  -- Some container or init container adds the capability.
  abbrev pub IsAdded : PodSpec X → String → Type 0
  IsAdded p a =
      Any (λ c. a ∈ added_by c) p.containers
      ⊎ Any (λ c. a ∈ added_by c) (unwrap_or [] p.init_containers)

  get_caps_sound : (p : PodSpec X) (a : String) → a ∈ get_caps p → IsAdded p a
  unfolding get_caps
  get_caps_sound p a h = elim (Bool-cases (contains (added_by_all p.containers) a)) [
    | inl main ↦ inl (added_by_all_sound p.containers a main)
    | inr other ↦ inr (
        added_by_all_sound (unwrap_or [] p.init_containers) a (
          ground (
            arith,
            contains-append (added_by_all p.containers)
                (added_by_all (unwrap_or [] p.init_containers)) a,
          )))
  ]

  get_caps_complete : (p : PodSpec X) (a : String) → IsAdded p a → a ∈ get_caps p
  unfolding get_caps
  get_caps_complete p a (inl m) = ground (
    arith,
    contains-append (added_by_all p.containers) (added_by_all (unwrap_or [] p.init_containers)) a,
    added_by_all_complete p.containers a m,
  )
  get_caps_complete p a (inr m) = ground (
    arith,
    contains-append (added_by_all p.containers) (added_by_all (unwrap_or [] p.init_containers)) a,
    added_by_all_complete (unwrap_or [] p.init_containers) a m,
  )

check_caps_sound :
    (s : Settings) (caps : List String) (a : String)
    → check_caps s caps ≡ ok tt
    → a ∈ caps
    → IsAllowed s a
unfolding check_caps check_dropped is_disjoint is_subset allow_all_capabilities_enabled
check_caps_sound s caps a h m =
    let dropped = (is_disjoint_iff caps s.required_drop_capabilities).0 (ground arith) a m in
    elim (Bool-cases (contains s.allowed_capabilities "*")) [
      | inl all ↦ (inl all, dropped)
      | inr some_only ↦
          (inr ((is_subset_iff caps s.allowed_capabilities).0 (ground arith) a m), dropped)
    ]

check_caps_complete :
    (s : Settings) (caps : List String)
    → ((a : String) → a ∈ caps → IsAllowed s a)
    → check_caps s caps ≡ ok tt
unfolding check_caps check_dropped is_disjoint is_subset allow_all_capabilities_enabled
check_caps_complete s caps h =
    let dropped : is_empty (intersection caps s.required_drop_capabilities) ≡ true =
      (is_disjoint_iff caps s.required_drop_capabilities).1 (λ a m. (h a m).1) in
    elim (Bool-cases (contains s.allowed_capabilities "*")) [
      | inl all ↦ ground arith
      | inr some_only ↦
          let covered : is_empty (difference caps s.allowed_capabilities) ≡ true =
            (is_subset_iff caps s.allowed_capabilities).1 (λ a m. ground (arith, h a m)) in
          ground arith
    ]

-- A pod passes exactly when every capability that one of its containers or init containers adds
-- is allowed, by name or by the wildcard, and is not on the list of those that must be dropped.
pub validate_added_caps_iff :
    {X : Type 0} (s : Settings) (p : PodSpec X)
    → (validate_added_caps s (pod_spec p) ≡ ok tt) ↔ ((a : String) → IsAdded p a → IsAllowed s a)
unfolding validate_added_caps
validate_added_caps_iff s p = (
  λ h a m. check_caps_sound s (get_caps p) a h (get_caps_complete p a m),
  λ h. check_caps_complete s (get_caps p) (λ a m. h a (get_caps_sound p a m)),
)
