-- ===== src/StorageClass/Validate/Allowed.antt =====
-- Which storage classes the claims that are let through have.
use policies.Prelude.{
  ◌≡◌, inl, inr, refl, String, Option, none, some, List, ok, contains, ◌∈◌, arith, Bool-cases,
}
use policies.Sdk.{Response, accept, reject, mutate}
use policies.StorageClass.Validate.{
  PersistentVolumeClaim, Settings, fallback_test, validate_denied, validate_allowed,
  validate_settings, storage_class_of, class_of_spec, mutate_pvc, mutate_or_reject,
  validate_allowed_classes, validate_denied_classes, by_lists, validate,
}

-- On the list of those allowed, or not on the list of those denied.
abbrev pub IsAllowedBy : Option (List String) → Option (List String) → String → Type 0
IsAllowedBy (some allowed) denied name = name ∈ allowed
IsAllowedBy none (some denied) name = ¬ (name ∈ denied)
IsAllowedBy none none name = ⊥

abbrev pub IsAllowed : Settings → String → Type 0
IsAllowed s name = IsAllowedBy s.allowed_storage_classes s.denied_storage_classes name

module _ {X : Type 0} (unset : X) where
  abbrev pub IsGranted :
      Settings → PersistentVolumeClaim X → Response String (PersistentVolumeClaim X) → Type 0
  IsGranted s pvc accept = IsAllowed s (storage_class_of pvc)
  IsGranted s pvc (reject name) =
      (name ≡ storage_class_of pvc) × (¬ IsAllowed s name) × (s.fallback_storage_class ≡ none)
  IsGranted s pvc (mutate pvc') =
      (¬ IsAllowed s (storage_class_of pvc))
      × IsAllowed s (storage_class_of pvc')
      × ((fallback : String) × (s.fallback_storage_class ≡ some fallback)
          × (pvc' ≡ mutate_pvc unset pvc fallback))

  abbrev settings : Option (List String) → Option (List String) → Option String → Settings
  settings allowed denied fallback = record {
    denied_storage_classes = denied;
    fallback_storage_class = fallback;
    allowed_storage_classes = allowed;
  }

  abbrev Answers :
      Option (List String) → Option (List String) → Option String → PersistentVolumeClaim X → Type 0
  Answers allowed denied fallback pvc =
      (r : Response String (PersistentVolumeClaim X)) × (validate unset
          (settings allowed denied fallback) (some pvc)
        ≡ some r)
      × IsGranted (settings allowed denied fallback) pvc r

  class_of_mutated :
      (pvc : PersistentVolumeClaim X) (name : String)
      → storage_class_of (mutate_pvc unset pvc name) ≡ name
  unfolding storage_class_of mutate_pvc class_of_spec
  class_of_mutated pvc name = refl

  by_allowed :
      (allowed : List String) (fallback : Option String) (pvc : PersistentVolumeClaim X)
      → validate_settings (settings (some allowed) none fallback) ≡ ok tt
      → Answers (some allowed) none fallback pvc
  unfolding validate_settings validate_denied validate_allowed fallback_test validate by_lists
      validate_allowed_classes mutate_or_reject
  by_allowed allowed none pvc h = elim (Bool-cases (contains allowed (storage_class_of pvc))) [
    | inl listed ↦ (accept, rw listed refl, listed)
    | inr other ↦ (reject (storage_class_of pvc), rw other refl, (refl, (λ m. cc (m, other)), refl))
  ]
  by_allowed allowed (some name) pvc h =
      elim (Bool-cases (contains allowed (storage_class_of pvc))) [
        | inl listed ↦ (accept, rw listed refl, listed)
        | inr other ↦
            let fine : name ∈ allowed = ground arith in
            (
              mutate (mutate_pvc unset pvc name),
              rw other refl,
              ((λ m. cc (m, other)), rw (class_of_mutated pvc name) fine, (name, refl, refl)),
            )
      ]

  by_denied :
      (denied : List String) (fallback : Option String) (pvc : PersistentVolumeClaim X)
      → validate_settings (settings none (some denied) fallback) ≡ ok tt
      → Answers none (some denied) fallback pvc
  unfolding validate_settings validate_denied validate_allowed fallback_test validate by_lists
      validate_denied_classes mutate_or_reject
  by_denied denied none pvc h = elim (Bool-cases (contains denied (storage_class_of pvc))) [
    | inl listed ↦
        (reject (storage_class_of pvc), rw listed refl, (refl, (λ free. free listed), refl))
    | inr other ↦ (accept, rw other refl, λ m. cc (m, other))
  ]
  by_denied denied (some name) pvc h = elim (Bool-cases (contains denied (storage_class_of pvc))) [
    | inl listed ↦
        let fine : ¬ (name ∈ denied) = λ m. ground arith in
        (
          mutate (mutate_pvc unset pvc name),
          rw listed refl,
          ((λ free. free listed), rw (class_of_mutated pvc name) fine, (name, refl, refl)),
        )
    | inr other ↦ (accept, rw other refl, λ m. cc (m, other))
  ]

  answers :
      (allowed denied : Option (List String)) (fallback : Option String)
      (pvc : PersistentVolumeClaim X)
      → validate_settings (settings allowed denied fallback) ≡ ok tt
      → Answers allowed denied fallback pvc
  unfolding validate_settings
  answers none none fallback pvc h = absurd (cc h)
  answers (some allowed) none fallback pvc h = by_allowed allowed fallback pvc h
  answers none (some denied) fallback pvc h = by_denied denied fallback pvc h
  answers (some allowed) (some denied) fallback pvc h = absurd (cc h)

  -- With checked settings the policy always answers a claim. It accepts it only if its storage class
  -- is allowed: on the list of those allowed, or not on the list of those denied. It changes a claim
  -- only if its class is not allowed, and then to the fallback class, which is. It rejects a claim
  -- only if its class is not allowed and there is no fallback class.
  pub validate-IsGranted :
      (s : Settings) (pvc : PersistentVolumeClaim X)
      → validate_settings s ≡ ok tt
      → (r : Response String (PersistentVolumeClaim X)) × (validate unset s (some pvc) ≡ some r)
        × IsGranted s pvc r
  validate-IsGranted s pvc h =
      answers s.allowed_storage_classes s.denied_storage_classes s.fallback_storage_class pvc h
