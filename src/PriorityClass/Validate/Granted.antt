-- ===== src/PriorityClass/Validate/Granted.antt =====
-- Which priority classes the pods that are let through have.
use policies.Prelude.{
  ◌≡◌, ◌⊎◌, inl, inr, refl, sym, subst, String, true, false, Option, none, some, List, [], ◌∷◌, ok,
  err, is_empty, contains, ◌∈◌, arith, Bool-cases,
}
use policies.K8s.{PodSpec}
use policies.Sdk.{Response, accept, reject, mutate, pod_spec}
use policies.PriorityClass.Validate.{
  Settings, PriorityError, is_denied, is_not_allowed, validate_default, validate_settings,
  check_class, by_class, validate_pod_priority_class, not_mutated, answer, validate,
}

-- Not on the list of those denied, and on the list of those allowed if there is one.
abbrev pub IsGrantedClass : Settings → String → Type 0
IsGrantedClass s name =
    (contains s.denied_priority_classes name ≡ false)
    × ((is_empty s.allowed_priority_classes ≡ true) ⊎ (name ∈ s.allowed_priority_classes))

-- A class, or none where there is no default either.
abbrev pub IsGrantedOption : Settings → Option String → Type 0
IsGrantedOption s none = s.default_priority_class ≡ none
IsGrantedOption s (some name) = IsGrantedClass s name

abbrev pub IsUngranted : Settings → Option String → Type 0
IsUngranted s none = ⊥
IsUngranted s (some name) = ¬ IsGrantedClass s name

empty-contains : (xs : List String) (name : String) → is_empty xs ≡ true → contains xs name ≡ false
empty-contains [] name h = refl
empty-contains (x ∷ xs) name h = absurd (cc h)

validate_settings-IsGrantedClass :
    (s : Settings) (name : String)
    → s.default_priority_class ≡ some name
    → validate_settings s ≡ ok tt
    → IsGrantedClass s name
unfolding validate_settings validate_default
validate_settings-IsGrantedClass s name has h =
    let denied = empty-contains s.denied_priority_classes name in
    elim (Bool-cases (is_empty s.allowed_priority_classes)) [
      | inl unlisted ↦ (ground arith, inl unlisted)
      | inr closed ↦ (ground arith, inr (ground arith))
    ]

abbrev CheckedClass : Type 0 → Settings → String → Type 0
CheckedClass X s name =
    ((check_class {X = X} s name ≡ ok not_mutated) × IsGrantedClass s name)
    ⊎ ((e : PriorityError) × (check_class {X = X} s name ≡ err e) × (¬ IsGrantedClass s name))

check_class-IsGrantedClass : (X : Type 0) (s : Settings) (name : String) → CheckedClass X s name
unfolding check_class
check_class-IsGrantedClass X s name =
    let denied = empty-contains s.denied_priority_classes name in
    let allowed = empty-contains s.allowed_priority_classes name in
    elim (Bool-cases (contains s.denied_priority_classes name)) [
      | inl listed ↦ inr (is_denied name, ground arith, λ h. cc (h.0, listed))
      | inr free ↦ elim (Bool-cases (is_empty s.allowed_priority_classes)) [
        | inl unlisted ↦ inl (ground arith, (free, inl unlisted))
        | inr closed ↦ elim (Bool-cases (contains s.allowed_priority_classes name)) [
          | inl named ↦ inl (ground arith, (free, inr named))
          | inr other ↦ inr (is_not_allowed name, ground arith, λ h. ground arith)
        ]
      ]
    ]

module _ {X : Type 0} (s : Settings) where
  abbrev pub IsGrantedAnswer : PodSpec X → Response PriorityError (PodSpec X) → Type 0
  IsGrantedAnswer p accept = IsGrantedOption s p.priority_class_name
  IsGrantedAnswer p (reject e) = IsUngranted s p.priority_class_name
  IsGrantedAnswer p (mutate p') =
      (p.priority_class_name ≡ none)
      × ((name : String) × (s.default_priority_class ≡ some name)
          × IsGrantedClass s name
          × (p' ≡ record p { priority_class_name = some name }))

  granted_answer :
      (p : PodSpec X) (class_name default_class : Option String)
      → p.priority_class_name ≡ class_name
      → s.default_priority_class ≡ default_class
      → validate_settings s ≡ ok tt
      → (r : Response PriorityError (PodSpec X)) × (answer s (by_class s p class_name default_class)
          ≡ some r)
        × IsGrantedAnswer p r
  unfolding by_class answer
  granted_answer p none none has said h = (accept, refl, subst (IsGrantedOption s) (sym has) said)
  granted_answer p none (some name) has said h = (
    mutate (record p { priority_class_name = some name }),
    refl,
    (has, (name, said, validate_settings-IsGrantedClass s name said h, refl)),
  )
  granted_answer p (some name) default_class has said h =
      elim (check_class-IsGrantedClass X s name) [
        | inl (same, granted) ↦ (accept, rw same refl, subst (IsGrantedOption s) (sym has) granted)
        | inr (e, same, ungranted) ↦
            (reject e, rw same refl, subst (IsUngranted s) (sym has) ungranted)
      ]

  -- With checked settings the policy always answers a pod. It accepts it unchanged only if its
  -- priority class is granted, which is: not denied, and allowed if the settings allow some only;
  -- or if it has none and there is no default class. It changes a pod only if it has no priority
  -- class, to the default class, which is granted too, and nothing else of it. It rejects a pod
  -- only if it has a priority class that is not granted.
  pub validate-IsGrantedAnswer :
      (p : PodSpec X)
      → validate_settings s ≡ ok tt
      → (r : Response PriorityError (PodSpec X)) × (validate s (pod_spec p) ≡ some r)
        × IsGrantedAnswer p r
  unfolding validate validate_pod_priority_class
  validate-IsGrantedAnswer p h =
      granted_answer p p.priority_class_name s.default_priority_class refl refl h
