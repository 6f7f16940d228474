-- ===== src/TrustedRepos/Validation/Trust.antt =====
-- Which images the settings trust.
use policies.Prelude.{
  ◌≡◌, ◌↔◌, ◌⊎◌, inl, inr, refl, String, Bool, true, false, not, ◌&&◌, if◌then◌else◌, List, [], ◌∷◌,
  arith, Any, any, any_iff, none_iff, is_empty, unwrap_or,
}
use policies.TrustedRepos.Matchers.{Oci, Wild, matches, image_matches, image_matches_any}
use policies.TrustedRepos.Settings.{Settings}
use policies.TrustedRepos.Validation.{
  registry_matches_any, is_allowed_registry, tag_matches_any, is_allowed_tag, is_allowed_image,
}

-- Some matcher of the list matches.
abbrev pub Listed : {A : Type 0} → (A → Bool) → List A → Type 0
Listed p matchers = Any (λ m. p m ≡ true) matchers

-- Nothing of the list of rejections matches, and something of the other list does, if it is given.
abbrev pub IsAllowed : {A : Type 0} → (A → Bool) → List A → List A → Type 0
IsAllowed p allow reject = (¬ Listed p reject) × ((allow ≡ []) ⊎ Listed p allow)

abbrev decision : {A : Type 0} → (A → Bool) → List A → List A → Bool
decision p allow reject =
    if is_empty allow && is_empty reject
    then true
    else if not (is_empty reject) && any p reject
    then false
    else if not (is_empty allow)
    then any p allow
    else true

module _ {A : Type 0} (p : A → Bool) where
  decision_iff :
      (allow reject : List A) → (decision p allow reject ≡ true) ↔ IsAllowed p allow reject
  decision_iff [] [] = (λ _. (λ clash. elim clash [ ], inl refl), λ _. refl)
  decision_iff [] (y ∷ reject) = (
    λ h. ((none_iff p (y ∷ reject)).0 (ground arith), inl refl),
    λ h. ground (arith, (none_iff p (y ∷ reject)).1 h.0),
  )
  decision_iff (x ∷ allow) [] = (
    λ h. (λ clash. elim clash [ ], inr ((any_iff p (x ∷ allow)).0 h)),
    λ h. elim (h.1) [ inl none_ ↦ cc | inr listed ↦ (any_iff p (x ∷ allow)).1 listed ],
  )
  decision_iff (x ∷ allow) (y ∷ reject) = (
    λ h. (
      (none_iff p (y ∷ reject)).0 (ground arith),
      inr ((any_iff p (x ∷ allow)).0 (ground arith)),
    ),
    λ h. elim (h.1) [
      | inl none_ ↦ cc
      | inr listed ↦
          ground (arith, (any_iff p (x ∷ allow)).1 listed, (none_iff p (y ∷ reject)).1 h.0)
    ],
  )

  rejection_iff :
      (reject : List A)
      → ((if is_empty reject then true else not (any p reject)) ≡ true) ↔ (¬ Listed p reject)
  rejection_iff [] = (λ _ clash. elim clash [ ], λ _. refl)
  rejection_iff (y ∷ reject) = (
    λ h. (none_iff p (y ∷ reject)).0 (ground arith),
    λ h. ground (arith, (none_iff p (y ∷ reject)).1 h),
  )

module _ {R W : Type 0} (oci : Oci R) (wild : Wild W) (s : Settings R W) where
  pub record IsTrusted (image_ref : R) : Type 0 where
    pub registry :
        IsAllowed
          (λ m. matches wild m (oci.registry image_ref))
          s.registries.allow
          s.registries.reject
    pub tag : ¬ Listed (λ m. matches wild m (unwrap_or "latest" (oci.tag image_ref))) s.tags.reject
    pub image : IsAllowed (image_matches oci wild image_ref) s.images.allow s.images.reject

  is_allowed_registry_iff :
      (registry : String)
      → (is_allowed_registry oci wild s registry ≡ true)
        ↔ IsAllowed (λ m. matches wild m registry) s.registries.allow s.registries.reject
  unfolding is_allowed_registry registry_matches_any
  is_allowed_registry_iff registry =
      decision_iff (λ m. matches wild m registry) s.registries.allow s.registries.reject

  is_allowed_image_iff :
      (image_ref : R)
      → (is_allowed_image oci wild s image_ref ≡ true)
        ↔ IsAllowed (image_matches oci wild image_ref) s.images.allow s.images.reject
  unfolding is_allowed_image image_matches_any
  is_allowed_image_iff image_ref =
      decision_iff (image_matches oci wild image_ref) s.images.allow s.images.reject

  is_allowed_tag_iff :
      (tag : String)
      → (is_allowed_tag oci wild s tag ≡ true) ↔ (¬ Listed (λ m. matches wild m tag) s.tags.reject)
  unfolding is_allowed_tag tag_matches_any
  is_allowed_tag_iff tag = rejection_iff (λ m. matches wild m tag) s.tags.reject

  -- The three tests of the loop, together.
  pub tests-IsTrusted_iff :
      (image_ref : R)
      → ((is_allowed_registry oci wild s (oci.registry image_ref) ≡ true)
          × (is_allowed_tag oci wild s (unwrap_or "latest" (oci.tag image_ref)) ≡ true)
          × (is_allowed_image oci wild s image_ref ≡ true))
        ↔ IsTrusted image_ref
  tests-IsTrusted_iff r = (
    λ t. record {
      registry = (is_allowed_registry_iff (oci.registry r)).0 t.0;
      tag = (is_allowed_tag_iff (unwrap_or "latest" (oci.tag r))).0 t.1;
      image = (is_allowed_image_iff r).0 t.2;
    },
    λ t. (
      (is_allowed_registry_iff (oci.registry r)).1 t.registry,
      (is_allowed_tag_iff (unwrap_or "latest" (oci.tag r))).1 t.tag,
      (is_allowed_image_iff r).1 t.image,
    ),
  )
