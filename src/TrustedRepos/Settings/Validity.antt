-- ===== src/TrustedRepos/Settings/Validity.antt =====
-- Which settings `validate` accepts.
use policies.Prelude.{
  ◌≡◌, ◌≢◌, ◌↔◌, ◌⊎◌, refl, true, false, is_some, List, [], ◌∷◌, arith, ok, All, is_empty, ◌+++◌,
  eq_iff,
}
use policies.TrustedRepos.Matchers.{Oci, StringMatcher, exact, pattern_}
use policies.TrustedRepos.Settings.{
  Registries, Tags, Images, Settings, validate_registries, is_invalid_tag, tags_not_valid,
  validate_tags, validate_images, error_of, validate,
}

module _ {R W : Type 0} (oci : Oci R) where
  -- A text that makes a reference when it stands as a tag, or a pattern that is not empty.
  abbrev pub IsTag : StringMatcher W → Type 0
  IsTag (exact t) = is_some (oci.from_str ("hello:" +++ t)) ≡ true
  IsTag (pattern_ w r) = r ≢ ""

  pub record AreTrustSettings (s : Settings R W) : Type 0 where
    pub registries : (s.registries.allow ≡ []) ⊎ (s.registries.reject ≡ [])
    pub images : (s.images.allow ≡ []) ⊎ (s.images.reject ≡ [])
    pub tags : All IsTag s.tags.reject

  is_invalid_tag-eq-false_iff : (m : StringMatcher W) → (is_invalid_tag oci m ≡ false) ↔ IsTag m
  unfolding is_invalid_tag
  is_invalid_tag-eq-false_iff (exact t) = ground arith
  is_invalid_tag-eq-false_iff (pattern_ w r) = ground (arith, eq_iff r "")

  tags_iff :
      (ms : List (StringMatcher W)) → (is_empty (tags_not_valid oci ms) ≡ true) ↔ All IsTag ms
  unfolding tags_not_valid
  tags_iff [] = (λ _. tt, λ _. refl)
  tags_iff (m ∷ ms) = ground (arith, is_invalid_tag-eq-false_iff m, tags_iff ms)

  validate_tags_iff : (t : Tags W) → (validate_tags oci t ≡ ok tt) ↔ All IsTag t.reject
  unfolding validate_tags
  validate_tags_iff t = ground (arith, tags_iff t.reject)

  validate_registries_iff :
      (r : Registries W) → (validate_registries oci r ≡ ok tt) ↔ ((r.allow ≡ []) ⊎ (r.reject ≡ []))
  unfolding validate_registries
  validate_registries_iff r = ground arith

  validate_images_iff :
      (i : Images R W) → (validate_images oci i ≡ ok tt) ↔ ((i.allow ≡ []) ⊎ (i.reject ≡ []))
  unfolding validate_images
  validate_images_iff i = ground arith

  validate_iff :
      (s : Settings R W)
      → (validate oci s ≡ ok tt) ↔ (
          (validate_registries oci s.registries ≡ ok tt)
          × (validate_images oci s.images ≡ ok tt)
          × (validate_tags oci s.tags ≡ ok tt))
  unfolding validate error_of validate_registries validate_images validate_tags
  validate_iff s = ground arith

  -- The settings pass the check exactly when registries and images each have at most one of the
  -- two lists, and every rejected tag is a tag or a pattern that is not empty.
  pub validate-AreTrustSettings_iff :
      (s : Settings R W) → (validate oci s ≡ ok tt) ↔ AreTrustSettings s
  validate-AreTrustSettings_iff s = (
    λ h.
        let (a, b, c) = (validate_iff s).0 h in
        record {
          registries = (validate_registries_iff s.registries).0 a;
          images = (validate_images_iff s.images).0 b;
          tags = (validate_tags_iff s.tags).0 c;
        },
    λ h. (validate_iff s).1 (
      (validate_registries_iff s.registries).1 h.registries,
      (validate_images_iff s.images).1 h.images,
      (validate_tags_iff s.tags).1 h.tags,
    ),
  )
