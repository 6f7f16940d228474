-- ===== src/TrustedRepos/Matchers/Images.antt =====
-- Which images a matcher of images matches.
use policies.Prelude.{
  ◌≡◌, ◌↔◌, ◌⊎◌, refl, String, true, false, Option, none, some, arith, contains_char, ◌+++◌,
}
use policies.TrustedRepos.Matchers.{
  Oci, Wild, ImageMatcher, raw, matches, decided, same_ref, equals, image_ref_from_str,
  exact_matches, pattern_matches, image_matches,
}

module _ {R : Type 0} (oci : Oci R) where
  decided_iff : {a b : R} (d : Dec (a ≡ b)) → (decided oci d ≡ true) ↔ (a ≡ b)
  unfolding decided
  decided_iff (yes same) = (λ _. same, λ _. refl)
  decided_iff (no other) = (λ h. cc, λ same. absurd (other same))

  same_ref_iff : (a b : R) → (same_ref oci a b ≡ true) ↔ (a ≡ b)
  unfolding same_ref
  same_ref_iff a b = decided_iff (oci.eq a b)

  equals_iff : (e : R) (o : Option R) → (equals oci e o ≡ true) ↔ (o ≡ some e)
  unfolding equals
  equals_iff e none = (λ h. cc, λ h. cc)
  equals_iff e (some r) = (
    λ h. let same : r ≡ e = (same_ref_iff r e).0 h in cc (same),
    λ h. (same_ref_iff r e).1 (cc h),
  )

  -- The registry and the repository of an image, without tag and digest.
  abbrev pub registry_repo : R → String
  registry_repo r = oci.registry r +++ ("/" +++ oci.repository r)

module _ {R W : Type 0} (oci : Oci R) (wild : Wild W) where
  abbrev pub MatchesImage : R → ImageMatcher R W → Type 0
  MatchesImage r (ImageMatcher.exact e) =
      (e ≡ r)
      ⊎ (image_ref_from_str oci (oci.repository r) ≡ some e)
      ⊎ (image_ref_from_str oci (registry_repo oci r) ≡ some e)
  MatchesImage r (ImageMatcher.pattern_ m) =
      (matches wild m (oci.whole r) ≡ true)
      ⊎ ((contains_char b':' (raw m) ≡ false)
          × (contains_char b'@' (raw m) ≡ false)
          × ((matches wild m (registry_repo oci r) ≡ true)
              ⊎ (matches wild m (oci.repository r) ≡ true)))

  -- An exact matcher matches its own reference, and images whose repository, with or without their
  -- registry, reads as that reference. A pattern is matched against the whole image; and, if it
  -- has neither a colon nor an at sign, against the repository with and without the registry.
  pub image_matches-MatchesImage_iff :
      (r : R) (m : ImageMatcher R W) → (image_matches oci wild r m ≡ true) ↔ MatchesImage r m
  unfolding image_matches exact_matches pattern_matches
  image_matches-MatchesImage_iff r (ImageMatcher.exact e) = ground (
    arith,
    same_ref_iff oci e r,
    equals_iff oci e (image_ref_from_str oci (oci.repository r)),
    equals_iff oci e (image_ref_from_str oci (registry_repo oci r)),
  )
  image_matches-MatchesImage_iff r (ImageMatcher.pattern_ m) = ground arith
