-- ===== src/TrustedRepos/Matchers/Normal.antt =====
-- What the normal form of a reference keeps.
use policies.Prelude.{
  ◌≡◌, inl, inr, refl, String, Option, none, some, to_lowercase, unwrap_or, ◌==◌, eq_iff,
  Bool-cases,
}
use policies.TrustedRepos.Matchers.{Oci, rebuilt, from_reference}

-- What oci-spec says of the references that it makes from parts.
pub record HasParts {R : Type 0} (oci : Oci R) : Type 0 where
  pub registry_tag : (a b t : String) → oci.registry (oci.with_tag a b t) ≡ a
  pub registry_digest : (a b d : String) → oci.registry (oci.with_digest a b d) ≡ a
  pub registry_both : (a b t d : String) → oci.registry (oci.with_tag_and_digest a b t d) ≡ a
  pub repository_tag : (a b t : String) → oci.repository (oci.with_tag a b t) ≡ b
  pub repository_digest : (a b d : String) → oci.repository (oci.with_digest a b d) ≡ b
  pub repository_both : (a b t d : String) → oci.repository (oci.with_tag_and_digest a b t d) ≡ b
  pub tag_tag : (a b t : String) → oci.tag (oci.with_tag a b t) ≡ some t
  pub tag_digest : (a b d : String) → oci.tag (oci.with_digest a b d) ≡ none
  pub tag_both : (a b t d : String) → oci.tag (oci.with_tag_and_digest a b t d) ≡ some t

module _ {R : Type 0} (oci : Oci R) where
  -- The registry in lower case, and the repository and the tag as given.
  abbrev pub IsNormal : R → String → Option String → R → Type 0
  IsNormal r registry tag r' =
      (oci.registry r' ≡ registry)
      × (oci.repository r' ≡ oci.repository r)
      × (unwrap_or "latest" (oci.tag r') ≡ unwrap_or "latest" tag)

module _ {R : Type 0} (oci : Oci R) (parts : HasParts oci) where
  rebuilt-IsNormal :
      (r : R) (registry : String) (tag digest : Option String)
      → IsNormal oci r registry tag (rebuilt oci r registry tag digest)
  unfolding rebuilt
  rebuilt-IsNormal r registry (some t) (some d) = (
    parts.registry_both registry (oci.repository r) t d,
    parts.repository_both registry (oci.repository r) t d,
    rw (parts.tag_both registry (oci.repository r) t d) refl,
  )
  rebuilt-IsNormal r registry (some t) none = (
    parts.registry_tag registry (oci.repository r) t,
    parts.repository_tag registry (oci.repository r) t,
    rw (parts.tag_tag registry (oci.repository r) t) refl,
  )
  rebuilt-IsNormal r registry none (some d) = (
    parts.registry_digest registry (oci.repository r) d,
    parts.repository_digest registry (oci.repository r) d,
    rw (parts.tag_digest registry (oci.repository r) d) refl,
  )
  rebuilt-IsNormal r registry none none = (
    parts.registry_tag registry (oci.repository r) "latest",
    parts.repository_tag registry (oci.repository r) "latest",
    rw (parts.tag_tag registry (oci.repository r) "latest") refl,
  )

  -- Where the references that oci-spec makes from parts have these parts, an image reference has
  -- the registry in lower case, and the repository and the tag ("latest" if there is none) of the
  -- reference that was read.
  pub from_reference-IsNormal :
      (r : R) → IsNormal oci r (to_lowercase (oci.registry r)) (oci.tag r) (from_reference oci r)
  unfolding from_reference
  from_reference-IsNormal r = elim (Bool-cases (oci.registry r == to_lowercase (oci.registry r))) [
    | inl lower ↦
        rw lower ((eq_iff (oci.registry r) (to_lowercase (oci.registry r))).0 lower, refl, refl)
    | inr upper ↦
        rw upper (rebuilt-IsNormal r (to_lowercase (oci.registry r)) (oci.tag r) (oci.digest r))
  ]
