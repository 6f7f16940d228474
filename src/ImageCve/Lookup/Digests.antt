-- ===== src/ImageCve/Lookup/Digests.antt =====
-- Which digest an image has, against the calls of the host.
use policies.Prelude.{
  ◌≡◌, ◌↔◌, ◌⊎◌, inl, inr, refl, ap, subst, String, true, Option, none, some, List, [], ◌∷◌, ok,
  arith, Option-cases, Bool-cases,
}
use policies.ImageCve.Settings.{Platform, OciPlatforms, into_oci}
use policies.ImageCve.Lookup.{
  References, Descriptor, OciManifestResponse, image, image_index, Host, wanted_platform,
  host_platform, is_for, find_descriptor, digest_response, described, digest_of_manifest,
  digest_of_reference, get_image_digest,
}

module _ {A O P : Type 0} (platforms : OciPlatforms A O P) where
  -- The platform of the settings, or linux/amd64.
  abbrev pub platform_for : Option (Platform A O) → P
  platform_for none =
      platforms.set_os (platforms.os_from "linux")
        (platforms.set_architecture (platforms.arch_from "amd64") platforms.default_)
  platform_for (some p) = platforms.set_variant p.variant (
      platforms.set_os_features p.os_features (
        platforms.set_os_version p.os_version
          (platforms.set_os p.os (platforms.set_architecture p.arch platforms.default_))))

  abbrev pub IsFor : P → Option P → Type 0
  IsFor p none = ⊥
  IsFor p (some q) = platforms.eq q p ≡ true

  -- The digest of the first entry for the platform.
  abbrev pub IsFirstFor : P → List (Descriptor P) → String → Type 0
  IsFirstFor p [] digest = ⊥
  IsFirstFor p (d ∷ ds) digest =
      (IsFor p d.platform × (d.digest ≡ digest)) ⊎ ((¬ IsFor p d.platform) × IsFirstFor p ds digest)

  pub wanted_platform-eq :
      (o : Option (Platform A O)) → wanted_platform platforms o ≡ platform_for o
  unfolding wanted_platform host_platform into_oci
  wanted_platform-eq none = refl
  wanted_platform-eq (some p) = refl

  is_for_iff : (p : P) (o : Option P) → (is_for platforms p o ≡ true) ↔ IsFor p o
  unfolding is_for
  is_for_iff p none = (λ h. absurd (cc h), λ h. absurd h)
  is_for_iff p (some q) = (λ h. h, λ h. h)

module _ {R P A O : Type 0} (references : References R) (platforms : OciPlatforms A O P)
    (host : Host P) where
  -- Of the manifest of the image: asked of the host, or out of the index.
  abbrev pub IsManifestDigest : String → Option (Platform A O) → String → Type 0
  IsManifestDigest name platform digest =
      ((host.get_manifest name ≡ inr image) × (host.get_manifest_digest name ≡ inr digest))
      ⊎ ((ds : List (Descriptor P)) × (host.get_manifest name ≡ inr (image_index ds))
          × IsFirstFor platforms (platform_for platforms platform) ds digest)

  -- The digest of the reference, or else of the manifest.
  abbrev pub IsDigestOf : String → Option (Platform A O) → String → Type 0
  IsDigestOf name platform digest =
      (r : R) × (references.parse name ≡ inr r)
      × ((references.digest r ≡ some digest)
          ⊎ ((references.digest r ≡ none) × IsManifestDigest name platform digest))

  module _ {F : Type 0} where
    described_iff :
        (p : P) (ds : List (Descriptor P)) (digest : String)
        → (described references platforms host {F = F} p (find_descriptor platforms p ds)
            ≡ ok digest)
          ↔ IsFirstFor platforms p ds digest
    unfolding described find_descriptor
    described_iff p [] digest = (λ h. absurd (cc h), λ h. absurd h)
    described_iff p (d ∷ ds) digest =
        let rest = described_iff p ds digest in
        let fits = is_for_iff platforms p d.platform in
        elim (Bool-cases (is_for platforms p d.platform)) [
          | inl yes_ ↦ rw yes_ (
            λ h. inl (fits.0 yes_, cc h),
            λ h. elim h [
              | inl (fit, same) ↦ ap ok same
              | inr (other, later) ↦ absurd (other (fits.0 yes_))
            ],
          )
          | inr no_ ↦ rw no_ (
            λ h. inr ((λ fit. cc (fits.1 fit, no_)), rest.0 h),
            λ h. elim h [
              | inl (fit, same) ↦ absurd (cc (fits.1 fit, no_))
              | inr (other, later) ↦ rest.1 later
            ],
          )
        ]

    digest_response_iff :
        (o : String ⊎ String) (digest : String)
        → (digest_response references platforms host {F = F} o ≡ ok digest) ↔ (o ≡ inr digest)
    unfolding digest_response
    digest_response_iff (inl e) digest = (λ h. absurd (cc h), λ h. absurd (cc h))
    digest_response_iff (inr d) digest = (λ h. cc h, λ h. cc h)

    digest_of_manifest_iff :
        (name : String) (platform : Option (Platform A O)) (digest : String)
        (o : String ⊎ OciManifestResponse P)
        → host.get_manifest name ≡ o
        → (digest_of_manifest references platforms host {F = F} name platform o ≡ ok digest)
          ↔ IsManifestDigest name platform digest
    unfolding digest_of_manifest
    digest_of_manifest_iff name platform digest (inl e) asked = (
      λ h. absurd (cc h),
      λ h. elim h [
        | inl (single, same) ↦ absurd (cc (asked, single))
        | inr (ds, index, first) ↦ absurd (cc (asked, index))
      ],
    )
    digest_of_manifest_iff name platform digest (inr image) asked = (
      λ h. inl (asked, (digest_response_iff (host.get_manifest_digest name) digest).0 h),
      λ h. elim h [
        | inl (single, same) ↦ (digest_response_iff (host.get_manifest_digest name) digest).1 same
        | inr (ds, index, first) ↦ absurd (cc (asked, index))
      ],
    )
    digest_of_manifest_iff name platform digest (inr (image_index ds)) asked =
        let found = described_iff (platform_for platforms platform) ds digest in
        rw (wanted_platform-eq platforms platform) (
          λ h. inr (ds, asked, found.0 h),
          λ h. elim h [
            | inl (single, same) ↦ absurd (cc (asked, single))
            | inr (es, index, first) ↦
                let same : es ≡ ds = cc (asked, index) in
                found.1 (
                  subst (λ l. IsFirstFor platforms (platform_for platforms platform) l digest) same
                    first)
          ],
        )

    digest_of_reference_iff :
        (name : String) (platform : Option (Platform A O)) (digest : String) (o : String ⊎ R)
        → references.parse name ≡ o
        → (digest_of_reference references platforms host {F = F} name platform o ≡ ok digest)
          ↔ IsDigestOf name platform digest
    unfolding digest_of_reference
    digest_of_reference_iff name platform digest (inl e) parsed =
        (λ h. absurd (cc h), λ (r, reads, found). absurd (cc (parsed, reads)))
    digest_of_reference_iff name platform digest (inr r) parsed =
        let manifest = digest_of_manifest_iff name platform digest (host.get_manifest name) refl in
        elim (Option-cases (references.digest r)) [
          | inl without ↦ (
            λ h. (r, parsed, inr (without, manifest.0 (ground arith))),
            λ (q, reads, found).
                let same : q ≡ r = cc (parsed, reads) in
                elim found [
                  | inl pinned ↦ absurd (cc (same, pinned, without))
                  | inr (none_, whole) ↦ let done = manifest.1 whole in ground arith
                ],
          )
          | inr (d, with_) ↦ (
            λ h. (r, parsed, inl (ground arith)),
            λ (q, reads, found).
                let same : q ≡ r = cc (parsed, reads) in
                elim found [
                  | inl pinned ↦
                      let has : references.digest r ≡ some digest = cc (same, pinned) in
                      ground arith
                  | inr (none_, whole) ↦ absurd (cc (same, none_, with_))
                ],
          )
        ]

    pub get_image_digest-IsDigestOf_iff :
        (name : String) (platform : Option (Platform A O)) (digest : String)
        → (get_image_digest references platforms host {F = F} name platform ≡ ok digest)
          ↔ IsDigestOf name platform digest
    unfolding get_image_digest
    get_image_digest-IsDigestOf_iff name platform digest =
        digest_of_reference_iff name platform digest (references.parse name) refl
