-- ===== src/ImageCve/Lookup/Totality.antt =====
-- Reports are looked up without a panic.
use policies.Prelude.{◌≡◌, String, Option, none, some, ◌⊎◌, inl, inr, panic, arith, Option-cases}
use policies.ImageCve.Settings.{Platform, OciPlatforms, Settings}
use policies.ImageCve.Lookup.{
  References, Descriptor, OciManifestResponse, image, image_index, Host, digest_response, described,
  digest_of_manifest, digest_of_reference, get_image_digest, report_of_reference,
  get_vulnerability_report_by_tag,
}

module _ {R P A O F : Type 0} (references : References R) (platforms : OciPlatforms A O P)
    (host : Host P) where
  digest_response-ne-panic :
      (o : String ⊎ String) → ¬ (digest_response references platforms host {F = F} o ≡ panic)
  unfolding digest_response
  digest_response-ne-panic (inl e) h = cc
  digest_response-ne-panic (inr d) h = cc

  described-ne-panic :
      (p : P) (o : Option (Descriptor P))
      → ¬ (described references platforms host {F = F} p o ≡ panic)
  unfolding described
  described-ne-panic p none h = cc
  described-ne-panic p (some d) h = cc

  digest_of_manifest-ne-panic :
      (name : String) (platform : Option (Platform A O)) (o : String ⊎ OciManifestResponse P)
      → ¬ (digest_of_manifest references platforms host {F = F} name platform o ≡ panic)
  unfolding digest_of_manifest
  digest_of_manifest-ne-panic name platform (inl e) h = cc
  digest_of_manifest-ne-panic name platform (inr image) h = digest_response-ne-panic _ h
  digest_of_manifest-ne-panic name platform (inr (image_index ds)) h = described-ne-panic _ _ h

  digest_of_reference-ne-panic :
      (name : String) (platform : Option (Platform A O)) (o : String ⊎ R)
      → ¬ (digest_of_reference references platforms host {F = F} name platform o ≡ panic)
  unfolding digest_of_reference
  digest_of_reference-ne-panic name platform (inl e) h = cc
  digest_of_reference-ne-panic name platform (inr r) h = elim (Option-cases (references.digest r)) [
    | inl without ↦
        digest_of_manifest-ne-panic name platform (host.get_manifest name) (ground arith)
    | inr (d, with_) ↦ cc (h, with_)
  ]

  pub get_image_digest-ne-panic :
      (name : String) (platform : Option (Platform A O))
      → ¬ (get_image_digest references platforms host {F = F} name platform ≡ panic)
  unfolding get_image_digest
  get_image_digest-ne-panic name platform =
      digest_of_reference-ne-panic name platform (references.parse name)

  module _ (s : Settings F A O) (workload_namespace : String) where
    report_of_reference-ne-panic :
        (name : String) (o : String ⊎ R)
        → ¬ (report_of_reference references platforms host s workload_namespace name o ≡ panic)
    unfolding report_of_reference
    report_of_reference-ne-panic name (inl e) h = cc
    report_of_reference-ne-panic name (inr r) h = ground arith

    pub get_vulnerability_report_by_tag-ne-panic :
        (name : String)
        → ¬ (
            get_vulnerability_report_by_tag references platforms host s workload_namespace name
            ≡ panic)
    unfolding get_vulnerability_report_by_tag
    get_vulnerability_report_by_tag-ne-panic name =
        report_of_reference-ne-panic name (references.parse name)
