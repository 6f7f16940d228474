-- ===== src/ImageCve/Pods/Errors.antt =====
-- The map of errors that the loop over the images fills.
use policies.Prelude.{
  ◌≡◌, ◌↔◌, inl, inr, refl, String, Bool, false, Option, none, some, List, [], ◌∷◌, ◌||◌, Outcome,
  ok, err, panic, contains, get, put, get-put, contains_key, ◌==◌, eq_iff, arith, Option-cases,
  if◌then◌else◌,
}
use policies.ImageCve.Report.{VulnerabilityReport}
use policies.ImageCve.Settings.{Float, ImageLookupStrategy, digest, tag, OciPlatforms, Settings}
use policies.ImageCve.Verify.{ImageValidationError}
use policies.ImageCve.Lookup.{
  References, Host, get_image_digest, get_vulnerability_report_by_digest,
  get_vulnerability_report_by_tag,
}
use policies.ImageCve.Verify.Totality.{verify_vulnerability_report-ne-panic}
use policies.ImageCve.Lookup.Totality.{
  get_image_digest-ne-panic, get_vulnerability_report_by_tag-ne-panic,
}
use policies.ImageCve.Pods.{
  Errors, process_vulnerability_report, recorded, verify_container_image, verify_images,
  by_strategy, by_digest, by_tag,
}

module _ {F A O P R : Type 0} (float : Float F) (references : References R)
    (platforms : OciPlatforms A O P) (host : Host P) (s : Settings F A O)
    (workload_namespace : String) where
  unfoldable pub verdict_of_digest :
      Outcome (ImageValidationError F P) String → Outcome (ImageValidationError F P) (Unit {0})
  verdict_of_digest (ok found) =
      process_vulnerability_report float s
        (get_vulnerability_report_by_digest references platforms host s workload_namespace found)
  verdict_of_digest (err e) = if s.ignore_missing_vulnerability_report then ok tt else err e
  verdict_of_digest panic = panic

  unfoldable pub verdict_of_report :
      Outcome (ImageValidationError F P) (Option VulnerabilityReport)
      → Outcome (ImageValidationError F P) (Unit {0})
  verdict_of_report (ok report) = process_vulnerability_report float s report
  verdict_of_report (err e) = err e
  verdict_of_report panic = panic

  unfoldable pub verdict_by :
      ImageLookupStrategy → String → Outcome (ImageValidationError F P) (Unit {0})
  unfolding verdict_of_digest verdict_of_report
  verdict_by digest image =
      verdict_of_digest (get_image_digest references platforms host image s.platform)
  verdict_by tag image =
      verdict_of_report
        (get_vulnerability_report_by_tag references platforms host s workload_namespace image)

  -- What the call does to the map: nothing, one error, or a panic.
  unfoldable pub verdict : String → Outcome (ImageValidationError F P) (Unit {0})
  unfolding verdict_by
  verdict image = verdict_by s.image_lookup_strategy image

  by_strategy-recorded :
      (image : String) (errors : Errors F P)
      → by_strategy float references platforms host s workload_namespace s.image_lookup_strategy
          image errors
        ≡ recorded image (verdict image) errors
  unfolding by_strategy by_digest by_tag recorded verdict
  by_strategy-recorded image errors = ground arith

  pub process_vulnerability_report-ne-panic :
      (o : Option VulnerabilityReport) → ¬ (process_vulnerability_report {P = P} float s o ≡ panic)
  unfolding process_vulnerability_report
  process_vulnerability_report-ne-panic none h = ground arith
  process_vulnerability_report-ne-panic (some r) h =
      verify_vulnerability_report-ne-panic float s r.report h

  verdict_of_digest-ne-panic :
      (o : Outcome (ImageValidationError F P) String)
      → ¬ (o ≡ panic)
      → ¬ (verdict_of_digest o ≡ panic)
  unfolding verdict_of_digest
  verdict_of_digest-ne-panic (ok found) total h = process_vulnerability_report-ne-panic _ h
  verdict_of_digest-ne-panic (err e) total h = ground arith
  verdict_of_digest-ne-panic panic total h = total refl

  verdict_of_report-ne-panic :
      (o : Outcome (ImageValidationError F P) (Option VulnerabilityReport))
      → ¬ (o ≡ panic)
      → ¬ (verdict_of_report o ≡ panic)
  unfolding verdict_of_report
  verdict_of_report-ne-panic (ok report) total h = process_vulnerability_report-ne-panic _ h
  verdict_of_report-ne-panic (err e) total h = cc
  verdict_of_report-ne-panic panic total h = total refl

  verdict_by-ne-panic :
      (strategy : ImageLookupStrategy) (image : String) → ¬ (verdict_by strategy image ≡ panic)
  unfolding verdict_by
  verdict_by-ne-panic digest image =
      verdict_of_digest-ne-panic _
        (get_image_digest-ne-panic references platforms host image s.platform)
  verdict_by-ne-panic tag image = verdict_of_report-ne-panic _ (
      get_vulnerability_report_by_tag-ne-panic references platforms host s workload_namespace image)

  verdict-ne-panic : (image : String) → ¬ (verdict image ≡ panic)
  unfolding verdict
  verdict-ne-panic image = verdict_by-ne-panic s.image_lookup_strategy image

  abbrev pub error_of :
      Outcome (ImageValidationError F P) (Unit {0}) → Option (ImageValidationError F P)
  error_of (ok u) = none
  error_of (err e) = some e
  error_of panic = none

  error_of_iff :
      (v : Outcome (ImageValidationError F P) (Unit {0}))
      → ¬ (v ≡ panic)
      → (error_of v ≡ none) ↔ (v ≡ ok tt)
  error_of_iff (ok tt) total = (λ h. refl, λ h. refl)
  error_of_iff (err e) total = (λ h. cc, λ h. cc)
  error_of_iff panic total = absurd (total refl)

  pub error_of-verdict_iff :
      (image : String) → (error_of (verdict image) ≡ none) ↔ (verdict image ≡ ok tt)
  error_of-verdict_iff image = error_of_iff (verdict image) (verdict-ne-panic image)

  -- The map holds the errors of exactly the images that were seen.
  abbrev IsExact : (String → Bool) → Errors F P → Type 0
  IsExact seen errors =
      (image : String) → get image errors ≡ (if seen image then error_of (verdict image) else none)

  recorded-IsExact :
      (image : String) (errors : Errors F P) (seen : String → Bool)
      (v : Outcome (ImageValidationError F P) (Unit {0}))
      → verdict image ≡ v
      → ¬ (v ≡ panic)
      → get image errors ≡ none
      → IsExact seen errors
      → (later : Errors F P) × (recorded image v errors ≡ some later)
        × IsExact (λ other. other == image || seen other) later
  unfolding recorded
  recorded-IsExact image errors seen (ok u) is total absent exact =
      (errors, refl, λ other. ground (arith, eq_iff other image, exact other))
  recorded-IsExact image errors seen (err e) is total absent exact = (
    put image e errors,
    refl,
    λ other. ground (arith, eq_iff other image, exact other, get-put image e errors other),
  )
  recorded-IsExact image errors seen panic is total absent exact = absurd (total refl)

  verify_container_image-IsExact :
      (image : String) (errors : Errors F P) (seen : String → Bool)
      → IsExact seen errors
      → (later : Errors F P) × (verify_container_image float references platforms host s
            workload_namespace image errors
          ≡ some later)
        × IsExact (λ other. other == image || seen other) later
  unfolding verify_container_image contains_key
  verify_container_image-IsExact image errors seen exact = elim (Option-cases (get image errors)) [
    | inl absent ↦
        let (later, done, after) =
          recorded-IsExact image errors seen (verdict image) refl (verdict-ne-panic image) absent
            exact in
        (later, ground (arith, by_strategy-recorded image errors), after)
    | inr (e, present) ↦ (
      errors,
      ground arith,
      λ other. ground (arith, eq_iff other image, exact other, exact image),
    )
  ]

  verify_images-IsExact :
      (images : List String) (errors : Errors F P) (seen : String → Bool)
      → IsExact seen errors
      → (later : Errors F P) × (verify_images float references platforms host s workload_namespace
            images errors
          ≡ some later)
        × IsExact (λ other. contains images other || seen other) later
  unfolding verify_images
  verify_images-IsExact [] errors seen exact = (errors, refl, exact)
  verify_images-IsExact (image ∷ images) errors seen exact =
      let (next, first, held) = verify_container_image-IsExact image errors seen exact in
      let (later, rest, after) =
        verify_images-IsExact images next (λ other. other == image || seen other) held in
      (later, ground arith, λ other. ground (arith, after other))

  pub verify_images-verdict :
      (images : List String)
      → (errors : Errors F P) × (verify_images float references platforms host s workload_namespace
            images []
          ≡ some errors)
        × ((image : String)
            → get image errors ≡ (if contains images image then error_of (verdict image) else none))
  unfolding get
  verify_images-verdict images =
      let (errors, done, exact) =
        verify_images-IsExact images [] (λ other. false) (λ other. refl) in
      (errors, done, λ image. ground (arith, exact image))

  -- The loop over the images never panics. In the map of errors that it ends with, an image of the
  -- list has the error that its own check gives, or none if that gives none, wherever and however
  -- often the image occurs; and nothing else is in the map.
  pub verify_images-alone :
      (images : List String)
      → (errors : Errors F P) × (verify_images float references platforms host s workload_namespace
            images []
          ≡ some errors)
        × ((image : String)
            → (alone : Errors F P) × (verify_container_image float references platforms host s
                  workload_namespace image []
                ≡ some alone)
              × (get image errors ≡ (if contains images image then get image alone else none)))
  unfolding get
  verify_images-alone images =
      let (errors, done, exact) = verify_images-verdict images in
      (
        errors,
        done,
        λ image.
            let (alone, one, own) =
              verify_container_image-IsExact image [] (λ other. false) (λ other. refl) in
            (alone, one, ground (arith, exact image, own image, eq_iff image image)),
      )
