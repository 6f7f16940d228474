-- ===== src/ImageCve/Pods/Passes.antt =====
-- What the policy answers to the images of a workload, by the functions that look reports up.
use policies.Prelude.{
  ◌≡◌, ◌↔◌, refl, String, true, Option, none, some, List, [], ◌∷◌, Outcome, ok, err, panic,
  contains, ◌∈◌, get, contains_key, arith, if◌then◌else◌,
}
use policies.Sdk.{Response, accept, reject, mutate}
use policies.ImageCve.Report.{VulnerabilityReport}
use policies.ImageCve.Settings.{Float, ImageLookupStrategy, digest, tag, OciPlatforms, Settings}
use policies.ImageCve.Verify.{ImageValidationError}
use policies.ImageCve.Verify.Tolerance.{IsTolerated, verify_vulnerability_report-IsTolerated_iff}
use policies.ImageCve.Lookup.{
  References, Host, get_image_digest, get_vulnerability_report_by_digest,
  get_vulnerability_report_by_tag,
}
use policies.ImageCve.Lookup.Small.{
  GivesSmallReports, IsSmall, IsSmallOutcome, get_vulnerability_report_by_digest-IsSmall,
  get_vulnerability_report_by_tag-IsSmallOutcome,
}
use policies.ImageCve.Pods.{Errors, Rejection, process_vulnerability_report, answer}
use policies.ImageCve.Pods.Errors.{
  verdict, verdict_by, verdict_of_digest, verdict_of_report, error_of, error_of-verdict_iff,
}

module _ {F A O : Type 0} (float : Float F) (s : Settings F A O) where
  -- A tolerated report, or a missing one that is ignored.
  abbrev pub HasTolerableReport : Option VulnerabilityReport → Type 0
  HasTolerableReport none = s.ignore_missing_vulnerability_report ≡ true
  HasTolerableReport (some r) = IsTolerated float s r.report

  process-HasTolerableReport_iff :
      {P : Type 0} (o : Option VulnerabilityReport)
      → IsSmall o
      → (process_vulnerability_report {P = P} float s o ≡ ok tt) ↔ HasTolerableReport o
  unfolding process_vulnerability_report
  process-HasTolerableReport_iff none small = ground arith
  process-HasTolerableReport_iff (some r) small =
      verify_vulnerability_report-IsTolerated_iff float s r.report small

module _ {F A O P R : Type 0} (float : Float F) (references : References R)
    (platforms : OciPlatforms A O P) (host : Host P) (s : Settings F A O)
    (workload_namespace : String) where
  -- By its digest: also an image whose digest is not found, if that is ignored.
  abbrev pub PassesDigest : Outcome (ImageValidationError F P) String → Type 0
  PassesDigest (ok found) =
      HasTolerableReport float s
        (get_vulnerability_report_by_digest references platforms host s workload_namespace found)
  PassesDigest (err e) = s.ignore_missing_vulnerability_report ≡ true
  PassesDigest panic = ⊥

  abbrev pub PassesReport : Outcome (ImageValidationError F P) (Option VulnerabilityReport) → Type 0
  PassesReport (ok report) = HasTolerableReport float s report
  PassesReport (err e) = ⊥
  PassesReport panic = ⊥

  abbrev pub PassesBy : ImageLookupStrategy → String → Type 0
  PassesBy digest image = PassesDigest (get_image_digest references platforms host image s.platform)
  PassesBy tag image =
      PassesReport
        (get_vulnerability_report_by_tag references platforms host s workload_namespace image)

  abbrev pub Passes : String → Type 0
  Passes image = PassesBy s.image_lookup_strategy image

  -- An answer to a resource of this name with these images.
  abbrev pub IsEarned : String → List String → Response (Rejection F P) (Unit {0}) → Type 0
  IsEarned name images accept = (image : String) → image ∈ images → Passes image
  IsEarned name images (reject r) =
      (r.resource ≡ name)
      × (¬ (r.errors ≡ []))
      × ((image : String)
          → (contains_key image r.errors ≡ true) ↔ ((image ∈ images) × (¬ Passes image)))
  IsEarned name images (mutate u) = ⊥

  module _ (small : GivesSmallReports host) where
    verdict_of_digest_iff :
        (o : Outcome (ImageValidationError F P) String)
        → (verdict_of_digest float references platforms host s workload_namespace o ≡ ok tt)
          ↔ PassesDigest o
    unfolding verdict_of_digest
    verdict_of_digest_iff (ok found) =
        process-HasTolerableReport_iff float s
          (get_vulnerability_report_by_digest references platforms host s workload_namespace found)
          (get_vulnerability_report_by_digest-IsSmall references platforms host s workload_namespace
            small found)
    verdict_of_digest_iff (err e) = ground arith
    verdict_of_digest_iff panic = (λ h. absurd (cc h), λ h. absurd h)

    verdict_of_report_iff :
        (o : Outcome (ImageValidationError F P) (Option VulnerabilityReport))
        → IsSmallOutcome o
        → (verdict_of_report float references platforms host s workload_namespace o ≡ ok tt)
          ↔ PassesReport o
    unfolding verdict_of_report
    verdict_of_report_iff (ok report) few = process-HasTolerableReport_iff float s report few
    verdict_of_report_iff (err e) few = (λ h. absurd (cc h), λ h. absurd h)
    verdict_of_report_iff panic few = (λ h. absurd (cc h), λ h. absurd h)

    verdict_by_iff :
        (strategy : ImageLookupStrategy) (image : String)
        → (verdict_by float references platforms host s workload_namespace strategy image ≡ ok tt)
          ↔ PassesBy strategy image
    unfolding verdict_by
    verdict_by_iff digest image = verdict_of_digest_iff _
    verdict_by_iff tag image = verdict_of_report_iff _ (
        get_vulnerability_report_by_tag-IsSmallOutcome references platforms host s
          workload_namespace small image)

    error_of-Passes_iff :
        (image : String)
        → (error_of float references platforms host s workload_namespace
              (verdict float references platforms host s workload_namespace image)
            ≡ none)
          ↔ Passes image
    unfolding verdict
    error_of-Passes_iff image =
        let free =
          error_of-verdict_iff float references platforms host s workload_namespace image in
        let fits = verdict_by_iff s.image_lookup_strategy image in
        (λ h. fits.0 (free.0 h), λ h. free.1 (fits.1 h))

    pub answer-IsEarned :
        (name : String) (images : List String) (errors : Errors F P)
        → ((image : String)
            → get image errors ≡ (
                if contains images image
                then error_of float references platforms host s workload_namespace
                    (verdict float references platforms host s workload_namespace image)
                else none))
        → (r : Response (Rejection F P) (Unit {0})) × (answer float references platforms host s
              (some name)
              errors
            ≡ some r)
          × IsEarned name images r
    unfolding answer get contains_key
    answer-IsEarned name images [] exact =
        (accept, refl, λ image m. (error_of-Passes_iff image).0 (ground (arith, exact image)))
    answer-IsEarned name images (e ∷ es) exact = (
      reject (record { resource = name; errors = e ∷ es }),
      refl,
      (refl, λ h. cc h, λ image. ground (arith, exact image, error_of-Passes_iff image)),
    )
