-- ===== src/ImageCve/Pods/Accepts.antt =====
-- What the policy answers to a workload.
use policies.Prelude.{◌≡◌, ◌↔◌, ◌⊎◌, inr, String, true, Option, [], contains_key, ◌+++◌}
use policies.K8s.{PodSpec}
use policies.Sdk.{Response, accept, reject, mutate}
use policies.ImageCve.Report.{VulnerabilityReport}
use policies.ImageCve.Settings.{Float, ImageLookupStrategy, digest, tag, OciPlatforms, Settings}
use policies.ImageCve.Lookup.{References, Host}
use policies.ImageCve.Lookup.Digests.{IsDigestOf}
use policies.ImageCve.Lookup.Reports.{IsSelector, report_for}
use policies.ImageCve.Pods.{Rejection}
use policies.ImageCve.Pods.Images.{Runs}
use policies.ImageCve.Pods.Passes.{HasTolerableReport}

module _ {F A O P R : Type 0} (float : Float F) (references : References R)
    (platforms : OciPlatforms A O P) (host : Host P) (s : Settings F A O)
    (workload_namespace : String) where
  abbrev report : String → Option VulnerabilityReport
  report selector = report_for references platforms host s workload_namespace selector

  -- By its digest: a tolerable report of it; or no digest, if that is ignored.
  abbrev pub IsAcceptableBy : ImageLookupStrategy → String → Type 0
  IsAcceptableBy digest image =
      ((found : String) × IsDigestOf references platforms host image s.platform found
        × HasTolerableReport float s (report ("imageMetadata.digest=" +++ found)))
      ⊎ ((s.ignore_missing_vulnerability_report ≡ true)
          × ((found : String) → ¬ IsDigestOf references platforms host image s.platform found))
  IsAcceptableBy tag image =
      (r : R) × (references.parse image ≡ inr r)
      × ((selector : String) × IsSelector references platforms host s workload_namespace image r
            selector
          × HasTolerableReport float s (report selector))

  abbrev pub IsAcceptable : String → Type 0
  IsAcceptable image = IsAcceptableBy s.image_lookup_strategy image

  -- An answer to a pod of a resource of this name.
  abbrev pub IsDeserved :
      {X : Type 0} → PodSpec X → String → Response (Rejection F P) (Unit {0}) → Type 0
  IsDeserved p name accept = (image : String) → Runs p image → IsAcceptable image
  IsDeserved p name (reject r) =
      (r.resource ≡ name)
      × (¬ (r.errors ≡ []))
      × ((image : String)
          → (contains_key image r.errors ≡ true) ↔ (Runs p image × (¬ IsAcceptable image)))
  IsDeserved p name (mutate u) = ⊥
