-- ===== src/Examples/Projects.antt =====
-- policies/rancher-project-propagate-labels at concrete namespaces.
use policies.Prelude.{
  ◌≡◌, ◌⊎◌, inl, inr, refl, String, Option, none, some, List, [], ◌∷◌, ok, err, ◌==◌, unwrap_or,
  if◌then◌else◌,
}
use policies.Sdk.{Response, accept, reject, mutate}
use policies.ProjectLabels.Validate.{
  FailureMode, Settings, Labels, Namespace, GetResourceRequest, CallError, Rejection, validate,
}
use policies.ProjectLabels.Validate.Merged.{IsMerged, validate-IsMerged}

abbrev project_labels : Labels
project_labels = ("propagate.profile", "strict") ∷ ("cost-center", "123") ∷ []

abbrev host : GetResourceRequest → String ⊎ Option Labels
host request = if request.name == "p-1" then inr (some project_labels) else inl "no such project"

abbrev settings : Settings
settings = record { downstream_cluster_failure_mode = FailureMode.fail }

abbrev namespace : String → Labels → Namespace (Unit {0})
namespace project labels = record {
  annotations = some (("field.cattle.io/projectId", project) ∷ []);
  labels = some labels;
  others = tt;
}

validate_tests :
    (validate host settings (some (namespace "local:p-1" (("profile", "low") ∷ ("team", "a") ∷ [])))
      ≡ ok (mutate (namespace "local:p-1" (("profile", "strict") ∷ ("team", "a") ∷ []))))
    × (validate host settings (some (namespace "local:p-1" (("profile", "strict") ∷ [])))
        ≡ ok accept)
    × (validate host settings (some (namespace "c-2:p-1" []))
        ≡ ok (reject Rejection.upstream_cluster))
    × (validate host settings (some (namespace "local" [])) ≡ err CallError.malformed_annotation)
    × (validate host settings (some (namespace "local:p-2" []))
        ≡ err (CallError.host_error "no such project"))
unfolding validate policies.ProjectLabels.Validate.cluster_project policies.Prelude.get
    policies.Prelude.split policies.ProjectLabels.Validate.propagate_labels
    policies.ProjectLabels.Validate.merge_labels policies.Prelude.strip_prefix policies.Prelude.put
validate_tests = (refl, refl, refl, refl, refl)

validate-IsMerged_example :
    (r : Response Rejection (Namespace (Unit {0}))) × (validate host settings
        (some (namespace "local:p-1" (("profile", "low") ∷ [])))
      ≡ ok r)
    × IsMerged (namespace "local:p-1" (("profile", "low") ∷ [])) project_labels r
unfolding policies.ProjectLabels.Validate.cluster_project policies.Prelude.get
    policies.Prelude.split
validate-IsMerged_example =
    validate-IsMerged host settings (namespace "local:p-1" (("profile", "low") ∷ [])) "p-1"
      (some project_labels) refl refl (refl, (refl, tt))
