-- ===== src/ProjectLabels/Validate/Merged.antt =====
-- The labels that a namespace ends with.
use policies.Prelude.{
  ◌≡◌, refl, String, false, Option, some, [], ok, ◌⊎◌, inl, inr, get, IsKeyed, or_else, unwrap_or,
  Bool-cases,
}
use policies.Sdk.{Response, accept, reject, mutate}
use policies.ProjectLabels.Validate.Loop.{
  propagated, Differs, get-propagate_all, propagate_all-Differs_iff,
}
use policies.ProjectLabels.Validate.{
  Settings, Labels, Namespace, GetResourceRequest, Rejection, propagate_all, merge_labels,
  project_request, cluster_project, from_project, patched, propagate_labels, by_project, validate,
}

-- What the answer says of the labels of a namespace.
abbrev pub IsMerged :
    {X : Type 0} → Namespace X → Labels → Response Rejection (Namespace X) → Type 0
IsMerged namespace project_labels accept =
    (key : String) → ¬ Differs project_labels (unwrap_or [] namespace.labels) key
IsMerged namespace project_labels (reject e) = ⊥
IsMerged namespace project_labels (mutate namespace') =
    ((key : String) × Differs project_labels (unwrap_or [] namespace.labels) key)
    × ((new_labels : Labels) × (namespace' ≡ record namespace { labels = some new_labels })
        × ((key : String)
            → get key new_labels
              ≡ or_else (propagated project_labels key) (get key (unwrap_or [] namespace.labels))))

patched-IsMerged :
    {X : Type 0} (namespace : Namespace X) (project_labels : Labels)
    → IsKeyed project_labels
    → IsMerged namespace project_labels
        (patched namespace (merge_labels project_labels namespace.labels))
unfolding merge_labels patched
patched-IsMerged namespace project_labels keyed =
    let old = unwrap_or [] namespace.labels in
    let merged = propagate_all project_labels old false in
    let differs = propagate_all-Differs_iff project_labels old false keyed in
    elim (Bool-cases merged.1) [
      | inl changed ↦ rw changed (
        (elim (differs.0 changed) [ inl was ↦ absurd (cc was) | inr found ↦ found ]),
        (merged.0, refl, λ key. get-propagate_all project_labels old false key keyed),
      )
      | inr same ↦ rw same (λ key h. cc (same, differs.1 (inr (key, h))))
    ]

-- Where the annotation of a namespace names a project of the local cluster and the host knows it,
-- with no key twice among its labels, the policy answers: it accepts the namespace only if every
-- label that the project propagates, one with the prefix `propagate.`, has its value there
-- already. Else it changes the labels of the namespace and nothing else: each then has the value
-- that the project propagates, without the prefix in its key, or the value of before if the
-- project propagates none.
pub validate-IsMerged :
    {X : Type 0} (get_resource : GetResourceRequest → String ⊎ Option Labels) (s : Settings)
    (namespace : Namespace X) (project_id : String) (project_labels : Option Labels)
    → cluster_project namespace ≡ ok (some ("local", project_id))
    → get_resource (project_request "local" project_id) ≡ inr project_labels
    → IsKeyed (unwrap_or [] project_labels)
    → (r : Response Rejection (Namespace X)) × (validate get_resource s (some namespace) ≡ ok r)
      × IsMerged namespace (unwrap_or [] project_labels) r
unfolding validate propagate_labels from_project by_project
validate-IsMerged get_resource s namespace project_id project_labels local_ known keyed = (
  patched namespace (merge_labels (unwrap_or [] project_labels) namespace.labels),
  rw (local_, known) refl,
  patched-IsMerged namespace (unwrap_or [] project_labels) keyed,
)
