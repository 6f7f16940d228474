-- ===== src/ProjectLabels/Validate.antt =====
-- policies/rancher-project-propagate-labels/src/lib.rs and src/settings.rs, whose check accepts all
-- settings. `get_resource`, which asks the host, is a parameter; of a project its labels are read.
pub mod Loop
pub mod Merged
use policies.Prelude.{
  String, Bool, true, false, Option, none, some, List, [], ◌∷◌, Outcome, ok, err, panic, ◌>>=◌, ◌⊎◌,
  inl, inr, ◌==◌, get, put, split, strip_prefix, unwrap_or, if◌then◌else◌,
}
use policies.Sdk.{Response, accept, reject, mutate}

pub data FailureMode : Type 0 where
  ignore_ fail : FailureMode

pub record Settings : Type 0 where
  pub downstream_cluster_failure_mode : FailureMode

abbrev pub Labels : Type 0
Labels = List (String × String)

pub record Namespace (X : Type 0) : Type 0 where
  pub annotations : Option Labels
  pub labels : Option Labels
  pub others : X

pub record GetResourceRequest : Type 0 where
  pub api_version : String
  pub kind : String
  pub name : String
  pub namespace : Option String
  pub disable_cache : Bool

-- The errors of a call of `validate`; the host has texts of its own.
pub data CallError : Type 0 where
  not_a_namespace malformed_annotation : CallError
  host_error : String → CallError

pub data Rejection : Type 0 where
  upstream_cluster : Rejection

-- `entry`, `and_modify` and `or_insert_with`, with `labels_changed`.
propagate_label : String → String → Labels → Bool → Labels × Bool
propagate_label key value labels changed = elim (get key labels) [
  | none ↦ (put key value labels, true)
  | some old ↦ if old == value then (labels, changed) else (put key value labels, true)
]

-- The loop over the labels of the project. A key that `starts_with` the prefix is one that
-- `strip_prefix` gives something for.
pub propagate_all : Labels → Labels → Bool → Labels × Bool
unfolding propagate_label
propagate_all [] labels changed = (labels, changed)
propagate_all (entry ∷ project_labels) labels changed = elim (strip_prefix entry.0 "propagate.") [
  | none ↦ propagate_all project_labels labels changed
  | some patched_key ↦
      let (new_labels, new_changed) = propagate_label patched_key entry.1 labels changed in
      propagate_all project_labels new_labels new_changed
]

unfoldable pub merge_labels : Labels → Option Labels → Option Labels
unfolding propagate_all
merge_labels project_labels namespace_labels =
    let (labels, changed) = propagate_all project_labels (unwrap_or [] namespace_labels) false in
    if changed then some labels else none

-- The cluster and the project in the annotation, if it is there.
project_of : List String → Outcome CallError (Option (String × String))
project_of (cluster_id ∷ project_id ∷ []) = ok (some (cluster_id, project_id))
project_of tokens = err malformed_annotation

project_of_annotation : Option String → Outcome CallError (Option (String × String))
unfolding project_of
project_of_annotation none = ok none
project_of_annotation (some annotation) = project_of (split b':' annotation)

unfoldable pub cluster_project :
    {X : Type 0} → Namespace X → Outcome CallError (Option (String × String))
unfolding project_of_annotation
cluster_project namespace =
    project_of_annotation (get "field.cattle.io/projectId" (unwrap_or [] namespace.annotations))

abbrev pub project_request : String → String → GetResourceRequest
project_request cluster_id project_id = record {
  api_version = "management.cattle.io/v3";
  kind = "Project";
  name = project_id;
  namespace = some cluster_id;
  disable_cache = true;
}

by_mode : {X : Type 0} → FailureMode → Response Rejection (Namespace X)
by_mode fail = reject upstream_cluster
by_mode ignore_ = accept

patched : {X : Type 0} → Namespace X → Option Labels → Response Rejection (Namespace X)
patched namespace none = accept
patched namespace (some new_labels) = mutate (record namespace { labels = some new_labels })

-- The error of the host, or the labels of the project.
module _ (get_resource : GetResourceRequest → String ⊎ Option Labels) {X : Type 0} where
  from_project :
      Namespace X → String ⊎ Option Labels → Outcome CallError (Response Rejection (Namespace X))
  unfolding patched
  from_project namespace (inl e) = err (host_error e)
  from_project namespace (inr project_labels) =
      ok (patched namespace (merge_labels (unwrap_or [] project_labels) namespace.labels))

  unfoldable pub propagate_labels :
      String
      → String
      → Namespace X
      → Settings
      → Outcome CallError (Response Rejection (Namespace X))
  unfolding by_mode from_project
  propagate_labels cluster_id project_id namespace s =
      if cluster_id == "local"
      then from_project namespace (get_resource (project_request cluster_id project_id))
      else ok (by_mode s.downstream_cluster_failure_mode)

  by_project :
      Namespace X
      → Settings
      → Option (String × String)
      → Outcome CallError (Response Rejection (Namespace X))
  by_project namespace s none = ok accept
  by_project namespace s (some (cluster_id, project_id)) =
      propagate_labels cluster_id project_id namespace s

  -- An object that is no namespace is `none`.
  unfoldable pub validate :
      Settings → Option (Namespace X) → Outcome CallError (Response Rejection (Namespace X))
  unfolding by_project
  validate s none = err not_a_namespace
  validate s (some namespace) = cluster_project namespace >>= by_project namespace s
