-- ===== src/Lib.antt =====
-- Verification of the Kubewarden policies that are written in Rust, under policies/.
--
-- A policy reads its settings and an admission request and answers: it accepts the request, rejects
-- it with a reason, or accepts it with a changed object. Each policy is a crate of its own with the
-- same parts: src/settings.rs holds the settings and their check (`validate` of the trait
-- Validatable), src/lib.rs holds `validate`, which decodes the request and calls the policy's own
-- functions. The policies share two crates under policies/crates and otherwise only the SDK.
--
-- Modules of this library
--   Prelude        what the models share: fallible code with panics (Fallible), sets (Sets), lists
--                  (Lists), maps (Maps), i64 values (Int), texts (Text); Sets/Laws and Text/Split
--                  hold laws.
--   K8s, Sdk       the structures of k8s-openapi with the fields that the policies use, and the
--                  answers of the SDK.
--   Criteria       policies/crates/criteria_policy_base: Settings is src/settings.rs, Operators is
--                  src/operators.rs with src/validate.rs; Meaning and Reports hold the proofs.
--   UserGroup      policies/user-group-psp-policy: Settings is src/settings.rs; Context is the trait
--                  GenericSecurityContext, Enforce the rules enforce_run_as_user_rule,
--                  enforce_run_as_group and enforce_supplemental_groups, Pod the walk over the
--                  containers and `validate`, all of src/lib.rs.
--   Capabilities   policies/capabilities-psp-policy: Settings is src/settings.rs, Validate is
--                  src/validate.rs, Mutate is src/mutate.rs with `validate` of src/lib.rs.
--   FsGroups       policies/allowed-fsgroups-psp-policy: Settings and Validate.
--   ImageCve       policies/image-cve-policy: Report is src/sbomscanner, Settings is src/settings.rs,
--                  Verify is the check of a report and src/errors.rs, Lookup finds digests and
--                  reports, Pods is the loop over the images and `validate`, all of src/lib.rs.
--   Seccomp        policies/seccomp-psp-policy: Settings is src/settings.rs, Validate is src/lib.rs.
--   Selinux        policies/selinux-psp-policy: Settings is src/settings.rs, Validate is src/lib.rs.
--   Signatures     policies/verify-image-signatures: Settings is src/settings, Verify the
--                  verification of a pod, Resources the workloads and `validate`, both of src/lib.rs.
--   TrustedRepos   policies/trusted-repos-policy: Matchers is src/matchers.rs with src/matchers,
--                  Settings is src/settings.rs, Validation is src/validation.rs, Resources is
--                  src/validating_resource.rs with `validate` of src/lib.rs.
--   Probes         policies/probes-policy: Settings is src/settings.rs, Validate is src/lib.rs,
--                  both with the errors of src/errors.rs.
--   HighRisk       policies/high-risk-service-account-policy: Settings and Validate.
--   Escalation     policies/allow-privilege-escalation-psp-policy.
--   VolumeMounts   policies/volumeMounts-policy.
--   EnvVars        policies/environment-variable-policy.
--   StorageClass   policies/persistentvolumeclaim-storageclass-policy.
--   PriorityClass  policies/priority-class-policy.
--   ProjectLabels  policies/rancher-project-propagate-labels; these six have the settings and the
--                  check in one file Validate, with the proofs below it.
--   Examples       tests of the definitions, and the theorems at concrete inputs.
--
-- How the code is read
--   Names keep the source's words. A `Result` is an Outcome, which has a third case for a panic:
--   `unwrap` of a missing value and an index out of bounds. Errors are constructors with the values
--   that the source prints; the texts themselves are not modelled. A HashSet of strings is the list
--   of its elements in the order of iteration, which the theorems leave open. An i64 is an integer
--   that the code compares and does no arithmetic with, so no bounds are needed; where it is read
--   from text, `parse_i64` checks the range. A u32 is a natural number, and where a length or a sum
--   becomes one, `% 2 ^ 32` is written out. The operations on an f32 are parameters. Loops over
--   lists are structural recursion, so no model takes fuel.
--   The structures of k8s-openapi have one field `others` for all the fields that no policy reads,
--   of a type that the theorems leave open; `unset` is the default of that field.
--   Calls of the host and of the SDK are parameters: what the object of the request reads as, the
--   answers of get_manifest_and_config, get_manifest, get_manifest_digest, get_resource,
--   list_resources_by_namespace and can_i, and the verifications of signatures. So are the references
--   of oci-spec, the patterns of wildmatch, a regular expression for names of variables and the
--   derived equality of pod specifications.
--
-- Not modelled: the JSON of requests, settings and answers (serde and the SDK do it), logging,
-- printing of messages, the test-only branches `cfg!(test)`, the policies in Go and Rego, and the
-- Rust policies that have no module above.
pub mod Prelude
pub mod K8s
pub mod Sdk
pub mod Criteria
pub mod EnvVars
pub mod Escalation
pub mod UserGroup
pub mod VolumeMounts
pub mod Capabilities
pub mod FsGroups
pub mod HighRisk
pub mod ImageCve
pub mod PriorityClass
pub mod Seccomp
pub mod Selinux
pub mod Signatures
pub mod StorageClass
pub mod TrustedRepos
pub mod Probes
pub mod ProjectLabels
pub mod Examples
