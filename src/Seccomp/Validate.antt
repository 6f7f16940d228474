-- ===== src/Seccomp/Validate.antt =====
-- policies/seccomp-psp-policy/src/lib.rs. The two kinds of containers, which the source joins by a
-- trait, are one type here.
pub mod Profiles
pub mod Accepts
pub mod Answers
use text.Mathlib.Text.{starts_with}
use policies.Prelude.{
  String, Bool, true, false, not, ◌&&◌, ◌||◌, Option, none, some, List, [], ◌∷◌, ◌++◌, Outcome, ok,
  err, panic, ◌>>=◌, contains, is_empty, ends_with, if◌then◌else◌, ◌==◌,
}
use policies.K8s.{SeccompProfile, SecurityContext, PodSecurityContext, Container, PodSpec, Pod}
use policies.Sdk.{Response, accept, reject}
use policies.Seccomp.Settings.{Settings}

pub data SeccompError : Type 0 where
  profiles_not_allowed : List String → SeccompError
  container_violations : List String → List String → SeccompError
  container_localhost_missing : SeccompError
  invalid_podspec_type invalid_podspec_profile : String → SeccompError
  podspec_localhost_missing error_deserializing : SeccompError

-- Whether the annotation sets a seccomp profile.
pub is_seccomp_annotation : String → Bool
is_seccomp_annotation annotation =
    starts_with annotation "container.seccomp.security.alpha.kubernetes.io"
    || annotation == "seccomp.security.alpha.kubernetes.io/pod"

invalid_annotations : Settings → List (String × String) → List String
invalid_annotations s [] = []
invalid_annotations s ((annotation, profile) ∷ annotations) =
    let rest = invalid_annotations s annotations in
    if is_seccomp_annotation annotation && not (contains s.allowed_profiles profile)
    then profile ∷ rest
    else rest

unfoldable pub do_validate_annotations :
    Option (List (String × String)) → Settings → Outcome SeccompError (Unit {0})
unfolding invalid_annotations is_seccomp_annotation
do_validate_annotations none s = ok tt
do_validate_annotations (some annotations) s =
    if not (is_empty (invalid_annotations s annotations))
    then err (profiles_not_allowed (invalid_annotations s annotations))
    else ok tt

-- One round of `allowed_profiles_has_profile_type`.
type_fits : SeccompProfile → String → Bool
type_fits p profile =
    (p.type_ == "RuntimeDefault" && (profile == "runtime/default" || profile == "docker/default"))
    || ((p.type_ == "Localhost" && starts_with profile "localhost/")
        || (p.type_ == "Unconfined" && profile == "unconfined"))

has_profile_type : List String → SeccompProfile → Bool
has_profile_type [] p = false
has_profile_type (profile ∷ profiles) p =
    let rest = has_profile_type profiles p in if type_fits p profile then true else rest

unfoldable pub allowed_profiles_has_profile_type : Settings → SeccompProfile → Bool
unfolding has_profile_type type_fits
allowed_profiles_has_profile_type s p = has_profile_type s.allowed_profiles p

localhost_fits : Option String → String → Bool
localhost_fits none profile = false
localhost_fits (some localhost_profile) profile = ends_with profile localhost_profile

defined_in : List String → SeccompProfile → Bool
defined_in [] p = false
defined_in (profile ∷ profiles) p =
    let rest = defined_in profiles p in
    if (p.type_ == "Localhost" && starts_with profile "localhost/")
      && localhost_fits p.localhost_profile profile
    then true
    else rest

unfoldable pub localhost_profile_defined_in_allowed_profiles : Settings → SeccompProfile → Bool
unfolding defined_in localhost_fits
localhost_profile_defined_in_allowed_profiles s p = defined_in s.allowed_profiles p

pub is_invalid_type : Settings → SeccompProfile → Bool
is_invalid_type s p =
    not (contains s.profile_types p.type_) && not (allowed_profiles_has_profile_type s p)

pub is_invalid_localhost : Settings → SeccompProfile → String → Bool
is_invalid_localhost s p localhost_profile =
    not (contains s.localhost_profiles localhost_profile)
    && not (localhost_profile_defined_in_allowed_profiles s p)

-- The names that a container adds to `invalid_seccomp_profile_types` and to
-- `invalid_seccomp_profile`.
localhost_of_profile :
    Settings → SeccompProfile → Option String → Outcome SeccompError (List String)
localhost_of_profile s p none = err container_localhost_missing
localhost_of_profile s p (some lp) = ok (if is_invalid_localhost s p lp then lp ∷ [] else [])

pub check_profile : Settings → SeccompProfile → Outcome SeccompError (List String × List String)
check_profile s p =
    let types : List String = if is_invalid_type s p then p.type_ ∷ [] else [] in
    if p.type_ == "Localhost"
    then (do profiles ← localhost_of_profile s p p.localhost_profile; ok (types, profiles))
    else ok (types, [])

check_container :
    Settings → Option SeccompProfile → Outcome SeccompError (List String × List String)
check_container s none = ok ([], [])
check_container s (some p) = check_profile s p

pod_localhost : Settings → SeccompProfile → Option String → Outcome SeccompError (Unit {0})
pod_localhost s p none = err podspec_localhost_missing
pod_localhost s p (some lp) =
    if is_invalid_localhost s p lp then err (invalid_podspec_profile lp) else ok tt

pub pod_profile : Settings → Option SeccompProfile → Outcome SeccompError (Unit {0})
pod_profile s none = ok tt
pod_profile s (some p) =
    if is_invalid_type s p
    then err (invalid_podspec_type p.type_)
    else if p.type_ == "Localhost"
    then pod_localhost s p p.localhost_profile
    else ok tt

-- `if let Err(error) = r { violations.push(error.to_string()) }`.
pub violation : Outcome SeccompError (Unit {0}) → Outcome SeccompError (List SeccompError)
violation (ok u) = ok []
violation (err e) = ok (e ∷ [])
violation panic = panic

module _ {X : Type 0} where
  unfoldable pub profile_of : Container X → Option SeccompProfile
  profile_of c = elim c.security_context [ none ↦ none | some sc ↦ sc.seccomp_profile ]

  -- The loop over the containers.
  check_containers :
      Settings → List (Container X) → Outcome SeccompError (List String × List String)
  check_containers s [] = ok ([], [])
  check_containers s (c ∷ cs) = do
    found ← check_container s (profile_of c)
    more ← check_containers s cs
    ok (found.0 ++ more.0, found.1 ++ more.1)

  unfoldable pub do_validate_containers :
      List (Container X) → Settings → Outcome SeccompError (Unit {0})
  unfolding check_containers check_container check_profile is_invalid_type is_invalid_localhost
      localhost_of_profile profile_of
  do_validate_containers cs s = do
    found ← check_containers s cs
    if is_empty found.0 && is_empty found.1
        then ok tt
        else err (container_violations found.0 found.1)

  unfoldable pub profile_of_pod : PodSpec X → Option SeccompProfile
  profile_of_pod p = elim p.security_context [ none ↦ none | some sc ↦ sc.seccomp_profile ]

  unfoldable pub do_validate_pod_security_context :
      PodSpec X → Settings → Outcome SeccompError (Unit {0})
  unfolding pod_profile pod_localhost is_invalid_type is_invalid_localhost profile_of_pod
  do_validate_pod_security_context p s = pod_profile s (profile_of_pod p)

  optional_containers : Option (List (Container X)) → Settings → Outcome SeccompError (Unit {0})
  optional_containers none s = ok tt
  optional_containers (some cs) s = do_validate_containers cs s

  spec_violations : Settings → Option (PodSpec X) → Outcome SeccompError (List SeccompError)
  spec_violations s none = ok []
  spec_violations s (some p) = do
    context ← violation (do_validate_pod_security_context p s)
    containers ← violation (do_validate_containers p.containers s)
    inits ← violation (optional_containers p.init_containers s)
    ephemerals ← violation (optional_containers p.ephemeral_containers s)
    ok (context ++ (containers ++ (inits ++ ephemerals)))

  unfoldable pub do_validate :
      Pod X → Settings → Outcome SeccompError (Response (List SeccompError) (Pod X))
  unfolding violation optional_containers spec_violations
  do_validate pod s = do
    annotations ← violation (do_validate_annotations pod.annotations s)
    spec ← spec_violations s pod.spec
    if is_empty (annotations ++ spec) then ok accept else ok (reject (annotations ++ spec))

  -- An object that does not parse as a pod is `none`. The answer is unwrapped.
  unfoldable pub validate :
      Settings → Option (Pod X) → Outcome SeccompError (Response (List SeccompError) (Pod X))
  validate s none = err error_deserializing
  validate s (some pod) = elim (do_validate pod s) [
    | ok answer ↦ ok answer
    | err e ↦ panic
    | panic ↦ panic
  ]
