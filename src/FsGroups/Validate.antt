-- ===== src/FsGroups/Validate.antt =====
-- policies/allowed-fsgroups-psp-policy/src/lib.rs.
pub mod Laws
use policies.Prelude.{
  ℤ, Bool, ◌&&◌, List, [], ◌∷◌, Option, none, some, Outcome, ok, err, panic, ◌>>=◌, leb_ℤ, any,
  if◌then◌else◌,
}
use policies.K8s.{PodSecurityContext, PodSpec, Pod, default_pod_security_context}
use policies.Sdk.{Response, accept, reject, mutate}
use policies.FsGroups.Settings.{Range, Rule, must_run_as, may_run_as, run_as_any}

pub data Rejection : Type 0 where
  not_in_any_range : ℤ → Rejection

pub data FsGroupError : Type 0 where
  invalid_pod_spec : FsGroupError

in_any_range : List Range → ℤ → Bool
in_any_range ranges id = any (λ r. leb_ℤ r.min id && leb_ℤ id r.max) ranges

unfoldable pub fs_group_of : {X : Type 0} → Option (PodSecurityContext X) → Option ℤ
fs_group_of none = none
fs_group_of (some context) = context.fs_group

module _ {X : Type 0} (unset : X) where
  validate_fs_group : ℤ → List Range → Response Rejection (Pod X)
  validate_fs_group fs_group ranges =
      if in_any_range ranges fs_group then accept else reject (not_in_any_range fs_group)

  -- `ranges.ranges.first().unwrap().min`.
  first_min : List Range → Outcome FsGroupError ℤ
  first_min [] = panic
  first_min (r ∷ ranges) = ok r.min

  -- The pod with the default group: its security context is a new one, with no other field set.
  with_fs_group : Pod X → PodSpec X → ℤ → Pod X
  with_fs_group pod spec id = record pod {
    spec = some (record spec {
      security_context = some (record (default_pod_security_context unset) { fs_group = some id });
    });
  }

  by_rule : Rule → Pod X → PodSpec X → Outcome FsGroupError (Response Rejection (Pod X))
  by_rule (must_run_as ranges) pod spec = do
    id ← first_min ranges
    elim (fs_group_of spec.security_context) [
      | none ↦ ok (mutate (with_fs_group pod spec id))
      | some fs_group ↦ ok (validate_fs_group fs_group ranges)
    ]
  by_rule (may_run_as ranges) pod spec = elim (fs_group_of spec.security_context) [
    | none ↦ ok accept
    | some fs_group ↦ ok (validate_fs_group fs_group ranges)
  ]
  by_rule run_as_any pod spec = ok accept

  do_validate_spec :
      Option (PodSpec X) → Pod X → Rule → Outcome FsGroupError (Response Rejection (Pod X))
  do_validate_spec none pod rule = err invalid_pod_spec
  do_validate_spec (some spec) pod rule = by_rule rule pod spec

  unfoldable pub do_validate : Pod X → Rule → Outcome FsGroupError (Response Rejection (Pod X))
  unfolding do_validate_spec by_rule fs_group_of first_min with_fs_group validate_fs_group
      in_any_range
  do_validate pod rule = do_validate_spec pod.spec pod rule

  -- `none` is an object that does not parse as a pod.
  unfoldable pub validate :
      Option (Pod X) → Rule → Outcome FsGroupError (Response Rejection (Pod X))
  validate none rule = ok accept
  validate (some pod) rule = do_validate pod rule
