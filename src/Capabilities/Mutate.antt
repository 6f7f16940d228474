-- ===== src/Capabilities/Mutate.antt =====
-- policies/capabilities-psp-policy/src/mutate.rs and src/lib.rs, built without `cfg!(test)`.
pub mod Patch
pub mod Walk
use policies.Prelude.{
  ℕ, String, Bool, true, false, not, ◌||◌, Option, none, some, is_some, List, [], ◌∷◌, ◌++◌,
  Outcome, ok, err, panic, ◌>>=◌, difference, is_empty, unwrap_or, if◌then◌else◌, length, leb, ◌&&◌,
  ◌⊎◌, inl, inr,
}
use policies.K8s.{Capabilities, SecurityContext, Container, PodSpec, default_security_context}
use policies.Sdk.{Response, accept, reject, mutate, Extracted, pod_spec, no_pod_spec, unreadable}
use policies.Capabilities.Settings.{Settings}
use policies.Capabilities.Validate.{CapabilityError, validate_added_caps}

-- `cap_add_size_before != cap_add.len()`.
abbrev size_changed : List String → List String → Bool
size_changed before after =
    not (leb (length before) (length after) && leb (length after) (length before))

abbrev no_capabilities : Capabilities
no_capabilities = record { add = some []; drop = some [] }

abbrev default_capabilities : Capabilities
default_capabilities = record { add = none; drop = none }

module _ {X : Type 0} (unset : X) where
  patch : Settings → SecurityContext X → Option (SecurityContext X)
  patch s sc =
      let capabilities = unwrap_or default_capabilities sc.capabilities in
      let add_before = unwrap_or [] capabilities.add in
      let cap_add = add_before ++ difference s.default_add_capabilities add_before in
      let drop_before = unwrap_or [] capabilities.drop in
      let cap_drop = drop_before ++ difference s.required_drop_capabilities drop_before in
      if size_changed add_before cap_add || size_changed drop_before cap_drop
      then some
          (record sc { capabilities = some (record { add = some cap_add; drop = some cap_drop }) })
      else none

  unfoldable pub patch_container_security_context :
      Option (SecurityContext X) → Settings → Option (SecurityContext X)
  unfolding patch
  patch_container_security_context context s = patch s (
      unwrap_or (record (default_security_context unset) { capabilities = some no_capabilities })
        context)

  -- One round of the loops: the context becomes what the patch returns, also where that is none.
  unfoldable pub patch_container : Settings → Container X → Container X
  patch_container s c = record c {
    security_context = patch_container_security_context c.security_context s;
  }

  patch_containers : Settings → List (Container X) → List (Container X)
  patch_containers s [] = []
  patch_containers s (c ∷ cs) = patch_container s c ∷ patch_containers s cs

  any_changed : Settings → List (Container X) → Bool
  any_changed s [] = false
  any_changed s (c ∷ cs) =
      is_some (patch_container_security_context c.security_context s) || any_changed s cs

  patch_inits : Settings → Option (List (Container X)) → Option (List (Container X))
  patch_inits s none = none
  patch_inits s (some cs) = some (patch_containers s cs)

  unfoldable pub patch_pod_spec : Settings → PodSpec X → Option (PodSpec X)
  unfolding patch_containers any_changed patch_inits
  patch_pod_spec s p =
      if any_changed s p.containers || any_changed s (unwrap_or [] p.init_containers)
      then some (record p {
        containers = patch_containers s p.containers;
        init_containers = patch_inits s p.init_containers;
      })
      else none

-- What `patch_object` returns: nothing, the pod specification, or the object of the request as it
-- came, where the object holds no pod specification.
pub data Patched (X : Type 0) : Type 0 where
  unchanged whole_object : Patched X
  patched : PodSpec X → Patched X

module _ {X : Type 0} (unset : X) where
  to_patched : Option (PodSpec X) → Patched X
  to_patched none = unchanged
  to_patched (some p) = patched p

  unfoldable pub patch_object :
      Settings → Extracted (PodSpec X) → Outcome CapabilityError (Patched X)
  unfolding to_patched
  patch_object s unreadable = err CapabilityError.error_deserializing
  patch_object s no_pod_spec = ok whole_object
  patch_object s (pod_spec p) = ok (to_patched (patch_pod_spec unset s p))

  -- `serde_json::from_value::<PodSpec>` of an object that holds no pod specification is the
  -- SDK's affair: `reread` is what it gives.
  answer :
      Outcome CapabilityError (PodSpec X)
      → Outcome CapabilityError (Patched X)
      → Outcome CapabilityError (Response CapabilityError (PodSpec X))
  answer reread (ok unchanged) = ok accept
  answer reread (ok whole_object) = do p ← reread; ok (mutate p)
  answer reread (ok (patched p)) = ok (mutate p)
  answer reread (err e) = err e
  answer reread panic = panic

  unfoldable pub validate :
      Settings
      → Outcome CapabilityError (PodSpec X)
      → Extracted (PodSpec X)
      → Outcome CapabilityError (Response CapabilityError (PodSpec X))
  unfolding answer
  validate s reread object = elim (validate_added_caps s object) [
    | ok u ↦ answer reread (patch_object s object)
    | err e ↦ ok (reject e)
    | panic ↦ panic
  ]
