-- ===== src/Capabilities/Mutate/Patch.antt =====
-- The patch of one security context.
use policies.Prelude.{
  ◌≡◌, ◌↔◌, refl, String, List, [], ◌∷◌, ◌++◌, true, Option, none, some, arith, ◌∈◌, is_empty,
  difference, not, ◌&&◌, unwrap_or, if◌then◌else◌, length-append, is_subset,
}
use policies.Prelude.Sets.Laws.{is_subset_iff, contains-append, contains-difference}
use policies.K8s.{Capabilities, SecurityContext, default_security_context}
use policies.Capabilities.Settings.{Settings}
use policies.Capabilities.Mutate.{
  size_changed, patch_container_security_context, no_capabilities, default_capabilities,
}

abbrev pub capabilities_of : {X : Type 0} → Option (SecurityContext X) → Capabilities
capabilities_of none = default_capabilities
capabilities_of (some sc) = unwrap_or default_capabilities sc.capabilities

-- The context adds every default capability and drops every one that must be dropped.
abbrev pub Complies : {X : Type 0} → Settings → Option (SecurityContext X) → Type 0
Complies s context =
    ((a : String) → a ∈ s.default_add_capabilities → a ∈ unwrap_or [] (capabilities_of context).add)
    × ((a : String)
        → a ∈ s.required_drop_capabilities
        → a ∈ unwrap_or [] (capabilities_of context).drop)

size_changed-append : (xs ys : List String) → size_changed xs (xs ++ ys) ≡ not (is_empty ys)
size_changed-append xs [] = ground (arith, length-append {0} xs [])
size_changed-append xs (y ∷ ys) = ground (arith, length-append {0} xs (y ∷ ys))

extend-covers : (xs ys : List String) (a : String) → a ∈ xs → a ∈ (ys ++ difference xs ys)
extend-covers xs ys a m =
    ground (arith, contains-append ys (difference xs ys) a, contains-difference xs ys a)

abbrev pub adds : {X : Type 0} → Option (SecurityContext X) → List String
adds context = unwrap_or [] (capabilities_of context).add

abbrev pub drops : {X : Type 0} → Option (SecurityContext X) → List String
drops context = unwrap_or [] (capabilities_of context).drop

module _ {X : Type 0} (unset : X) (s : Settings) where
  -- The context that the patch starts from.
  abbrev pub started : Option (SecurityContext X) → SecurityContext X
  started context =
      unwrap_or (record (default_security_context unset) { capabilities = some no_capabilities })
        context

  abbrev pub extended : Option (SecurityContext X) → SecurityContext X
  extended context = record (started context) {
    capabilities = some (record {
      add = some (adds context ++ difference s.default_add_capabilities (adds context));
      drop = some (drops context ++ difference s.required_drop_capabilities (drops context));
    });
  }

  patch_lem :
      (context : Option (SecurityContext X))
      → patch_container_security_context unset context s ≡ (
          if is_empty (difference s.default_add_capabilities (adds context))
            && is_empty (difference s.required_drop_capabilities (drops context))
          then none
          else some (extended context))
  unfolding patch_container_security_context
  patch_lem none = ground (
    arith,
    size_changed-append [] (difference s.default_add_capabilities []),
    size_changed-append [] (difference s.required_drop_capabilities []),
  )
  patch_lem (some sc) = ground (
    arith,
    size_changed-append (adds (some sc)) (difference s.default_add_capabilities (adds (some sc))),
    size_changed-append (drops (some sc))
        (difference s.required_drop_capabilities (drops (some sc))),
  )

  -- The patch leaves a context alone exactly when it complies already.
  pub patch-eq-none_iff :
      (context : Option (SecurityContext X))
      → (patch_container_security_context unset context s ≡ none) ↔ Complies s context
  unfolding is_subset
  patch-eq-none_iff context =
      let added = is_subset_iff s.default_add_capabilities (adds context) in
      let dropped = is_subset_iff s.required_drop_capabilities (drops context) in
      (
        λ h. (
          added.0 (ground (arith, patch_lem context)),
          dropped.0 (ground (arith, patch_lem context)),
        ),
        λ c.
            let a : is_empty (difference s.default_add_capabilities (adds context)) ≡ true =
              added.1 c.0 in
            let d : is_empty (difference s.required_drop_capabilities (drops context)) ≡ true =
              dropped.1 c.1 in
            ground (arith, patch_lem context),
      )

  -- A context that the patch returns complies, keeps what the old one added and dropped, and
  -- differs in its capabilities only from the old one, or from the default where there was none.
  pub patch-Complies :
      (context : Option (SecurityContext X)) (out : SecurityContext X)
      → patch_container_security_context unset context s ≡ some out
      → Complies s (some out)
        × ((a : String) → a ∈ adds context → a ∈ adds (some out))
        × ((a : String) → a ∈ drops context → a ∈ drops (some out))
        × (out ≡ record (started context) { capabilities = out.capabilities })
  patch-Complies context out h =
      let e : out ≡ extended context = ground (arith, patch_lem context) in
      rw e (
        (
          (λ a m. extend-covers s.default_add_capabilities (adds context) a m),
          (λ a m. extend-covers s.required_drop_capabilities (drops context) a m),
        ),
        (λ a m. ground (
          arith,
          contains-append (adds context) (difference s.default_add_capabilities (adds context)) a,
        )),
        (λ a m. ground (
          arith,
          contains-append (drops context) (difference s.required_drop_capabilities (drops context))
              a,
        )),
        refl,
      )
