-- ===== src/Capabilities/Settings/Consistency.antt =====
-- Which settings `validate` accepts.
use policies.Prelude.{
  ◌≡◌, ◌↔◌, ◌⊎◌, String, true, false, arith, ok, contains, ◌∈◌, is_empty, intersection, difference,
  is_disjoint, is_subset, inl, inr, Bool-cases,
}
use policies.Prelude.Sets.Laws.{is_disjoint_iff, is_subset_iff}
use policies.Capabilities.Settings.{Settings, allow_all_capabilities_enabled, validate}

pub record AreConsistent (s : Settings) : Type 0 where
  pub allowed :
      (a : String) → a ∈ s.allowed_capabilities → contains s.required_drop_capabilities a ≡ false
  pub defaults :
      (a : String)
      → a ∈ s.default_add_capabilities
      → contains s.required_drop_capabilities a ≡ false
  pub covered :
      ("*" ∈ s.allowed_capabilities)
      ⊎ ((a : String) → a ∈ s.default_add_capabilities → a ∈ s.allowed_capabilities)

-- The settings pass the check exactly when no capability that must be dropped is allowed or added
-- by default, and those added by default are all allowed.
pub validate-AreConsistent_iff : (s : Settings) → (validate s ≡ ok tt) ↔ AreConsistent s
unfolding validate is_disjoint is_subset allow_all_capabilities_enabled
validate-AreConsistent_iff s =
    let denied = is_disjoint_iff s.allowed_capabilities s.required_drop_capabilities in
    let added = is_disjoint_iff s.default_add_capabilities s.required_drop_capabilities in
    let extra = is_subset_iff s.default_add_capabilities s.allowed_capabilities in
    (
      λ h. record {
        allowed = denied.0 (ground arith);
        defaults = added.0 (ground arith);
        covered = elim (Bool-cases (contains s.allowed_capabilities "*")) [
          | inl all ↦ inl all
          | inr some_only ↦ inr (extra.0 (ground arith))
        ];
      },
      λ c.
          let e₁ : is_empty (intersection s.allowed_capabilities s.required_drop_capabilities)
              ≡ true =
            denied.1 c.allowed in
          let e₂ : is_empty (intersection s.default_add_capabilities s.required_drop_capabilities)
              ≡ true =
            added.1 c.defaults in
          elim c.covered [
            | inl all ↦ ground arith
            | inr only ↦
                let e₃ : is_empty (difference s.default_add_capabilities s.allowed_capabilities)
                    ≡ true =
                  extra.1 only in
                ground arith
          ],
    )
