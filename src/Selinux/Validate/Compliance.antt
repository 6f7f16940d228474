-- ===== src/Selinux/Validate/Compliance.antt =====
-- When the options of a context comply with the settings.
use policies.Prelude.{
  ◌≡◌, ◌↔◌, inl, inr, refl, String, true, Option, none, some, arith, Option-cases, eq_iff,
}
use policies.K8s
use policies.Selinux.Settings.{SeLinuxOptionsExternal, SeLinuxOptions}
use policies.Selinux.Settings.Levels.{SameLevel, new-ok, new-level_eq_iff}
use policies.Selinux.Settings.Conversion.{IsConverted}
use policies.Selinux.Validate.{option_eq, is_level, level_complies, is_selinux_compliant}

-- The level matters only where both sides have one.
pub record Complies (external : SeLinuxOptionsExternal) (options : K8s.SeLinuxOptions)
    : Type 0 where
  pub level : (a b : String) → options.level ≡ some a → external.level ≡ some b → SameLevel a b
  pub role : options.role ≡ external.role
  pub type_ : options.type_ ≡ external.type_
  pub user : options.user ≡ external.user

option_eq_iff : (a b : Option String) → (option_eq a b ≡ true) ↔ (a ≡ b)
unfolding option_eq
option_eq_iff none none = (λ _. refl, λ _. refl)
option_eq_iff none (some b) = (λ h. cc, λ h. cc)
option_eq_iff (some a) none = (λ h. cc, λ h. cc)
option_eq_iff (some a) (some b) = ground (arith, eq_iff a b)

module _ (external : SeLinuxOptionsExternal) (expected : SeLinuxOptions)
    (converted : IsConverted external expected) (options : K8s.SeLinuxOptions) where
  level_complies_sound :
      level_complies expected.level options.level ≡ true
      → (a b : String) → options.level ≡ some a
      → external.level ≡ some b
      → SameLevel a b
  unfolding level_complies is_level
  level_complies_sound h a b has set =
      let (l, is_l, is_new) = converted.level b set in
      let (m, new_a) = new-ok a in (new-level_eq_iff a b m l new_a is_new).0 (ground arith)

  level_complies_complete :
      ((a b : String) → options.level ≡ some a → external.level ≡ some b → SameLevel a b)
      → level_complies expected.level options.level ≡ true
  unfolding level_complies is_level
  level_complies_complete h = elim (Option-cases external.level) [
    | inl unset ↦ ground (arith, converted.no_level unset)
    | inr (b, set) ↦
        let (l, is_l, is_new) = converted.level b set in
        elim (Option-cases options.level) [
          | inl missing ↦ ground arith
          | inr (a, has) ↦
              let (m, new_a) = new-ok a in
              ground (arith, (new-level_eq_iff a b m l new_a is_new).1 (h a b has set))
        ]
  ]

  -- Options comply with converted settings exactly when role, type and user are those of the
  -- settings, set or not, and the levels count as equal where both are set.
  pub is_selinux_compliant-Complies_iff :
      (is_selinux_compliant options expected ≡ true) ↔ Complies external options
  unfolding is_selinux_compliant
  is_selinux_compliant-Complies_iff = (
    λ h. record {
      level = level_complies_sound (ground arith);
      role = ground (arith, option_eq_iff options.role expected.role, converted.role);
      type_ = ground (arith, option_eq_iff options.type_ expected.type_, converted.type_);
      user = ground (arith, option_eq_iff options.user expected.user, converted.user);
    },
    λ c. ground (
      arith,
      level_complies_complete c.level,
      option_eq_iff options.role expected.role,
      option_eq_iff options.type_ expected.type_,
      option_eq_iff options.user expected.user,
      converted.role,
      converted.type_,
      converted.user,
      c.role,
      c.type_,
      c.user,
    ),
  )
