-- ===== src/Seccomp/Settings/Validity.antt =====
-- Which settings `validate` accepts.
use policies.Prelude.{◌≡◌, ◌≢◌, ◌↔◌, refl, List, [], ◌∷◌, String, arith, ok, All, ◌∈◌, eq_iff}
use policies.Seccomp.Settings.{Settings, allowed_profile_types, check_types, validate}

abbrev pub IsProfileType : Settings → String → Type 0
IsProfileType s t = (t ∈ allowed_profile_types) × (t ≡ "Localhost" → s.localhost_profiles ≢ [])

check_types_iff :
    (s : Settings) (types : List String)
    → (check_types s types ≡ ok tt) ↔ All (IsProfileType s) types
unfolding check_types
check_types_iff s [] = (λ _. tt, λ _. refl)
check_types_iff s (t ∷ types) = ground (arith, eq_iff t "Localhost", check_types_iff s types)

-- The settings pass the check exactly when every profile type is one of the three that Kubernetes
-- knows, and the type Localhost comes with some localhost profiles.
pub validate-IsProfileType_iff :
    (s : Settings) → (validate s ≡ ok tt) ↔ All (IsProfileType s) s.profile_types
unfolding validate
validate-IsProfileType_iff s = check_types_iff s s.profile_types
