-- ===== src/Seccomp/Validate/Profiles.antt =====
-- Which profiles the settings allow.
use text.Mathlib.Text.{starts_with}
use policies.Prelude.{
  ◌≡◌, ◌↔◌, ◌⊎◌, inl, inr, true, false, ◌&&◌, some, List, [], ◌∷◌, String, arith, ok, ◌∈◌, contains,
  eq_iff, Any, here, there, ends_with, Bool-cases, ◌==◌, Option-cases,
}
use policies.K8s.{SeccompProfile}
use policies.Seccomp.Settings.{Settings}
use policies.Seccomp.Validate.{
  type_fits, has_profile_type, allowed_profiles_has_profile_type, localhost_fits, defined_in,
  localhost_profile_defined_in_allowed_profiles, is_invalid_type, is_invalid_localhost,
  localhost_of_profile, check_profile, pod_profile, pod_localhost,
}

-- An entry of `allowed_profiles`, in the notation of the annotations, allows the type.
abbrev pub TypeFits : SeccompProfile → String → Type 0
TypeFits p entry =
    ((p.type_ ≡ "RuntimeDefault") × ((entry ≡ "runtime/default") ⊎ (entry ≡ "docker/default")))
    ⊎ ((p.type_ ≡ "Localhost") × (starts_with entry "localhost/" ≡ true))
    ⊎ ((p.type_ ≡ "Unconfined") × (entry ≡ "unconfined"))

-- An entry of `allowed_profiles` allows a localhost profile that it ends with.
abbrev pub LocalhostFits : String → String → Type 0
LocalhostFits lp entry = (starts_with entry "localhost/" ≡ true) × (ends_with entry lp ≡ true)

abbrev pub IsAllowedLocalhost : Settings → String → Type 0
IsAllowedLocalhost s lp = (lp ∈ s.localhost_profiles) ⊎ Any (LocalhostFits lp) s.allowed_profiles

pub record IsAllowedProfile (s : Settings) (p : SeccompProfile) : Type 0 where
  pub type_allowed : (p.type_ ∈ s.profile_types) ⊎ Any (TypeFits p) s.allowed_profiles
  pub localhost_allowed :
      p.type_ ≡ "Localhost"
      → (lp : String) × (p.localhost_profile ≡ some lp) × IsAllowedLocalhost s lp

type_fits_iff : (p : SeccompProfile) (a : String) → (type_fits p a ≡ true) ↔ TypeFits p a
unfolding type_fits
type_fits_iff p a = ground (
  arith,
  eq_iff p.type_ "RuntimeDefault",
  eq_iff p.type_ "Localhost",
  eq_iff p.type_ "Unconfined",
  eq_iff a "runtime/default",
  eq_iff a "docker/default",
  eq_iff a "unconfined",
)

has_profile_type_sound :
    (profiles : List String) (p : SeccompProfile)
    → has_profile_type profiles p ≡ true
    → Any (TypeFits p) profiles
unfolding has_profile_type
has_profile_type_sound [] p h = cc
has_profile_type_sound (a ∷ profiles) p h = elim (Bool-cases (type_fits p a)) [
  | inl fits ↦ here ((type_fits_iff p a).0 fits)
  | inr other ↦ there (has_profile_type_sound profiles p (ground arith))
]

has_profile_type_complete :
    (profiles : List String) (p : SeccompProfile)
    → Any (TypeFits p) profiles
    → has_profile_type profiles p ≡ true
unfolding has_profile_type
has_profile_type_complete [] p h = elim h [ ]
has_profile_type_complete (a ∷ profiles) p (here fits) = ground (arith, (type_fits_iff p a).1 fits)
has_profile_type_complete (a ∷ profiles) p (there later) =
    ground (arith, has_profile_type_complete profiles p later)

module _ (p : SeccompProfile) (lp : String) (set : p.localhost_profile ≡ some lp)
    (type_ : p.type_ ≡ "Localhost") where
  defined_in_sound :
      (profiles : List String) → defined_in profiles p ≡ true → Any (LocalhostFits lp) profiles
  unfolding defined_in localhost_fits
  defined_in_sound [] h = cc
  defined_in_sound (a ∷ profiles) h =
      elim (Bool-cases (starts_with a "localhost/" && ends_with a lp)) [
        | inl fits ↦ here (ground arith)
        | inr other ↦ there (defined_in_sound profiles (ground (arith, eq_iff p.type_ "Localhost")))
      ]

  defined_in_complete :
      (profiles : List String) → Any (LocalhostFits lp) profiles → defined_in profiles p ≡ true
  unfolding defined_in localhost_fits
  defined_in_complete [] h = elim h [ ]
  defined_in_complete (a ∷ profiles) (here (starts, ends)) =
      ground (arith, eq_iff p.type_ "Localhost")
  defined_in_complete (a ∷ profiles) (there later) =
      ground (arith, defined_in_complete profiles later)

  valid_localhost_iff :
      (s : Settings) → (is_invalid_localhost s p lp ≡ false) ↔ IsAllowedLocalhost s lp
  unfolding is_invalid_localhost localhost_profile_defined_in_allowed_profiles
  valid_localhost_iff s = (
    λ h. elim (Bool-cases (contains s.localhost_profiles lp)) [
      | inl listed ↦ inl listed
      | inr other ↦ inr (defined_in_sound s.allowed_profiles (ground arith))
    ],
    λ a. elim a [
      | inl listed ↦ ground arith
      | inr fits ↦ ground (arith, defined_in_complete s.allowed_profiles fits)
    ],
  )

valid_type_iff :
    (s : Settings) (p : SeccompProfile)
    → (is_invalid_type s p ≡ false)
      ↔ ((p.type_ ∈ s.profile_types) ⊎ Any (TypeFits p) s.allowed_profiles)
unfolding is_invalid_type allowed_profiles_has_profile_type
valid_type_iff s p = (
  λ h. elim (Bool-cases (contains s.profile_types p.type_)) [
    | inl listed ↦ inl listed
    | inr other ↦ inr (has_profile_type_sound s.allowed_profiles p (ground arith))
  ],
  λ a. elim a [
    | inl listed ↦ ground arith
    | inr fits ↦ ground (arith, has_profile_type_complete s.allowed_profiles p fits)
  ],
)

-- The tests of the code on a profile, together.
abbrev PassesTests : Settings → SeccompProfile → Type 0
PassesTests s p =
    (is_invalid_type s p ≡ false)
    × (p.type_ ≡ "Localhost"
        → (lp : String) × (p.localhost_profile ≡ some lp) × (is_invalid_localhost s p lp ≡ false))

pub PassesTests-IsAllowedProfile :
    (s : Settings) (p : SeccompProfile) → PassesTests s p ↔ IsAllowedProfile s p
PassesTests-IsAllowedProfile s p = (
  λ t. record {
    type_allowed = (valid_type_iff s p).0 t.0;
    localhost_allowed =
        λ e. let (lp, set, valid) = t.1 e in (lp, set, (valid_localhost_iff p lp set e s).0 valid);
  },
  λ a. (
    (valid_type_iff s p).1 a.type_allowed,
    λ e.
        let (lp, set, valid) = a.localhost_allowed e in
        (lp, set, (valid_localhost_iff p lp set e s).1 valid),
  ),
)

module _ (s : Settings) (p : SeccompProfile) where
  check_profile_sound : check_profile s p ≡ ok ([], []) → PassesTests s p
  unfolding check_profile localhost_of_profile
  check_profile_sound h = elim (Option-cases p.localhost_profile) [
    | inl missing ↦ (
      ground (arith, eq_iff p.type_ "Localhost"),
      λ e. absurd (ground (arith, eq_iff p.type_ "Localhost")),
    )
    | inr (lp, set) ↦ (
      ground (arith, eq_iff p.type_ "Localhost"),
      λ e. (lp, set, ground (arith, eq_iff p.type_ "Localhost")),
    )
  ]

  check_profile_complete : PassesTests s p → check_profile s p ≡ ok ([], [])
  unfolding check_profile localhost_of_profile
  check_profile_complete t = elim (Bool-cases (p.type_ == "Localhost")) [
    | inl local ↦ let (lp, set, valid) = t.1 ((eq_iff p.type_ "Localhost").0 local) in ground arith
    | inr other ↦ ground arith
  ]

  pod_profile_sound : pod_profile s (some p) ≡ ok tt → PassesTests s p
  unfolding pod_profile pod_localhost
  pod_profile_sound h = elim (Option-cases p.localhost_profile) [
    | inl missing ↦ (
      ground (arith, eq_iff p.type_ "Localhost"),
      λ e. absurd (ground (arith, eq_iff p.type_ "Localhost")),
    )
    | inr (lp, set) ↦ (
      ground (arith, eq_iff p.type_ "Localhost"),
      λ e. (lp, set, ground (arith, eq_iff p.type_ "Localhost")),
    )
  ]

  pod_profile_complete : PassesTests s p → pod_profile s (some p) ≡ ok tt
  unfolding pod_profile pod_localhost
  pod_profile_complete t = elim (Bool-cases (p.type_ == "Localhost")) [
    | inl local ↦ let (lp, set, valid) = t.1 ((eq_iff p.type_ "Localhost").0 local) in ground arith
    | inr other ↦ ground arith
  ]

  pub check_profile_iff : (check_profile s p ≡ ok ([], [])) ↔ IsAllowedProfile s p
  check_profile_iff = (
    λ h. (PassesTests-IsAllowedProfile s p).0 (check_profile_sound h),
    λ a. check_profile_complete ((PassesTests-IsAllowedProfile s p).1 a),
  )

  pub pod_profile_iff : (pod_profile s (some p) ≡ ok tt) ↔ IsAllowedProfile s p
  pod_profile_iff = (
    λ h. (PassesTests-IsAllowedProfile s p).0 (pod_profile_sound h),
    λ a. pod_profile_complete ((PassesTests-IsAllowedProfile s p).1 a),
  )
