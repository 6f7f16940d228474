-- ===== src/ImageCve/Settings.antt =====
-- policies/image-cve-policy/src/settings.rs. The crates oci-spec and serde, and the arithmetic of
-- `f32`, are parameters.
pub mod Counts
use policies.Prelude.{
  ℕ, String, Bool, true, false, ◌&&◌, ◌||◌, Option, none, some, is_some, List, [], Outcome, ok, err,
  panic, ◌>>=◌, ◌==◌, ◌+++◌, intersection, is_empty, if◌then◌else◌,
}
use policies.Criteria.Settings.{BaseSettings}

-- What the code does with an `f32`.
pub record Float (F : Type 0) : Type 0 where
  pub nought : F
  pub ten : F
  pub lt : F → F → Bool
  pub gt : F → F → Bool
  pub ge : F → F → Bool
  pub parse : String → Option F

pub data ImageLookupStrategy : Type 0 where
  digest tag : ImageLookupStrategy

-- Values of `u32`, here and in CvssScore.
pub data SeverityCount : Type 0 where
  total total_without_fixes : ℕ → SeverityCount

pub data SeverityCountError (E : Type 0) : Type 0 where
  access : E → SeverityCountError E
  duplicate_field unknown_field : String → SeverityCountError E
  mutually_exclusive missing : SeverityCountError E

-- `serde::de::MapAccess`: the entries, each with what `next_value::<u32>` gives, up to the end or to
-- an error of `next_key`.
pub data MapAccess (E : Type 0) : Type 0 where
  finished : MapAccess E
  broken : E → MapAccess E
  entry : String → Outcome E ℕ → MapAccess E → MapAccess E

module _ {E : Type 0} where
  access_error : Outcome E ℕ → Outcome (SeverityCountError E) ℕ
  access_error (ok n) = ok n
  access_error (err e) = err (access e)
  access_error panic = panic

  one_of : Option ℕ → Option ℕ → Outcome (SeverityCountError E) SeverityCount
  one_of (some t) none = ok (total t)
  one_of none (some twf) = ok (total_without_fixes twf)
  one_of (some t) (some twf) = err mutually_exclusive
  one_of none none = err missing

  -- The loop, with the two variables that it assigns.
  visit : MapAccess E → Option ℕ → Option ℕ → Outcome (SeverityCountError E) SeverityCount
  unfolding access_error one_of
  visit finished t twf = one_of t twf
  visit (broken e) t twf = err (access e)
  visit (entry key value map) t twf =
      let with_total : ℕ → Outcome (SeverityCountError E) SeverityCount =
        λ n. visit map (some n) twf in
      let without : ℕ → Outcome (SeverityCountError E) SeverityCount = λ n. visit map t (some n) in
      if key == "total"
      then if is_some t then err (duplicate_field "total") else access_error value >>= with_total
      else if key == "totalWithoutFixes"
      then if is_some twf
        then err (duplicate_field "totalWithoutFixes")
        else access_error value >>= without
      else err (unknown_field key)

  unfoldable pub visit_map : MapAccess E → Outcome (SeverityCountError E) SeverityCount
  unfolding visit
  visit_map map = visit map none none

  -- The derived `Serialize`, as the entries that are read again.
  unfoldable pub serialize : SeverityCount → MapAccess E
  serialize (total n) = entry "total" (ok n) finished
  serialize (total_without_fixes n) = entry "totalWithoutFixes" (ok n) finished

pub record MaxSeverity : Type 0 where
  pub critical : Option SeverityCount
  pub high : Option SeverityCount
  pub medium : Option SeverityCount
  pub low : Option SeverityCount
  pub unknown : Option SeverityCount

unfoldable pub is_configured : MaxSeverity → Bool
is_configured m =
    is_some m.critical
    || (is_some m.high || (is_some m.medium || (is_some m.low || is_some m.unknown)))

pub record CvssScore (F : Type 0) : Type 0 where
  pub threshold : F
  pub max_count : ℕ

-- `oci_spec::image`: Platform is `P`, with its setters and getters, Arch is `A` and Os is `O`, which
-- are read from texts and printed.
pub record OciPlatforms (A O P : Type 0) : Type 0 where
  pub arch_from : String → A
  pub os_from : String → O
  pub print_arch : A → String
  pub print_os : O → String
  pub default_ : P
  pub set_architecture : A → P → P
  pub set_os : O → P → P
  pub set_os_version : Option String → P → P
  pub set_os_features : Option (List String) → P → P
  pub set_variant : Option String → P → P
  pub architecture : P → A
  pub os : P → O
  pub variant : P → Option String
  pub eq : P → P → Bool

pub record Platform (A O : Type 0) : Type 0 where
  pub arch : A
  pub os : O
  pub os_version : Option String
  pub os_features : Option (List String)
  pub variant : Option String

module _ {A O P : Type 0} (platforms : OciPlatforms A O P) where
  unfoldable pub sbomscanner_platform : P → String
  sbomscanner_platform p =
      platforms.print_os (platforms.os p)
      +++ ("/"
          +++ (platforms.print_arch (platforms.architecture p)
              +++ elim (platforms.variant p) [ none ↦ "" | some v ↦ "/" +++ v ]))

  unfoldable pub into_oci : Platform A O → P
  into_oci p = platforms.set_variant p.variant (
      platforms.set_os_features p.os_features (
        platforms.set_os_version p.os_version
          (platforms.set_os p.os (platforms.set_architecture p.arch platforms.default_))))

pub record Settings (F A O : Type 0) : Type 0 where
  pub max_severity : Option MaxSeverity
  pub allow_always : List String
  pub deny_always : List String
  pub ignore_missing_vulnerability_report : Bool
  pub vulnerability_report_namespace : Option String
  pub ignore_vex_status : Bool
  pub cvss_score : Option (CvssScore F)
  pub platform : Option (Platform A O)
  pub cve_name : Option BaseSettings
  pub image_lookup_strategy : ImageLookupStrategy

pub data SettingsError (F : Type 0) : Type 0 where
  both_allowed_and_denied : List String → SettingsError F
  threshold_out_of_range : F → SettingsError F

module _ {F : Type 0} (float : Float F) where
  out_of_range : F → Bool
  out_of_range threshold = float.lt threshold float.nought || float.gt threshold float.ten

  validate_score : Option (CvssScore F) → Outcome (SettingsError F) (Unit {0})
  unfolding out_of_range
  validate_score none = ok tt
  validate_score (some c) =
      if out_of_range c.threshold then err (threshold_out_of_range c.threshold) else ok tt

  unfoldable pub validate : {A O : Type 0} → Settings F A O → Outcome (SettingsError F) (Unit {0})
  unfolding validate_score
  validate s =
      if is_empty (intersection s.allow_always s.deny_always)
      then validate_score s.cvss_score
      else err (both_allowed_and_denied (intersection s.allow_always s.deny_always))
