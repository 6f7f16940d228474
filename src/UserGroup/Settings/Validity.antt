-- ===== src/UserGroup/Settings/Validity.antt =====
-- Which settings `validate` accepts.
use policies.Prelude.{
  ◌≡◌, ◌≢◌, refl, ◌↔◌, ◌⊎◌, true, false, Bool, List, [], ◌∷◌, arith, All, ◌≤ℤ◌, is_empty, ok, err,
  >>-eq-ok_iff, ≤ℤ_refl, String, ◌&&◌, ◌||◌, if◌then◌else◌,
}
use policies.UserGroup.Settings.{
  IdRange, Rule, must_run_as, may_run_as, run_as_any, must_run_as_non_root, RuleStrategy, Settings,
  is_valid_id, is_valid_id_in, violations, is_valid, valid_ranges, valid_user_rule_settings,
  valid_group_rule_settings, valid_group_ranges, validate, range_min_less_than_max,
  validation_mode_overwrite,
}

abbrev pub AreProper : List IdRange → Type 0
AreProper ranges = (ranges ≢ []) × All (λ r. r.min ≤ℤ r.max) ranges

-- The user rule as the documentation describes it.
abbrev pub IsUserRule : RuleStrategy → Type 0
IsUserRule s =
    ((s.rule ≡ must_run_as) × AreProper s.ranges)
    ⊎ (((s.rule ≡ run_as_any) ⊎ (s.rule ≡ must_run_as_non_root)) × (s.overwrite ≡ false))

abbrev pub IsGroupRule : RuleStrategy → Type 0
IsGroupRule s =
    ((s.rule ≡ must_run_as) × AreProper s.ranges)
    ⊎ ((s.rule ≡ may_run_as) × (s.overwrite ≡ false) × AreProper s.ranges)
    ⊎ ((s.rule ≡ run_as_any) × (s.overwrite ≡ false))

abbrev pub NoneOverwrites : Settings → Type 0
NoneOverwrites s =
    (s.run_as_user.overwrite ≡ false)
    × (s.run_as_group.overwrite ≡ false)
    × (s.supplemental_groups.overwrite ≡ false)

pub record AreSettings (s : Settings) : Type 0 where
  pub user : IsUserRule s.run_as_user
  pub group : IsGroupRule s.run_as_group
  pub supplemental : IsGroupRule s.supplemental_groups
  pub mode : (s.validate_only ≡ false) ⊎ NoneOverwrites s

no_violations_iff :
    (ranges : List IdRange)
    → (is_empty (violations ranges) ≡ true) ↔ All (λ r. r.min ≤ℤ r.max) ranges
unfolding violations is_valid range_min_less_than_max
no_violations_iff [] = (λ _. tt, λ _. refl)
no_violations_iff (r ∷ ranges) = ground (arith, no_violations_iff ranges)

module _ (s : RuleStrategy) where
  valid-IsUserRule_iff :
      (rule : Rule)
      → s.rule ≡ rule
      → (valid_user_rule_settings rule s.ranges s.overwrite ≡ ok tt) ↔ IsUserRule s
  unfolding valid_user_rule_settings valid_ranges
  valid-IsUserRule_iff must_run_as e = ground (arith, no_violations_iff s.ranges)
  valid-IsUserRule_iff may_run_as e = ground arith
  valid-IsUserRule_iff run_as_any e = ground arith
  valid-IsUserRule_iff must_run_as_non_root e = ground arith

  valid-IsGroupRule_iff :
      (rule : Rule) (overwrite : Bool) (prefix : String)
      → s.rule ≡ rule
      → s.overwrite ≡ overwrite
      → (valid_group_rule_settings rule s.ranges overwrite prefix ≡ ok tt) ↔ IsGroupRule s
  unfolding valid_group_rule_settings valid_ranges valid_group_ranges
  valid-IsGroupRule_iff must_run_as true prefix e o = ground (arith, no_violations_iff s.ranges)
  valid-IsGroupRule_iff must_run_as false prefix e o = ground (arith, no_violations_iff s.ranges)
  valid-IsGroupRule_iff may_run_as false prefix e o = ground (arith, no_violations_iff s.ranges)
  valid-IsGroupRule_iff may_run_as true prefix e o = ground arith
  valid-IsGroupRule_iff run_as_any true prefix e o = ground arith
  valid-IsGroupRule_iff run_as_any false prefix e o = ground arith
  valid-IsGroupRule_iff must_run_as_non_root true prefix e o = ground arith
  valid-IsGroupRule_iff must_run_as_non_root false prefix e o = ground arith

mode_iff :
    (s : Settings)
    → ((if s.validate_only
            && (s.run_as_user.overwrite || s.run_as_group.overwrite
                || s.supplemental_groups.overwrite)
          then err validation_mode_overwrite
          else ok tt)
        ≡ ok (tt {0}))
      ↔ ((s.validate_only ≡ false) ⊎ NoneOverwrites s)
mode_iff s = ground arith

-- The settings pass the check exactly when each of the three rules is one of the documented
-- forms, with ranges that are not empty and not inverted where the rule reads them, and no rule
-- overwrites in a policy that only validates.
pub validate-AreSettings_iff : (s : Settings) → (validate s ≡ ok tt) ↔ AreSettings s
unfolding validate
validate-AreSettings_iff s =
    let user = valid-IsUserRule_iff s.run_as_user s.run_as_user.rule refl in
    let group =
      valid-IsGroupRule_iff s.run_as_group s.run_as_group.rule s.run_as_group.overwrite
        "Invalid run_as_group settings" refl refl in
    let supplemental =
      valid-IsGroupRule_iff s.supplemental_groups s.supplemental_groups.rule
        s.supplemental_groups.overwrite "Invalid supplemental_groups settings" refl refl in
    (
      λ h.
          let (u, h') = (>>-eq-ok_iff _ _ _).0 h in
          let (g, h'') = (>>-eq-ok_iff _ _ _).0 h' in
          let (x, m) = (>>-eq-ok_iff _ _ _).0 h'' in
          record {
            user = user.0 u;
            group = group.0 g;
            supplemental = supplemental.0 x;
            mode = (mode_iff s).0 m;
          },
      λ a. (>>-eq-ok_iff _ _ _).1 (
        user.1 a.user,
        (>>-eq-ok_iff _ _ _).1 (
          group.1 a.group,
          (>>-eq-ok_iff _ _ _).1 (supplemental.1 a.supplemental, (mode_iff s).1 a.mode),
        ),
      ),
    )

-- With a rule MustRunAs that passed the check, the ID that replaces a missing one exists and is
-- valid.
pub AreProper-first :
    (s : RuleStrategy)
    → AreProper s.ranges
    → (r : IdRange) × (rest : List IdRange) × (s.ranges ≡ r ∷ rest) × (is_valid_id s r.min ≡ true)
unfolding is_valid_id is_valid_id_in
AreProper-first s h = first s.ranges refl h
  where
    first :
        (ranges : List IdRange)
        → s.ranges ≡ ranges
        → AreProper ranges
        → (r : IdRange) × (rest : List IdRange) × (s.ranges ≡ r ∷ rest)
          × (is_valid_id s r.min ≡ true)
    first [] e h = absurd (h.0 refl)
    first (r ∷ rest) e h = (r, rest, e, rw e (ground (arith, ≤ℤ_refl r.min)))
