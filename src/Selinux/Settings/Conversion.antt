-- ===== src/Selinux/Settings/Conversion.antt =====
-- The settings as the policy uses them, and their check.
use policies.Prelude.{◌≡◌, ◌↔◌, inl, inr, refl, String, Option, none, some, ok, arith, Option-cases}
use policies.Selinux.Settings.{
  SeLinuxOptionsExternal, SeLinuxLevel, SeLinuxOptions, ExternalSettings, level_from, new,
  options_try_from, level_text, into, must_run_as, run_as_any, try_from, validate,
}
use policies.Selinux.Settings.Levels.{new-level, new-ok}

-- What the conversion makes of the options: the same texts, and the level split.
pub record IsConverted (external : SeLinuxOptionsExternal) (options : SeLinuxOptions) : Type 0 where
  pub user : options.user ≡ external.user
  pub role : options.role ≡ external.role
  pub type_ : options.type_ ≡ external.type_
  pub no_level : external.level ≡ none → options.level ≡ none
  pub level :
      (t : String)
      → external.level ≡ some t
      → (l : SeLinuxLevel) × (options.level ≡ some l) × (new t ≡ ok l)

level_from-ok : (o : Option String) → (l : Option SeLinuxLevel) × (level_from o ≡ ok l)
unfolding level_from
level_from-ok none = (none, refl)
level_from-ok (some t) = let (l, e) = new-ok t in (some l, ground arith)

level_from-none :
    (o : Option String) (l : Option SeLinuxLevel) → level_from o ≡ ok l → o ≡ none → l ≡ none
unfolding level_from
level_from-none none l e = λ n. ground arith
level_from-none (some t) l e = λ n. cc

level_from-some :
    (o : Option String) (l : Option SeLinuxLevel) (t : String)
    → level_from o ≡ ok l
    → o ≡ some t
    → (m : SeLinuxLevel) × (l ≡ some m) × (new t ≡ ok m)
unfolding level_from
level_from-some none l t e = λ n. cc
level_from-some (some u) l t e = λ n. let (m, new_) = new-ok u in (m, ground arith, ground arith)

pub options_try_from-IsConverted :
    (external : SeLinuxOptionsExternal)
    → (options : SeLinuxOptions) × (options_try_from external ≡ ok options)
      × IsConverted external options
unfolding options_try_from
options_try_from-IsConverted external =
    let (l, e) = level_from-ok external.level in
    (
      record { user = external.user; role = external.role; type_ = external.type_; level = l },
      ground arith,
      record {
        user = refl;
        role = refl;
        type_ = refl;
        no_level = level_from-none external.level l e;
        level = λ t. level_from-some external.level l t e;
      },
    )

-- What the pods get: the options as the settings say them.
pub into-IsConverted :
    (external : SeLinuxOptionsExternal) (options : SeLinuxOptions)
    → IsConverted external options
    → into options ≡ record {
      level = external.level;
      role = external.role;
      type_ = external.type_;
      user = external.user;
    }
unfolding into level_text
into-IsConverted external options c =
    let level : level_text options.level ≡ external.level = elim (Option-cases external.level) [
      | inl unset ↦ ground (arith, c.no_level unset)
      | inr (t, set) ↦ let (l, is_l, is_new) = c.level t set in ground (arith, new-level t l is_new)
    ] in
    cc (level, c.role, c.type_, c.user)

abbrev pub AsksSomething : ExternalSettings → Type 0
AsksSomething run_as_any = Unit
AsksSomething (must_run_as external) = ¬ (
    (external.user ≡ none)
    × (external.role ≡ none)
    × (external.type_ ≡ none)
    × (external.level ≡ none))

-- The settings pass the check exactly when the rule is RunAsAny, or MustRunAs with at least one
-- option.
pub validate-AsksSomething_iff : (s : ExternalSettings) → (validate s ≡ ok tt) ↔ AsksSomething s
unfolding validate try_from
validate-AsksSomething_iff run_as_any = (λ _. tt, λ _. refl)
validate-AsksSomething_iff (must_run_as external) =
    let (options, e, _) = options_try_from-IsConverted external in
    (λ h none_set. ground arith, λ a. ground arith)
