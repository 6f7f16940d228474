-- ===== src/UserGroup/Enforce/User.antt =====
-- What enforce_run_as_user_rule guarantees.
use policies.Prelude.{
  ℤ, pos, ◌≡◌, ◌≢◌, refl, ap, ◌∙◌, true, false, Option, none, some, arith, ok, panic, >>=-eq-ok,
  unwrap_or, is_zero, inl, inr, ◌⊎◌, Option-cases,
}
use policies.UserGroup.Settings.{
  Rule, Settings, must_run_as, must_run_as_non_root, is_valid_id, RuleStrategy,
}
use policies.UserGroup.Settings.Validity.{AreProper, AreProper-first}
use policies.UserGroup.Context.{GenericSecurityContext}
use policies.UserGroup.Enforce.Image.{get_user_group_uid-ne-panic}
use policies.UserGroup.Enforce.{
  ImageConfiguration, get_user_group_uid_from_image_configuration, first_min, user_must_run_as,
  enforce_run_as_user_rule,
}

-- The context after the rule: the new one, or the old one where the rule gives none.
abbrev pub settled {ℓ} : {T : Type ℓ} → Option T → Option T → Option T
settled context none = context
settled context (some c) = some c

abbrev pub bind {ℓ κ} : {A : Type ℓ} {B : Type κ} → Option A → (A → Option B) → Option B
bind none f = none
bind (some a) f = f a

pub first_min-valid :
    (s : RuleStrategy)
    → AreProper s.ranges
    → (id : ℤ) × (first_min s.ranges ≡ ok id) × (is_valid_id s id ≡ true)
unfolding first_min
first_min-valid s proper =
    let (r, rest, e, valid) = AreProper-first s proper in (r.min, ground arith, valid)

pub Rule-cases : (rule : Rule) → (rule ≡ must_run_as) ⊎ (rule ≢ must_run_as)
Rule-cases must_run_as = inl refl
Rule-cases rule = inr (λ e. cc)

module _ {T : Type 0} (G : GenericSecurityContext T) (s : Settings) where
  open G use {run_as_user, set_run_as_user, run_as_non_root, set_run_as_non_root, default}

  -- The context has a valid user ID, which is the old one or the only thing that was changed.
  abbrev pub HasValidUser : Option T → Option T → Type 0
  HasValidUser context out =
      (id : ℤ) × (bind (settled context out) run_as_user ≡ some id)
      × (is_valid_id s.run_as_user id ≡ true)
      × ((out ≡ none) ⊎ (out ≡ some (set_run_as_user (some id) (unwrap_or default context))))

  user_must_run_as-valid :
      (context : Option T) (image_user : Option ℤ) (out : Option T)
      → AreProper s.run_as_user.ranges
      → user_must_run_as G s (unwrap_or default context) image_user ≡ ok out
      → HasValidUser context out
  unfolding user_must_run_as
  user_must_run_as-valid none image_user none proper h =
      let none_set = G.user-default in
      let (id, first, valid) = first_min-valid s.run_as_user proper in absurd (ground arith)
  user_must_run_as-valid (some c) image_user none proper h =
      let (first_id, first, first_valid) = first_min-valid s.run_as_user proper in
      elim (Option-cases (run_as_user c)) [
        | inl missing ↦ absurd (ground arith)
        | inr (id, e) ↦ (id, e, ground arith, inl refl)
      ]
  user_must_run_as-valid context image_user (some c) proper h =
      let (id, first, valid) = first_min-valid s.run_as_user proper in
      let same : c ≡ set_run_as_user (some id) (unwrap_or default context) = ground arith in
      (id, ap run_as_user same ∙ G.user-set_user _ _, valid, inr (ap some same))

  -- With the rule MustRunAs and the ranges of checked settings, a context that the rule lets
  -- through ends with a user ID inside of the ranges: its own ID, with nothing changed, or the one
  -- that the rule wrote, with nothing else changed.
  pub enforce_run_as_user_rule-valid :
      (context : Option T) (config : Option ImageConfiguration) (out : Option T)
      → s.run_as_user.rule ≡ must_run_as
      → AreProper s.run_as_user.ranges
      → enforce_run_as_user_rule G s context config ≡ ok out
      → HasValidUser context out
  unfolding enforce_run_as_user_rule
  enforce_run_as_user_rule-valid context config out rule proper h =
      let (ids, read, h') = >>=-eq-ok (get_user_group_uid_from_image_configuration config) _ h in
      user_must_run_as-valid context ids.0 out proper (ground arith)

  -- The same for the ID of the image, where the configuration of the image is looked at.
  pub enforce_run_as_user_rule-image_user :
      (context : Option T) (config : Option ImageConfiguration) (out : Option T) (id : ℤ)
      (group : Option ℤ)
      → s.run_as_user.rule ≡ must_run_as
      → get_user_group_uid_from_image_configuration config ≡ ok (some id, group)
      → enforce_run_as_user_rule G s context config ≡ ok out
      → is_valid_id s.run_as_user id ≡ true
  unfolding enforce_run_as_user_rule
  enforce_run_as_user_rule-image_user context config out id group rule read h = ground arith

  -- With the rule MustRunAsNonRoot, a context that is let through ends with `runAsNonRoot: true`,
  -- which is all that was changed, its user is not root, and neither is the user of the image.
  pub enforce_run_as_user_rule-non_root :
      (context : Option T) (config : Option ImageConfiguration) (out : Option T)
      → s.run_as_user.rule ≡ must_run_as_non_root
      → enforce_run_as_user_rule G s context config ≡ ok out
      → (c : T) × (out ≡ some c)
        × (c ≡ set_run_as_non_root (some true) (unwrap_or default context))
        × (run_as_non_root c ≡ some true)
        × (run_as_user c ≢ some (pos 0))
        × ((group : Option ℤ)
            → get_user_group_uid_from_image_configuration config ≢ ok (some (pos 0), group))
  unfolding enforce_run_as_user_rule is_zero
  enforce_run_as_user_rule-non_root context config out rule h =
      let c = set_run_as_non_root (some true) (unwrap_or default context) in
      (
        c,
        ground arith,
        refl,
        G.root-set_root (some true) (unwrap_or default context),
        (λ e. ground (arith, G.user-set_root (some true) (unwrap_or default context))),
        (λ group e. ground arith),
      )

  -- A policy that only validates lets no context through under the rules MustRunAs (which cannot
  -- overwrite then) and MustRunAsNonRoot, whatever user the context asks for.
  pub enforce_run_as_user_rule-validate_only :
      (context : Option T) (config : Option ImageConfiguration) (out : Option T)
      → s.validate_only ≡ true
      → s.run_as_user.overwrite ≡ false
      → (s.run_as_user.rule ≡ must_run_as) ⊎ (s.run_as_user.rule ≡ must_run_as_non_root)
      → enforce_run_as_user_rule G s context config ≢ ok out
  unfolding enforce_run_as_user_rule
  enforce_run_as_user_rule-validate_only context config out only keep rule h = ground arith

  -- With checked ranges the rule never panics.
  pub enforce_run_as_user_rule-ne-panic :
      (context : Option T) (config : Option ImageConfiguration)
      → (s.run_as_user.rule ≡ must_run_as → AreProper s.run_as_user.ranges)
      → enforce_run_as_user_rule G s context config ≢ panic
  unfolding enforce_run_as_user_rule
  enforce_run_as_user_rule-ne-panic context config proper h = elim (Rule-cases s.run_as_user.rule) [
    | inl must ↦
        let (id, first, valid) = first_min-valid s.run_as_user (proper must) in
        ground (arith, get_user_group_uid-ne-panic config)
    | inr other ↦ ground (arith, get_user_group_uid-ne-panic config)
  ]
