-- ===== src/HighRisk/Validate/Powers.antt =====
-- Which service accounts the policy lets through.
use policies.Prelude.{
  ◌≡◌, ◌↔◌, ◌⊎◌, inl, inr, refl, sym, subst, ℕ, ◌+◌, ◌≤◌, String, Bool, true, false, Option, none,
  some, List, [], ◌∷◌, map, length, All, All-flat_map, All-iff, Outcome, ok, err, panic, ◌>>=◌,
  arith, Bool-cases, Option-cases, ◌+++◌,
}
use policies.K8s.{PodSpec}
use policies.HighRisk.Settings.{Verbs, print_verb, Rule, Settings, resource_attributes}
use policies.HighRisk.Validate.{
  SubjectAccessReview, CanIRequest, Rejection, allowed_to, build_subject_access_reviews,
  service_account_of, token_is_off, asked, check_reviews, all_failed, validate_pod,
}

iff_trans : {P Q R : Type 0} → P ↔ Q → Q ↔ R → P ↔ R
iff_trans a b = (λ h. b.0 (a.0 h), λ h. a.1 (b.1 h))

All-map :
    {A B : Type 0} (P : B → Type 0) (f : A → B) (xs : List A)
    → All P (map f xs) ↔ All (λ x. P (f x)) xs
All-map P f [] = (λ h. tt, λ h. tt)
All-map P f (x ∷ xs) =
    let rest = All-map P f xs in (λ (h, hs). (h, rest.0 hs), λ (h, hs). (h, rest.1 hs))

-- The account that a pod runs as: its service account by name, else by the deprecated field, else
-- the one of its namespace.
pub data RunsAs {X : Type 0} (p : PodSpec X) : String → Type 0 where
  named : {account : String} → p.service_account_name ≡ some account → RunsAs p account
  deprecated :
      {account : String}
      → p.service_account_name ≡ none
      → p.service_account ≡ some account
      → RunsAs p account
  unnamed : p.service_account_name ≡ none → p.service_account ≡ none → RunsAs p "default"

-- The user that stands for a service account.
abbrev pub user_of : String → String → String
user_of namespace account = "system:serviceaccount:" +++ (namespace +++ (":" +++ account))

-- A verb of Kubernetes, or all of them.
abbrev pub verb_text : Verbs → String
verb_text Verbs.create = "create"
verb_text Verbs.update = "update"
verb_text Verbs.delete = "delete"
verb_text Verbs.get = "get"
verb_text Verbs.list = "list"
verb_text Verbs.watch = "watch"
verb_text Verbs.proxy = "proxy"
verb_text Verbs.all = "*"
verb_text Verbs.patch = "patch"
verb_text Verbs.delete_collection = "deletecollection"

-- What one verb of a rule asks of a user.
abbrev pub review : String → Rule → String → String → Verbs → SubjectAccessReview
review user rule api_group resource verb = record {
  user = user;
  resource_attributes = record {
    namespace = rule.namespace;
    verb = verb_text verb;
    group = some api_group;
    resource = resource;
  };
}

service_account_of-RunsAs :
    {X : Type 0} (p : PodSpec X) (namespace : String)
    → (account : String) × RunsAs p account
      × (service_account_of p namespace ≡ user_of namespace account)
unfolding service_account_of
service_account_of-RunsAs p namespace = elim (Option-cases p.service_account_name) [
  | inr (account, has) ↦ (account, named has, rw has refl)
  | inl missing ↦ elim (Option-cases p.service_account) [
    | inr (account, has) ↦ (account, deprecated missing has, rw (missing, has) refl)
    | inl unset ↦ ("default", unnamed missing unset, rw (missing, unset) refl)
  ]
]

-- A property of every combination of a group, a resource and a verb of every rule.
abbrev pub AllReviews : (SubjectAccessReview → Type 0) → String → List Rule → Type 0
AllReviews P user rules =
    All
      (λ rule.
        All
          (λ api_group.
            All (λ resource. All (λ verb. P (review user rule api_group resource verb)) rule.verbs)
              rule.resources)
          rule.api_groups)
      rules

build_subject_access_reviews-AllReviews :
    (P : SubjectAccessReview → Type 0) (user : String) (rules : List Rule)
    → All P (build_subject_access_reviews user rules) ↔ AllReviews P user rules
unfolding build_subject_access_reviews resource_attributes print_verb
build_subject_access_reviews-AllReviews P user rules = iff_trans (All-flat_map P _ rules) (
    All-iff
      (λ rule. iff_trans (All-map P _ _) (
        iff_trans (All-flat_map _ _ rule.api_groups) (
          All-iff
            (λ api_group.
              iff_trans (All-flat_map _ _ rule.resources)
                (All-iff (λ resource. All-map _ _ rule.verbs) rule.resources))
            rule.api_groups)))
      rules)

token_is_off_iff : (o : Option Bool) → (token_is_off o ≡ true) ↔ (o ≡ some false)
unfolding token_is_off
token_is_off_iff none = (λ h. absurd (cc h), λ h. absurd (cc h))
token_is_off_iff (some true) = (λ h. absurd (cc h), λ h. absurd (cc h))
token_is_off_iff (some false) = (λ h. refl, λ h. refl)

module _ (can_i : CanIRequest → String ⊎ Bool) where
  -- The answer of the host to a review, which may not come from its cache.
  abbrev pub answer_to : SubjectAccessReview → String ⊎ Bool
  answer_to sar = can_i (record { subject_access_review = sar; disable_cache = false })

  abbrev pub IsNotAllowed : SubjectAccessReview → Type 0
  IsNotAllowed sar = ¬ (answer_to sar ≡ inr true)

  -- The host does not say no.
  abbrev pub IsNotDenied : SubjectAccessReview → Type 0
  IsNotDenied sar = ¬ (answer_to sar ≡ inr false)

  -- What the loop ends with.
  abbrev Counts : List SubjectAccessReview → ℕ → Outcome Rejection ℕ → Type 0
  Counts sars counter (ok n) =
      All IsNotAllowed sars
      × (n ≤ counter + length sars)
      × ((n ≡ counter + length sars) ↔ All IsNotDenied sars)
  Counts sars counter (err e) = ¬ All IsNotAllowed sars
  Counts sars counter panic = ⊥

  abbrev after :
      SubjectAccessReview → List SubjectAccessReview → ℕ → String ⊎ Bool → Outcome Rejection ℕ
  after sar sars counter (inr true) = err (allowed_to sar.user sar.resource_attributes)
  after sar sars counter (inr false) = check_reviews can_i sars counter
  after sar sars counter (inl e) = check_reviews can_i sars (counter + 1)

  after_refusal :
      (sar : SubjectAccessReview) (sars : List SubjectAccessReview) (counter : ℕ)
      (o : Outcome Rejection ℕ)
      → asked can_i sar ≡ inr false
      → Counts sars counter o
      → Counts (sar ∷ sars) counter o
  after_refusal sar sars counter (ok n) no_ (free, bound, all_) = (
    ((λ yes_. cc (no_, yes_)), free),
    omega arith,
    (λ h. absurd (omega arith), λ (h, hs). absurd (h no_)),
  )
  after_refusal sar sars counter (err e) no_ some_ = λ (h, hs). some_ hs
  after_refusal sar sars counter panic no_ h = h

  after_failure :
      (sar : SubjectAccessReview) (sars : List SubjectAccessReview) (counter : ℕ) (e : String)
      (o : Outcome Rejection ℕ)
      → asked can_i sar ≡ inl e
      → Counts sars (counter + 1) o
      → Counts (sar ∷ sars) counter o
  after_failure sar sars counter e (ok n) failed (free, bound, all_) = (
    ((λ yes_. cc (failed, yes_)), free),
    omega arith,
    (
      λ h. ((λ no_. cc (failed, no_)), all_.0 (omega arith)),
      λ (h, hs). let same = all_.1 hs in omega arith,
    ),
  )
  after_failure sar sars counter e (err r) failed some_ = λ (h, hs). some_ hs
  after_failure sar sars counter e panic failed h = h

  check_reviews-after :
      (sar : SubjectAccessReview) (sars : List SubjectAccessReview) (counter : ℕ)
      (a : String ⊎ Bool)
      → asked can_i sar ≡ a
      → check_reviews can_i (sar ∷ sars) counter ≡ after sar sars counter a
  unfolding check_reviews
  check_reviews-after sar sars counter (inl e) h = rw (h, check_reviews) refl
  check_reviews-after sar sars counter (inr true) h = rw (h, check_reviews) refl
  check_reviews-after sar sars counter (inr false) h = rw (h, check_reviews) refl

  after-Counts :
      (sar : SubjectAccessReview) (sars : List SubjectAccessReview) (counter : ℕ)
      (a : String ⊎ Bool)
      → asked can_i sar ≡ a
      → ((n : ℕ) → Counts sars n (check_reviews can_i sars n))
      → Counts (sar ∷ sars) counter (after sar sars counter a)
  after-Counts sar sars counter (inl e) h rest =
      after_failure sar sars counter e _ h (rest (counter + 1))
  after-Counts sar sars counter (inr true) h rest = λ (first, others). first h
  after-Counts sar sars counter (inr false) h rest =
      after_refusal sar sars counter _ h (rest counter)

  check_reviews-Counts :
      (sars : List SubjectAccessReview) (counter : ℕ)
      → Counts sars counter (check_reviews can_i sars counter)
  unfolding check_reviews
  check_reviews-Counts [] counter = (tt, omega arith, (λ h. tt, λ h. omega arith))
  check_reviews-Counts (sar ∷ sars) counter =
      subst (Counts (sar ∷ sars) counter)
        (sym (check_reviews-after sar sars counter (asked can_i sar) refl))
        (after-Counts sar sars counter (asked can_i sar) refl (check_reviews-Counts sars))

  -- The answer to the reviews.
  abbrev pub MayPass : String → List Rule → Type 0
  MayPass user rules = AllReviews IsNotAllowed user rules × (¬ AllReviews IsNotDenied user rules)

  concluded_iff :
      (sars : List SubjectAccessReview) (o : Outcome Rejection ℕ)
      → Counts sars 0 o
      → ((o >>= (λ counter. all_failed can_i counter sars)) ≡ ok tt)
        ↔ (All IsNotAllowed sars × (¬ All IsNotDenied sars))
  unfolding all_failed
  concluded_iff sars (ok n) (free, bound, all_) = ground (arith, free)
  concluded_iff sars (err e) some_ = (λ h. absurd (cc h), λ (h, hs). absurd (some_ h))
  concluded_iff sars panic h = absurd h

  validate_pod_iff :
      {X : Type 0} (p : PodSpec X) (namespace : String) (s : Settings)
      → (validate_pod can_i p namespace s ≡ ok tt) ↔ (
          (p.automount_service_account_token ≡ some false)
          ⊎ MayPass (service_account_of p namespace) s.block_rules)
  unfolding validate_pod
  validate_pod_iff p namespace s =
      let user = service_account_of p namespace in
      let sars = build_subject_access_reviews user s.block_rules in
      let concluded =
        concluded_iff sars (check_reviews can_i sars 0) (check_reviews-Counts sars 0) in
      let mounted = token_is_off_iff p.automount_service_account_token in
      let allowed = build_subject_access_reviews-AllReviews IsNotAllowed user s.block_rules in
      let denied = build_subject_access_reviews-AllReviews IsNotDenied user s.block_rules in
      elim (Bool-cases (token_is_off p.automount_service_account_token)) [
        | inl off ↦ (λ h. inl (mounted.0 off), λ h. ground arith)
        | inr on ↦ (
          λ h.
              let (free, told) = concluded.0 (ground arith) in
              inr (allowed.0 free, λ none_. told (denied.1 none_)),
          λ h. elim h [
            | inl off ↦ absurd (cc (mounted.1 off, on))
            | inr (free, told) ↦
                let done = concluded.1 (allowed.1 free, λ none_. told (denied.0 none_)) in
                ground arith
          ],
        )
      ]

  -- Every pod runs as one service account: the one that it names, or of the deprecated field if it
  -- names none, or the default one. The policy accepts the pod exactly when the pod does not mount
  -- the token of its service account; or when the host allows the service account, in the namespace
  -- of the request, no verb on a resource of a group that a blocked rule names, and says so at least
  -- once without an error.
  pub validate_pod-MayPass_iff :
      {X : Type 0} (p : PodSpec X) (namespace : String) (s : Settings)
      → (account : String) × RunsAs p account
        × ((validate_pod can_i p namespace s ≡ ok tt) ↔ (
            (p.automount_service_account_token ≡ some false)
            ⊎ MayPass (user_of namespace account) s.block_rules))
  unfolding validate_pod
  validate_pod-MayPass_iff p namespace s =
      let (account, runs, same) = service_account_of-RunsAs p namespace in
      (
        account,
        runs,
        subst
            (λ user.
              (validate_pod can_i p namespace s ≡ ok tt)
              ↔ ((p.automount_service_account_token ≡ some false) ⊎ MayPass user s.block_rules))
            same (validate_pod_iff p namespace s),
      )
