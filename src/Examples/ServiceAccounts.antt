-- ===== src/Examples/ServiceAccounts.antt =====
-- policies/high-risk-service-account-policy and policies/allow-privilege-escalation-psp-policy at
-- concrete pods.
use policies.Prelude.{
  ◌≡◌, ◌↔◌, ◌⊎◌, inl, inr, refl, String, Bool, true, false, ◌==◌, none, some, List, [], ◌∷◌, ok,
  err, if◌then◌else◌,
}
use policies.K8s.{Container, PodSpec, SecurityContext, default_security_context}
use policies.Sdk.{accept, reject, mutate, pod_spec}
use policies.HighRisk.Settings
use policies.HighRisk.Settings.{Rule, Settings, Verbs}
use policies.HighRisk.Validate.{CanIRequest, Rejection, service_account_of, validate_pod}
use policies.HighRisk.Validate.Powers.{RunsAs, user_of, MayPass, validate_pod-MayPass_iff}
use policies.Escalation.Validate as Escalation
use policies.Escalation.Validate.{EscalationError}
use policies.Escalation.Validate.Confined.{IsConfining, validate-IsConfining}
use policies.Examples.Workloads.{container, pod}

-- The host lets service accounts read, and cannot tell of other verbs.
abbrev can_i : CanIRequest → String ⊎ Bool
can_i request =
    if request.subject_access_review.resource_attributes.verb == "get"
    then inr (request.subject_access_review.user == "system:serviceaccount:web:admin")
    else inl "no answer"

abbrev rule : List Verbs → Rule
rule verbs = record {
  namespace = none;
  api_groups = "" ∷ [];
  resources = "secrets" ∷ [];
  verbs = verbs;
}

abbrev blocks : List Verbs → Settings
blocks verbs = record { block_rules = rule verbs ∷ [] }

abbrev admin : PodSpec (Unit {0})
admin = record (pod []) { service_account_name = some "admin" }

-- One answer of the host is enough, and none is not.
validate_pod_tests :
    (validate_pod can_i (pod []) "web" (blocks (Verbs.get ∷ Verbs.update ∷ [])) ≡ ok tt)
    × (validate_pod can_i (pod []) "web" (blocks (Verbs.update ∷ []))
        ≡ err Rejection.all_checks_failed)
    × (Settings.validate (blocks []) ≡ err Settings.SettingsError.incomplete_rule)
unfolding validate_pod Settings.validate policies.HighRisk.Validate.build_subject_access_reviews
    policies.Prelude.flat_map Settings.resource_attributes Settings.print_verb service_account_of
validate_pod_tests = (refl, refl, refl)

validate_pod-MayPass_iff_example :
    (account : String) × RunsAs admin account
    × ((validate_pod can_i admin "web" (blocks (Verbs.get ∷ [])) ≡ ok tt) ↔ (
        (admin.automount_service_account_token ≡ some false)
        ⊎ MayPass can_i (user_of "web" account) (rule (Verbs.get ∷ []) ∷ [])))
validate_pod-MayPass_iff_example =
    validate_pod-MayPass_iff can_i admin "web" (blocks (Verbs.get ∷ []))

abbrev context : Bool → SecurityContext (Unit {0})
context escalates = record (default_security_context tt) {
  allow_privilege_escalation = some escalates;
}

abbrev limited : Container (Unit {0}) → Container (Unit {0})
limited c = record c { security_context = some (context false) }

abbrev strict : Escalation.Settings
strict = record { default_allow_privilege_escalation = false }

escalation_tests :
    (Escalation.validate tt strict (pod_spec (pod (container "main" ∷ [])))
      ≡ mutate (pod (limited (container "main") ∷ [])))
    × (Escalation.validate tt strict (pod_spec (pod (limited (container "main") ∷ []))) ≡ accept)
    × (Escalation.validate tt strict (
          pod_spec
            (pod (record (container "main") { security_context = some (context true) } ∷ [])))
        ≡ reject (EscalationError.containers_escalate ∷ []))
unfolding Escalation.validate Escalation.has_allowed_privilege_escalation_container
    Escalation.patch_containers
escalation_tests = (refl, refl, refl)

validate-IsConfining_example :
    IsConfining tt strict
      (pod (container "main" ∷ []))
      (Escalation.validate tt strict (pod_spec (pod (container "main" ∷ []))))
validate-IsConfining_example = validate-IsConfining tt strict (pod (container "main" ∷ []))
