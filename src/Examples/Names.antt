-- ===== src/Examples/Names.antt =====
-- policies/volumeMounts-policy, policies/environment-variable-policy, priority-class-policy and
-- persistentvolumeclaim-storageclass-policy at concrete objects.
use policies.Prelude.{◌≡◌, ◌↔◌, refl, String, Option, none, some, List, [], ◌∷◌, ok, err, unwrap_or}
use policies.K8s.{Container, PodSpec}
use policies.Sdk.{Response, accept, reject, mutate, pod_spec}
use policies.Criteria.Settings.{BaseSettings}
use policies.Criteria.Meaning.{Meets}
use policies.VolumeMounts.Validate as VolumeMounts
use policies.VolumeMounts.Validate.{Reject}
use policies.VolumeMounts.Validate.Agreement.{AllFineMounts, validate-AllFineMounts_iff}
use policies.EnvVars.Validate as EnvVars
use policies.EnvVars.Validate.Named.{last_named, all_containers, validate-Meets_iff}
use policies.PriorityClass.Validate as PriorityClass
use policies.PriorityClass.Validate.{PriorityError}
use policies.PriorityClass.Validate.Granted.{IsGrantedAnswer, validate-IsGrantedAnswer}
use policies.StorageClass.Validate as StorageClass
use policies.StorageClass.Validate.{PersistentVolumeClaim}
use policies.StorageClass.Validate.Allowed.{IsGranted, validate-IsGranted}
use policies.Examples.Workloads.{container, pod}

abbrev mounts : List String → Container (Unit {0})
mounts [] = record (container "main") { volume_mounts = some [] }
mounts (name ∷ names) = record (container "main") {
  volume_mounts = some (record { name = name } ∷ []);
}

abbrev operator_settings : Reject → VolumeMounts.Settings
operator_settings r = record { operator_ = r; volume_mounts_names = "data" ∷ "logs" ∷ [] }

abbrev with_data : PodSpec (Unit {0})
with_data = pod (mounts ("data" ∷ []) ∷ container "side" ∷ [])

volume_mounts_tests :
    (VolumeMounts.validate (operator_settings Reject.any_in) (pod_spec with_data)
      ≡ reject (("main", VolumeMounts.MountError.not_allowed ("data" ∷ [])) ∷ []))
    × (VolumeMounts.validate (operator_settings Reject.any_not_in) (pod_spec with_data) ≡ accept)
    × (VolumeMounts.validate (operator_settings Reject.all_are_used) (pod_spec with_data) ≡ accept)
    × (VolumeMounts.validate (operator_settings Reject.not_all_are_used) (pod_spec with_data)
        ≡ reject (("main", VolumeMounts.MountError.missing ("logs" ∷ [])) ∷ []))
unfolding VolumeMounts.validate VolumeMounts.validate_pod VolumeMounts.validate_container
    VolumeMounts.validate_volume_mounts policies.Prelude.intersection policies.Prelude.insert
    policies.Prelude.difference policies.Prelude.is_subset
volume_mounts_tests = (refl, refl, refl, refl)

validate-AllFineMounts_iff_example :
    (VolumeMounts.validate (operator_settings Reject.any_in) (pod_spec with_data) ≡ accept) ↔ (
      AllFineMounts (operator_settings Reject.any_in) with_data.containers
      × AllFineMounts (operator_settings Reject.any_in) (unwrap_or [] with_data.init_containers)
      × AllFineMounts
          (operator_settings Reject.any_in)
          (unwrap_or [] with_data.ephemeral_containers))
validate-AllFineMounts_iff_example =
    validate-AllFineMounts_iff (operator_settings Reject.any_in) with_data

abbrev with_token : PodSpec (Unit {0})
with_token = pod (record (container "main") { env = some (record { name = "TOKEN" } ∷ []) } ∷ [])

abbrev no_token : BaseSettings
no_token = BaseSettings.does_not_contain_any_of ("TOKEN" ∷ [])

validate-Meets_iff_example :
    (EnvVars.validate (pod []) no_token (pod_spec with_token) ≡ some accept) ↔ (
      (name : String) (names : List String)
      → last_named name (all_containers no_token with_token) ≡ some names
      → Meets no_token names)
validate-Meets_iff_example = validate-Meets_iff no_token (pod []) with_token

abbrev classes : Option String → PriorityClass.Settings
classes default_class = record {
  allowed_priority_classes = "low" ∷ "high" ∷ [];
  denied_priority_classes = [];
  default_priority_class = default_class;
}

abbrev of_class : String → PodSpec (Unit {0})
of_class name = record (pod []) { priority_class_name = some name }

priority_class_tests :
    (PriorityClass.validate (classes (some "low")) (pod_spec (pod []))
      ≡ some (mutate (of_class "low")))
    × (PriorityClass.validate (classes none) (pod_spec (of_class "top"))
        ≡ some (reject (PriorityError.is_not_allowed "top")))
unfolding PriorityClass.validate PriorityClass.validate_pod_priority_class
priority_class_tests = (refl, refl)

validate-IsGrantedAnswer_example :
    (r : Response PriorityError (PodSpec (Unit {0}))) × (PriorityClass.validate
        (classes (some "low"))
        (pod_spec (pod []))
      ≡ some r)
    × IsGrantedAnswer (classes (some "low")) (pod []) r
unfolding PriorityClass.validate_settings
validate-IsGrantedAnswer_example = validate-IsGrantedAnswer (classes (some "low")) (pod []) refl

abbrev storage : StorageClass.Settings
storage = record {
  denied_storage_classes = some ("fast" ∷ []);
  fallback_storage_class = some "cheap";
  allowed_storage_classes = none;
}

abbrev claim : String → PersistentVolumeClaim (Unit {0})
claim name = record {
  spec = some (record { storage_class_name = some name; others = tt });
  others = tt;
}

storage_class_test :
    StorageClass.validate tt storage (some (claim "fast")) ≡ some (mutate (claim "cheap"))
unfolding StorageClass.validate StorageClass.validate_denied_classes StorageClass.storage_class_of
    StorageClass.mutate_or_reject StorageClass.mutate_pvc
storage_class_test = refl

validate-IsGranted_example :
    (r : Response String (PersistentVolumeClaim (Unit {0}))) × (StorageClass.validate tt storage
        (some (claim "fast"))
      ≡ some r)
    × IsGranted tt storage (claim "fast") r
unfolding StorageClass.validate_settings
validate-IsGranted_example = validate-IsGranted tt storage (claim "fast") refl
