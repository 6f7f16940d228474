-- ===== src/K8s.antt =====
-- The structures of k8s-openapi, with the fields that the policies read or write. All their other
-- fields are one field `others` of a type `X` that the theorems leave open.
use policies.Prelude.{ℤ, String, Bool, Option, none, List, [], All, unwrap_or}

pub record Capabilities : Type 0 where
  pub add : Option (List String)
  pub drop : Option (List String)

pub record SeLinuxOptions : Type 0 where
  pub level : Option String
  pub role : Option String
  pub type_ : Option String
  pub user : Option String

pub record SeccompProfile : Type 0 where
  pub localhost_profile : Option String
  pub type_ : String

pub record SecurityContext (X : Type 0) : Type 0 where
  pub allow_privilege_escalation : Option Bool
  pub privileged : Option Bool
  pub capabilities : Option Capabilities
  pub run_as_user : Option ℤ
  pub run_as_group : Option ℤ
  pub run_as_non_root : Option Bool
  pub se_linux_options : Option SeLinuxOptions
  pub seccomp_profile : Option SeccompProfile
  pub others : X

pub record PodSecurityContext (X : Type 0) : Type 0 where
  pub fs_group : Option ℤ
  pub run_as_user : Option ℤ
  pub run_as_group : Option ℤ
  pub run_as_non_root : Option Bool
  pub supplemental_groups : Option (List ℤ)
  pub se_linux_options : Option SeLinuxOptions
  pub seccomp_profile : Option SeccompProfile
  pub others : X

pub record Probe (X : Type 0) : Type 0 where
  pub period_seconds : Option ℤ
  pub failure_threshold : Option ℤ
  pub success_threshold : Option ℤ
  pub termination_grace_period_seconds : Option ℤ
  pub timeout_seconds : Option ℤ
  pub initial_delay_seconds : Option ℤ
  pub others : X

pub record EnvVar : Type 0 where
  pub name : String

pub record VolumeMount : Type 0 where
  pub name : String

-- Also the shape of an ephemeral container.
pub record Container (X : Type 0) : Type 0 where
  pub name : String
  pub image : Option String
  pub env : Option (List EnvVar)
  pub volume_mounts : Option (List VolumeMount)
  pub liveness_probe : Option (Probe X)
  pub readiness_probe : Option (Probe X)
  pub security_context : Option (SecurityContext X)
  pub others : X

pub record PodSpec (X : Type 0) : Type 0 where
  pub containers : List (Container X)
  pub init_containers : Option (List (Container X))
  pub ephemeral_containers : Option (List (Container X))
  pub automount_service_account_token : Option Bool
  pub service_account_name : Option String
  pub service_account : Option String
  pub priority_class_name : Option String
  pub security_context : Option (PodSecurityContext X)
  pub others : X

pub record Pod (X : Type 0) : Type 0 where
  pub annotations : Option (List (String × String))
  pub spec : Option (PodSpec X)
  pub others : X

-- `Default::default()`, with `unset` for the other fields.
module _ {X : Type 0} (unset : X) where
  abbrev pub default_security_context : SecurityContext X
  default_security_context = record {
    allow_privilege_escalation = none;
    privileged = none;
    capabilities = none;
    run_as_user = none;
    run_as_group = none;
    run_as_non_root = none;
    se_linux_options = none;
    seccomp_profile = none;
    others = unset;
  }

  abbrev pub default_pod_security_context : PodSecurityContext X
  default_pod_security_context = record {
    fs_group = none;
    run_as_user = none;
    run_as_group = none;
    run_as_non_root = none;
    supplemental_groups = none;
    se_linux_options = none;
    seccomp_profile = none;
    others = unset;
  }

-- A property of every container and every init container of a pod.
abbrev pub AllContainers : {X : Type 0} → (Container X → Type 0) → PodSpec X → Type 0
AllContainers P p = All P p.containers × All P (unwrap_or [] p.init_containers)
