-- ===== src/Examples/Workloads.antt =====
-- A container and a pod with nothing set, for tests to fill in.
use policies.Prelude.{String, none, List}
use policies.K8s.{Container, PodSpec}

abbrev pub container : String → Container (Unit {0})
container name = record {
  name = name;
  image = none;
  env = none;
  volume_mounts = none;
  liveness_probe = none;
  readiness_probe = none;
  security_context = none;
  others = tt;
}

abbrev pub pod : List (Container (Unit {0})) → PodSpec (Unit {0})
pod containers = record {
  containers = containers;
  init_containers = none;
  ephemeral_containers = none;
  automount_service_account_token = none;
  service_account_name = none;
  service_account = none;
  priority_class_name = none;
  security_context = none;
  others = tt;
}
