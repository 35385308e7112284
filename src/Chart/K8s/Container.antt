-- ===== src/Chart/K8s/Container.antt =====
-- Containers of the Kubernetes API and what a container is made of. The structs as the generated Go declares
-- them, each with its zero value and with the test that its required fields are set, in every
-- struct below it too.
use learning_crossplane_e2e.Prelude.{Bool, List, Option, String, none, true, ◌&&◌}
use learning_crossplane_e2e.Chart.K8s.Base.{
  Float64, IntOrString, NeverBuilt, Quantity, each, each_of, is_set,
}

pub record SecretKeySelector : Type 0 where
  pub key : Option String
  pub name : Option String
  pub optional : Option Bool

abbrev pub zero_secret_key_selector : SecretKeySelector
zero_secret_key_selector = record { key = none; name = none; optional = none }

abbrev pub secret_key_selector_complete : SecretKeySelector → Bool
secret_key_selector_complete x = is_set x.key

pub record EnvVarSource : Type 0 where
  pub config_map_key_ref : Option NeverBuilt
  pub field_ref : Option NeverBuilt
  pub resource_field_ref : Option NeverBuilt
  pub secret_key_ref : Option SecretKeySelector

abbrev pub zero_env_var_source : EnvVarSource
zero_env_var_source = record {
  config_map_key_ref = none;
  field_ref = none;
  resource_field_ref = none;
  secret_key_ref = none;
}

abbrev pub env_var_source_complete : EnvVarSource → Bool
env_var_source_complete x = each secret_key_selector_complete x.secret_key_ref

pub record EnvVar : Type 0 where
  pub name : Option String
  pub value : Option String
  pub value_from : Option EnvVarSource

abbrev pub zero_env_var : EnvVar
zero_env_var = record { name = none; value = none; value_from = none }

abbrev pub env_var_complete : EnvVar → Bool
env_var_complete x = is_set x.name && each env_var_source_complete x.value_from

pub record ContainerPort : Type 0 where
  pub container_port : Option Float64
  pub host_ip : Option String
  pub host_port : Option Float64
  pub name : Option String
  pub protocol : Option String

abbrev pub zero_container_port : ContainerPort
zero_container_port = record {
  container_port = none;
  host_ip = none;
  host_port = none;
  name = none;
  protocol = none;
}

abbrev pub container_port_complete : ContainerPort → Bool
container_port_complete x = is_set x.container_port

pub record ResourceRequirements : Type 0 where
  pub limits : Option (List (String × Quantity))
  pub requests : Option (List (String × Quantity))

abbrev pub zero_resource_requirements : ResourceRequirements
zero_resource_requirements = record { limits = none; requests = none }

abbrev pub resource_requirements_complete : ResourceRequirements → Bool
resource_requirements_complete x = true

pub record HttpGetAction : Type 0 where
  pub port : Option IntOrString
  pub host : Option String
  pub http_headers : Option NeverBuilt
  pub path : Option String
  pub scheme : Option String

abbrev pub zero_http_get_action : HttpGetAction
zero_http_get_action = record {
  port = none;
  host = none;
  http_headers = none;
  path = none;
  scheme = none;
}

abbrev pub http_get_action_complete : HttpGetAction → Bool
http_get_action_complete x = is_set x.port

pub record Probe : Type 0 where
  pub exec : Option NeverBuilt
  pub failure_threshold : Option Float64
  pub grpc : Option NeverBuilt
  pub http_get : Option HttpGetAction
  pub initial_delay_seconds : Option Float64
  pub period_seconds : Option Float64
  pub success_threshold : Option Float64
  pub tcp_socket : Option NeverBuilt
  pub termination_grace_period_seconds : Option Float64
  pub timeout_seconds : Option Float64

abbrev pub zero_probe : Probe
zero_probe = record {
  exec = none;
  failure_threshold = none;
  grpc = none;
  http_get = none;
  initial_delay_seconds = none;
  period_seconds = none;
  success_threshold = none;
  tcp_socket = none;
  termination_grace_period_seconds = none;
  timeout_seconds = none;
}

abbrev pub probe_complete : Probe → Bool
probe_complete x = each http_get_action_complete x.http_get

pub record SecurityContext : Type 0 where
  pub allow_privilege_escalation : Option Bool
  pub capabilities : Option NeverBuilt
  pub privileged : Option Bool
  pub proc_mount : Option String
  pub read_only_root_filesystem : Option Bool
  pub run_as_group : Option Float64
  pub run_as_non_root : Option Bool
  pub run_as_user : Option Float64
  pub seccomp_profile : Option NeverBuilt
  pub se_linux_options : Option NeverBuilt
  pub windows_options : Option NeverBuilt

abbrev pub zero_security_context : SecurityContext
zero_security_context = record {
  allow_privilege_escalation = none;
  capabilities = none;
  privileged = none;
  proc_mount = none;
  read_only_root_filesystem = none;
  run_as_group = none;
  run_as_non_root = none;
  run_as_user = none;
  seccomp_profile = none;
  se_linux_options = none;
  windows_options = none;
}

abbrev pub security_context_complete : SecurityContext → Bool
security_context_complete x = true

pub record Container : Type 0 where
  pub name : Option String
  pub args : Option (List String)
  pub command : Option (List String)
  pub env : Option (List EnvVar)
  pub env_from : Option NeverBuilt
  pub image : Option String
  pub image_pull_policy : Option String
  pub lifecycle : Option NeverBuilt
  pub liveness_probe : Option Probe
  pub ports : Option (List ContainerPort)
  pub readiness_probe : Option Probe
  pub resources : Option ResourceRequirements
  pub security_context : Option SecurityContext
  pub startup_probe : Option Probe
  pub stdin : Option Bool
  pub stdin_once : Option Bool
  pub termination_message_path : Option String
  pub termination_message_policy : Option String
  pub tty : Option Bool
  pub volume_devices : Option NeverBuilt
  pub volume_mounts : Option NeverBuilt
  pub working_dir : Option String

abbrev pub zero_container : Container
zero_container = record {
  name = none;
  args = none;
  command = none;
  env = none;
  env_from = none;
  image = none;
  image_pull_policy = none;
  lifecycle = none;
  liveness_probe = none;
  ports = none;
  readiness_probe = none;
  resources = none;
  security_context = none;
  startup_probe = none;
  stdin = none;
  stdin_once = none;
  termination_message_path = none;
  termination_message_policy = none;
  tty = none;
  volume_devices = none;
  volume_mounts = none;
  working_dir = none;
}

abbrev pub container_complete : Container → Bool
container_complete x =
    is_set x.name
    && each_of env_var_complete x.env
    && each probe_complete x.liveness_probe
    && each_of container_port_complete x.ports
    && each probe_complete x.readiness_probe
    && each resource_requirements_complete x.resources
    && each security_context_complete x.security_context
    && each probe_complete x.startup_probe
