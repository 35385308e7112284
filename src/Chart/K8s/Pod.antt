-- ===== src/Chart/K8s/Pod.antt =====
-- Pods and deployments of the Kubernetes API. The structs as the generated Go declares
-- them, each with its zero value and with the test that its required fields are set, in every
-- struct below it too.
use learning_crossplane_e2e.Prelude.{Bool, List, Option, String, none, ◌&&◌}
use learning_crossplane_e2e.Chart.K8s.Base.{
  Float64, NeverBuilt, Quantity, StringMap, each, each_of, is_set,
}
use learning_crossplane_e2e.Chart.K8s.Container.{Container, container_complete}
use learning_crossplane_e2e.Chart.K8s.Meta.{
  LabelSelector, ObjectMeta, label_selector_complete, object_meta_complete,
}

pub record PodSpec : Type 0 where
  pub containers : Option (List Container)
  pub active_deadline_seconds : Option Float64
  pub affinity : Option NeverBuilt
  pub automount_service_account_token : Option Bool
  pub dns_config : Option NeverBuilt
  pub dns_policy : Option String
  pub enable_service_links : Option Bool
  pub ephemeral_containers : Option NeverBuilt
  pub host_aliases : Option NeverBuilt
  pub host_ipc : Option Bool
  pub hostname : Option String
  pub host_network : Option Bool
  pub host_pid : Option Bool
  pub host_users : Option Bool
  pub image_pull_secrets : Option NeverBuilt
  pub init_containers : Option (List Container)
  pub node_name : Option String
  pub node_selector : Option StringMap
  pub os : Option NeverBuilt
  pub overhead : Option (List (String × Quantity))
  pub preemption_policy : Option String
  pub priority : Option Float64
  pub priority_class_name : Option String
  pub readiness_gates : Option NeverBuilt
  pub restart_policy : Option String
  pub runtime_class_name : Option String
  pub scheduler_name : Option String
  pub security_context : Option NeverBuilt
  pub service_account : Option String
  pub service_account_name : Option String
  pub set_hostname_as_fqdn : Option Bool
  pub share_process_namespace : Option Bool
  pub subdomain : Option String
  pub termination_grace_period_seconds : Option Float64
  pub tolerations : Option NeverBuilt
  pub topology_spread_constraints : Option NeverBuilt
  pub volumes : Option NeverBuilt

abbrev pub zero_pod_spec : PodSpec
zero_pod_spec = record {
  containers = none;
  active_deadline_seconds = none;
  affinity = none;
  automount_service_account_token = none;
  dns_config = none;
  dns_policy = none;
  enable_service_links = none;
  ephemeral_containers = none;
  host_aliases = none;
  host_ipc = none;
  hostname = none;
  host_network = none;
  host_pid = none;
  host_users = none;
  image_pull_secrets = none;
  init_containers = none;
  node_name = none;
  node_selector = none;
  os = none;
  overhead = none;
  preemption_policy = none;
  priority = none;
  priority_class_name = none;
  readiness_gates = none;
  restart_policy = none;
  runtime_class_name = none;
  scheduler_name = none;
  security_context = none;
  service_account = none;
  service_account_name = none;
  set_hostname_as_fqdn = none;
  share_process_namespace = none;
  subdomain = none;
  termination_grace_period_seconds = none;
  tolerations = none;
  topology_spread_constraints = none;
  volumes = none;
}

abbrev pub pod_spec_complete : PodSpec → Bool
pod_spec_complete x =
    is_set x.containers
    && each_of container_complete x.containers
    && each_of container_complete x.init_containers

pub record PodTemplateSpec : Type 0 where
  pub metadata : Option ObjectMeta
  pub spec : Option PodSpec

abbrev pub zero_pod_template_spec : PodTemplateSpec
zero_pod_template_spec = record { metadata = none; spec = none }

abbrev pub pod_template_spec_complete : PodTemplateSpec → Bool
pod_template_spec_complete x = each object_meta_complete x.metadata && each pod_spec_complete x.spec

pub record DeploymentSpec : Type 0 where
  pub selector : Option LabelSelector
  pub template : Option PodTemplateSpec
  pub min_ready_seconds : Option Float64
  pub paused : Option Bool
  pub progress_deadline_seconds : Option Float64
  pub replicas : Option Float64
  pub revision_history_limit : Option Float64
  pub strategy : Option NeverBuilt

abbrev pub zero_deployment_spec : DeploymentSpec
zero_deployment_spec = record {
  selector = none;
  template = none;
  min_ready_seconds = none;
  paused = none;
  progress_deadline_seconds = none;
  replicas = none;
  revision_history_limit = none;
  strategy = none;
}

abbrev pub deployment_spec_complete : DeploymentSpec → Bool
deployment_spec_complete x =
    is_set x.selector
    && each label_selector_complete x.selector
    && is_set x.template
    && each pod_template_spec_complete x.template

pub record KubeDeploymentProps : Type 0 where
  pub metadata : Option ObjectMeta
  pub spec : Option DeploymentSpec

abbrev pub zero_kube_deployment_props : KubeDeploymentProps
zero_kube_deployment_props = record { metadata = none; spec = none }

abbrev pub kube_deployment_props_complete : KubeDeploymentProps → Bool
kube_deployment_props_complete x =
    each object_meta_complete x.metadata && each deployment_spec_complete x.spec
