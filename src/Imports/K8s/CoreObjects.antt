-- ===== src/Imports/K8s/CoreObjects.antt =====
-- The classes of the core API group, but for the lists: k8s_KubePod.go, k8s_KubeService.go and so
-- on in cdk8s/imports/k8s, with the files of their checks.
use learning_crossplane_e2e.Prelude.{String, Option}
use learning_crossplane_e2e.Imports.Template.{
  Checks, ApiClass, optional_props_checks, required_props_checks, nil_checks, api_class,
}
use learning_crossplane_e2e.Imports.Initialize.{k8s_initialize}

module _ {P X : Type 0} where
  abbrev pub kube_binding_class : Checks P X → ApiClass P X
  kube_binding_class = api_class k8s_initialize "k8s.KubeBinding" "KubeBinding"

  abbrev pub kube_binding_checks : (Option P → Option String) → Checks P X
  kube_binding_checks = required_props_checks

  abbrev pub kube_binding_no_checks : Checks P X
  kube_binding_no_checks = nil_checks

  abbrev pub kube_component_status_class : Checks P X → ApiClass P X
  kube_component_status_class =
      api_class k8s_initialize "k8s.KubeComponentStatus" "KubeComponentStatus"

  abbrev pub kube_component_status_checks : (Option P → Option String) → Checks P X
  kube_component_status_checks = optional_props_checks

  abbrev pub kube_component_status_no_checks : Checks P X
  kube_component_status_no_checks = nil_checks

  abbrev pub kube_config_map_class : Checks P X → ApiClass P X
  kube_config_map_class = api_class k8s_initialize "k8s.KubeConfigMap" "KubeConfigMap"

  abbrev pub kube_config_map_checks : (Option P → Option String) → Checks P X
  kube_config_map_checks = optional_props_checks

  abbrev pub kube_config_map_no_checks : Checks P X
  kube_config_map_no_checks = nil_checks

  abbrev pub kube_endpoints_class : Checks P X → ApiClass P X
  kube_endpoints_class = api_class k8s_initialize "k8s.KubeEndpoints" "KubeEndpoints"

  abbrev pub kube_endpoints_checks : (Option P → Option String) → Checks P X
  kube_endpoints_checks = optional_props_checks

  abbrev pub kube_endpoints_no_checks : Checks P X
  kube_endpoints_no_checks = nil_checks

  abbrev pub kube_limit_range_class : Checks P X → ApiClass P X
  kube_limit_range_class = api_class k8s_initialize "k8s.KubeLimitRange" "KubeLimitRange"

  abbrev pub kube_limit_range_checks : (Option P → Option String) → Checks P X
  kube_limit_range_checks = optional_props_checks

  abbrev pub kube_limit_range_no_checks : Checks P X
  kube_limit_range_no_checks = nil_checks

  abbrev pub kube_namespace_class : Checks P X → ApiClass P X
  kube_namespace_class = api_class k8s_initialize "k8s.KubeNamespace" "KubeNamespace"

  abbrev pub kube_namespace_checks : (Option P → Option String) → Checks P X
  kube_namespace_checks = optional_props_checks

  abbrev pub kube_namespace_no_checks : Checks P X
  kube_namespace_no_checks = nil_checks

  abbrev pub kube_node_class : Checks P X → ApiClass P X
  kube_node_class = api_class k8s_initialize "k8s.KubeNode" "KubeNode"

  abbrev pub kube_node_checks : (Option P → Option String) → Checks P X
  kube_node_checks = optional_props_checks

  abbrev pub kube_node_no_checks : Checks P X
  kube_node_no_checks = nil_checks

  abbrev pub kube_persistent_volume_class : Checks P X → ApiClass P X
  kube_persistent_volume_class =
      api_class k8s_initialize "k8s.KubePersistentVolume" "KubePersistentVolume"

  abbrev pub kube_persistent_volume_checks : (Option P → Option String) → Checks P X
  kube_persistent_volume_checks = optional_props_checks

  abbrev pub kube_persistent_volume_no_checks : Checks P X
  kube_persistent_volume_no_checks = nil_checks

  abbrev pub kube_persistent_volume_claim_class : Checks P X → ApiClass P X
  kube_persistent_volume_claim_class =
      api_class k8s_initialize "k8s.KubePersistentVolumeClaim" "KubePersistentVolumeClaim"

  abbrev pub kube_persistent_volume_claim_checks : (Option P → Option String) → Checks P X
  kube_persistent_volume_claim_checks = optional_props_checks

  abbrev pub kube_persistent_volume_claim_no_checks : Checks P X
  kube_persistent_volume_claim_no_checks = nil_checks

  abbrev pub kube_pod_class : Checks P X → ApiClass P X
  kube_pod_class = api_class k8s_initialize "k8s.KubePod" "KubePod"

  abbrev pub kube_pod_checks : (Option P → Option String) → Checks P X
  kube_pod_checks = optional_props_checks

  abbrev pub kube_pod_no_checks : Checks P X
  kube_pod_no_checks = nil_checks

  abbrev pub kube_pod_template_class : Checks P X → ApiClass P X
  kube_pod_template_class = api_class k8s_initialize "k8s.KubePodTemplate" "KubePodTemplate"

  abbrev pub kube_pod_template_checks : (Option P → Option String) → Checks P X
  kube_pod_template_checks = optional_props_checks

  abbrev pub kube_pod_template_no_checks : Checks P X
  kube_pod_template_no_checks = nil_checks

  abbrev pub kube_replication_controller_class : Checks P X → ApiClass P X
  kube_replication_controller_class =
      api_class k8s_initialize "k8s.KubeReplicationController" "KubeReplicationController"

  abbrev pub kube_replication_controller_checks : (Option P → Option String) → Checks P X
  kube_replication_controller_checks = optional_props_checks

  abbrev pub kube_replication_controller_no_checks : Checks P X
  kube_replication_controller_no_checks = nil_checks

  abbrev pub kube_resource_quota_class : Checks P X → ApiClass P X
  kube_resource_quota_class = api_class k8s_initialize "k8s.KubeResourceQuota" "KubeResourceQuota"

  abbrev pub kube_resource_quota_checks : (Option P → Option String) → Checks P X
  kube_resource_quota_checks = optional_props_checks

  abbrev pub kube_resource_quota_no_checks : Checks P X
  kube_resource_quota_no_checks = nil_checks

  abbrev pub kube_secret_class : Checks P X → ApiClass P X
  kube_secret_class = api_class k8s_initialize "k8s.KubeSecret" "KubeSecret"

  abbrev pub kube_secret_checks : (Option P → Option String) → Checks P X
  kube_secret_checks = optional_props_checks

  abbrev pub kube_secret_no_checks : Checks P X
  kube_secret_no_checks = nil_checks

  abbrev pub kube_service_class : Checks P X → ApiClass P X
  kube_service_class = api_class k8s_initialize "k8s.KubeService" "KubeService"

  abbrev pub kube_service_checks : (Option P → Option String) → Checks P X
  kube_service_checks = optional_props_checks

  abbrev pub kube_service_no_checks : Checks P X
  kube_service_no_checks = nil_checks

  abbrev pub kube_service_account_class : Checks P X → ApiClass P X
  kube_service_account_class =
      api_class k8s_initialize "k8s.KubeServiceAccount" "KubeServiceAccount"

  abbrev pub kube_service_account_checks : (Option P → Option String) → Checks P X
  kube_service_account_checks = optional_props_checks

  abbrev pub kube_service_account_no_checks : Checks P X
  kube_service_account_no_checks = nil_checks
