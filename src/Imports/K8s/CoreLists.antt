-- ===== src/Imports/K8s/CoreLists.antt =====
-- The classes of the lists of the core API group: k8s_KubePodList.go and so on in
-- cdk8s/imports/k8s, with the files of their checks.
use learning_crossplane_e2e.Prelude.{String, Option}
use learning_crossplane_e2e.Imports.Template.{
  Checks, ApiClass, required_props_checks, nil_checks, api_class,
}
use learning_crossplane_e2e.Imports.Initialize.{k8s_initialize}

module _ {P X : Type 0} where
  abbrev pub kube_component_status_list_class : Checks P X → ApiClass P X
  kube_component_status_list_class =
      api_class k8s_initialize "k8s.KubeComponentStatusList" "KubeComponentStatusList"

  abbrev pub kube_component_status_list_checks : (Option P → Option String) → Checks P X
  kube_component_status_list_checks = required_props_checks

  abbrev pub kube_component_status_list_no_checks : Checks P X
  kube_component_status_list_no_checks = nil_checks

  abbrev pub kube_config_map_list_class : Checks P X → ApiClass P X
  kube_config_map_list_class = api_class k8s_initialize "k8s.KubeConfigMapList" "KubeConfigMapList"

  abbrev pub kube_config_map_list_checks : (Option P → Option String) → Checks P X
  kube_config_map_list_checks = required_props_checks

  abbrev pub kube_config_map_list_no_checks : Checks P X
  kube_config_map_list_no_checks = nil_checks

  abbrev pub kube_endpoints_list_class : Checks P X → ApiClass P X
  kube_endpoints_list_class = api_class k8s_initialize "k8s.KubeEndpointsList" "KubeEndpointsList"

  abbrev pub kube_endpoints_list_checks : (Option P → Option String) → Checks P X
  kube_endpoints_list_checks = required_props_checks

  abbrev pub kube_endpoints_list_no_checks : Checks P X
  kube_endpoints_list_no_checks = nil_checks

  abbrev pub kube_limit_range_list_class : Checks P X → ApiClass P X
  kube_limit_range_list_class =
      api_class k8s_initialize "k8s.KubeLimitRangeList" "KubeLimitRangeList"

  abbrev pub kube_limit_range_list_checks : (Option P → Option String) → Checks P X
  kube_limit_range_list_checks = required_props_checks

  abbrev pub kube_limit_range_list_no_checks : Checks P X
  kube_limit_range_list_no_checks = nil_checks

  abbrev pub kube_namespace_list_class : Checks P X → ApiClass P X
  kube_namespace_list_class = api_class k8s_initialize "k8s.KubeNamespaceList" "KubeNamespaceList"

  abbrev pub kube_namespace_list_checks : (Option P → Option String) → Checks P X
  kube_namespace_list_checks = required_props_checks

  abbrev pub kube_namespace_list_no_checks : Checks P X
  kube_namespace_list_no_checks = nil_checks

  abbrev pub kube_node_list_class : Checks P X → ApiClass P X
  kube_node_list_class = api_class k8s_initialize "k8s.KubeNodeList" "KubeNodeList"

  abbrev pub kube_node_list_checks : (Option P → Option String) → Checks P X
  kube_node_list_checks = required_props_checks

  abbrev pub kube_node_list_no_checks : Checks P X
  kube_node_list_no_checks = nil_checks

  abbrev pub kube_persistent_volume_claim_list_class : Checks P X → ApiClass P X
  kube_persistent_volume_claim_list_class =
      api_class k8s_initialize "k8s.KubePersistentVolumeClaimList" "KubePersistentVolumeClaimList"

  abbrev pub kube_persistent_volume_claim_list_checks : (Option P → Option String) → Checks P X
  kube_persistent_volume_claim_list_checks = required_props_checks

  abbrev pub kube_persistent_volume_claim_list_no_checks : Checks P X
  kube_persistent_volume_claim_list_no_checks = nil_checks

  abbrev pub kube_persistent_volume_list_class : Checks P X → ApiClass P X
  kube_persistent_volume_list_class =
      api_class k8s_initialize "k8s.KubePersistentVolumeList" "KubePersistentVolumeList"

  abbrev pub kube_persistent_volume_list_checks : (Option P → Option String) → Checks P X
  kube_persistent_volume_list_checks = required_props_checks

  abbrev pub kube_persistent_volume_list_no_checks : Checks P X
  kube_persistent_volume_list_no_checks = nil_checks

  abbrev pub kube_pod_list_class : Checks P X → ApiClass P X
  kube_pod_list_class = api_class k8s_initialize "k8s.KubePodList" "KubePodList"

  abbrev pub kube_pod_list_checks : (Option P → Option String) → Checks P X
  kube_pod_list_checks = required_props_checks

  abbrev pub kube_pod_list_no_checks : Checks P X
  kube_pod_list_no_checks = nil_checks

  abbrev pub kube_pod_template_list_class : Checks P X → ApiClass P X
  kube_pod_template_list_class =
      api_class k8s_initialize "k8s.KubePodTemplateList" "KubePodTemplateList"

  abbrev pub kube_pod_template_list_checks : (Option P → Option String) → Checks P X
  kube_pod_template_list_checks = required_props_checks

  abbrev pub kube_pod_template_list_no_checks : Checks P X
  kube_pod_template_list_no_checks = nil_checks

  abbrev pub kube_replication_controller_list_class : Checks P X → ApiClass P X
  kube_replication_controller_list_class =
      api_class k8s_initialize "k8s.KubeReplicationControllerList" "KubeReplicationControllerList"

  abbrev pub kube_replication_controller_list_checks : (Option P → Option String) → Checks P X
  kube_replication_controller_list_checks = required_props_checks

  abbrev pub kube_replication_controller_list_no_checks : Checks P X
  kube_replication_controller_list_no_checks = nil_checks

  abbrev pub kube_resource_quota_list_class : Checks P X → ApiClass P X
  kube_resource_quota_list_class =
      api_class k8s_initialize "k8s.KubeResourceQuotaList" "KubeResourceQuotaList"

  abbrev pub kube_resource_quota_list_checks : (Option P → Option String) → Checks P X
  kube_resource_quota_list_checks = required_props_checks

  abbrev pub kube_resource_quota_list_no_checks : Checks P X
  kube_resource_quota_list_no_checks = nil_checks

  abbrev pub kube_secret_list_class : Checks P X → ApiClass P X
  kube_secret_list_class = api_class k8s_initialize "k8s.KubeSecretList" "KubeSecretList"

  abbrev pub kube_secret_list_checks : (Option P → Option String) → Checks P X
  kube_secret_list_checks = required_props_checks

  abbrev pub kube_secret_list_no_checks : Checks P X
  kube_secret_list_no_checks = nil_checks

  abbrev pub kube_service_account_list_class : Checks P X → ApiClass P X
  kube_service_account_list_class =
      api_class k8s_initialize "k8s.KubeServiceAccountList" "KubeServiceAccountList"

  abbrev pub kube_service_account_list_checks : (Option P → Option String) → Checks P X
  kube_service_account_list_checks = required_props_checks

  abbrev pub kube_service_account_list_no_checks : Checks P X
  kube_service_account_list_no_checks = nil_checks

  abbrev pub kube_service_list_class : Checks P X → ApiClass P X
  kube_service_list_class = api_class k8s_initialize "k8s.KubeServiceList" "KubeServiceList"

  abbrev pub kube_service_list_checks : (Option P → Option String) → Checks P X
  kube_service_list_checks = required_props_checks

  abbrev pub kube_service_list_no_checks : Checks P X
  kube_service_list_no_checks = nil_checks
