-- ===== src/Imports/K8s/Extension.antt =====
-- The classes of the API groups apiregistration, apiextensions, apiserverinternal and meta, in
-- cdk8s/imports/k8s, with the files of their checks.
use learning_crossplane_e2e.Prelude.{String, Option}
use learning_crossplane_e2e.Imports.Template.{
  Checks, ApiClass, optional_props_checks, required_props_checks, nil_checks, api_class,
}
use learning_crossplane_e2e.Imports.Initialize.{k8s_initialize}

module _ {P X : Type 0} where
  abbrev pub kube_api_service_class : Checks P X → ApiClass P X
  kube_api_service_class = api_class k8s_initialize "k8s.KubeApiService" "KubeApiService"

  abbrev pub kube_api_service_checks : (Option P → Option String) → Checks P X
  kube_api_service_checks = optional_props_checks

  abbrev pub kube_api_service_no_checks : Checks P X
  kube_api_service_no_checks = nil_checks

  abbrev pub kube_api_service_list_class : Checks P X → ApiClass P X
  kube_api_service_list_class =
      api_class k8s_initialize "k8s.KubeApiServiceList" "KubeApiServiceList"

  abbrev pub kube_api_service_list_checks : (Option P → Option String) → Checks P X
  kube_api_service_list_checks = required_props_checks

  abbrev pub kube_api_service_list_no_checks : Checks P X
  kube_api_service_list_no_checks = nil_checks

  abbrev pub kube_custom_resource_definition_class : Checks P X → ApiClass P X
  kube_custom_resource_definition_class =
      api_class k8s_initialize "k8s.KubeCustomResourceDefinition" "KubeCustomResourceDefinition"

  abbrev pub kube_custom_resource_definition_checks : (Option P → Option String) → Checks P X
  kube_custom_resource_definition_checks = required_props_checks

  abbrev pub kube_custom_resource_definition_no_checks : Checks P X
  kube_custom_resource_definition_no_checks = nil_checks

  abbrev pub kube_custom_resource_definition_list_class : Checks P X → ApiClass P X
  kube_custom_resource_definition_list_class =
      api_class k8s_initialize "k8s.KubeCustomResourceDefinitionList"
        "KubeCustomResourceDefinitionList"

  abbrev pub kube_custom_resource_definition_list_checks : (Option P → Option String) → Checks P X
  kube_custom_resource_definition_list_checks = required_props_checks

  abbrev pub kube_custom_resource_definition_list_no_checks : Checks P X
  kube_custom_resource_definition_list_no_checks = nil_checks

  abbrev pub kube_storage_version_list_v1_alpha1_class : Checks P X → ApiClass P X
  kube_storage_version_list_v1_alpha1_class =
      api_class k8s_initialize "k8s.KubeStorageVersionListV1Alpha1" "KubeStorageVersionListV1Alpha1"

  abbrev pub kube_storage_version_list_v1_alpha1_checks : (Option P → Option String) → Checks P X
  kube_storage_version_list_v1_alpha1_checks = required_props_checks

  abbrev pub kube_storage_version_list_v1_alpha1_no_checks : Checks P X
  kube_storage_version_list_v1_alpha1_no_checks = nil_checks

  abbrev pub kube_storage_version_v1_alpha1_class : Checks P X → ApiClass P X
  kube_storage_version_v1_alpha1_class =
      api_class k8s_initialize "k8s.KubeStorageVersionV1Alpha1" "KubeStorageVersionV1Alpha1"

  abbrev pub kube_storage_version_v1_alpha1_checks : (Option P → Option String) → Checks P X
  kube_storage_version_v1_alpha1_checks = required_props_checks

  abbrev pub kube_storage_version_v1_alpha1_no_checks : Checks P X
  kube_storage_version_v1_alpha1_no_checks = nil_checks

  abbrev pub kube_status_class : Checks P X → ApiClass P X
  kube_status_class = api_class k8s_initialize "k8s.KubeStatus" "KubeStatus"

  abbrev pub kube_status_checks : (Option P → Option String) → Checks P X
  kube_status_checks = optional_props_checks

  abbrev pub kube_status_no_checks : Checks P X
  kube_status_no_checks = nil_checks
