-- ===== src/Imports/K8s.antt =====
-- The classes of cdk8s/imports/k8s, by their API groups; the classes of API
-- objects also as one list, in the order in which k8s.go registers them.
pub mod CoreObjects
pub mod CoreLists
pub mod Workloads
pub mod Scheduling
pub mod Access
pub mod Storage
pub mod Network
pub mod Admission
pub mod Extension
pub mod Values
pub use CoreObjects.*
pub use CoreLists.*
pub use Workloads.*
pub use Scheduling.*
pub use Access.*
pub use Storage.*
pub use Network.*
pub use Admission.*
pub use Extension.*
pub use Values.*
use learning_crossplane_e2e.Prelude.{List, [], ◌∷◌}
use learning_crossplane_e2e.Imports.Template.{Binding, binding}

module _ {P X : Type 0} where
  abbrev pub k8s_bindings : List (Binding P X)
  k8s_bindings =
      binding kube_api_service_class kube_api_service_checks kube_api_service_no_checks
      ∷ binding kube_api_service_list_class kube_api_service_list_checks
          kube_api_service_list_no_checks
      ∷ binding kube_binding_class kube_binding_checks kube_binding_no_checks
      ∷ binding kube_certificate_signing_request_class kube_certificate_signing_request_checks
          kube_certificate_signing_request_no_checks
      ∷ binding kube_certificate_signing_request_list_class
          kube_certificate_signing_request_list_checks
          kube_certificate_signing_request_list_no_checks
      ∷ binding kube_cluster_cidr_list_v1_alpha1_class kube_cluster_cidr_list_v1_alpha1_checks
          kube_cluster_cidr_list_v1_alpha1_no_checks
      ∷ binding kube_cluster_cidrv1_alpha1_class kube_cluster_cidrv1_alpha1_checks
          kube_cluster_cidrv1_alpha1_no_checks
      ∷ binding kube_cluster_role_class kube_cluster_role_checks kube_cluster_role_no_checks
      ∷ binding kube_cluster_role_binding_class kube_cluster_role_binding_checks
          kube_cluster_role_binding_no_checks
      ∷ binding kube_cluster_role_binding_list_class kube_cluster_role_binding_list_checks
          kube_cluster_role_binding_list_no_checks
      ∷ binding kube_cluster_role_list_class kube_cluster_role_list_checks
          kube_cluster_role_list_no_checks
      ∷ binding kube_component_status_class kube_component_status_checks
          kube_component_status_no_checks
      ∷ binding kube_component_status_list_class kube_component_status_list_checks
          kube_component_status_list_no_checks
      ∷ binding kube_config_map_class kube_config_map_checks kube_config_map_no_checks
      ∷ binding kube_config_map_list_class kube_config_map_list_checks
          kube_config_map_list_no_checks
      ∷ binding kube_controller_revision_class kube_controller_revision_checks
          kube_controller_revision_no_checks
      ∷ binding kube_controller_revision_list_class kube_controller_revision_list_checks
          kube_controller_revision_list_no_checks
      ∷ binding kube_cron_job_class kube_cron_job_checks kube_cron_job_no_checks
      ∷ binding kube_cron_job_list_class kube_cron_job_list_checks kube_cron_job_list_no_checks
      ∷ binding kube_csi_driver_class kube_csi_driver_checks kube_csi_driver_no_checks
      ∷ binding kube_csi_driver_list_class kube_csi_driver_list_checks
          kube_csi_driver_list_no_checks
      ∷ binding kube_csi_node_class kube_csi_node_checks kube_csi_node_no_checks
      ∷ binding kube_csi_node_list_class kube_csi_node_list_checks kube_csi_node_list_no_checks
      ∷ binding kube_csi_storage_capacity_class kube_csi_storage_capacity_checks
          kube_csi_storage_capacity_no_checks
      ∷ binding kube_csi_storage_capacity_list_class kube_csi_storage_capacity_list_checks
          kube_csi_storage_capacity_list_no_checks
      ∷ binding kube_csi_storage_capacity_list_v1_beta1_class
          kube_csi_storage_capacity_list_v1_beta1_checks
          kube_csi_storage_capacity_list_v1_beta1_no_checks
      ∷ binding kube_csi_storage_capacity_v1_beta1_class kube_csi_storage_capacity_v1_beta1_checks
          kube_csi_storage_capacity_v1_beta1_no_checks
      ∷ binding kube_custom_resource_definition_class kube_custom_resource_definition_checks
          kube_custom_resource_definition_no_checks
      ∷ binding kube_custom_resource_definition_list_class
          kube_custom_resource_definition_list_checks kube_custom_resource_definition_list_no_checks
      ∷ binding kube_daemon_set_class kube_daemon_set_checks kube_daemon_set_no_checks
      ∷ binding kube_daemon_set_list_class kube_daemon_set_list_checks
          kube_daemon_set_list_no_checks
      ∷ binding kube_deployment_class kube_deployment_checks kube_deployment_no_checks
      ∷ binding kube_deployment_list_class kube_deployment_list_checks
          kube_deployment_list_no_checks
      ∷ binding kube_endpoint_slice_class kube_endpoint_slice_checks kube_endpoint_slice_no_checks
      ∷ binding kube_endpoint_slice_list_class kube_endpoint_slice_list_checks
          kube_endpoint_slice_list_no_checks
      ∷ binding kube_endpoints_class kube_endpoints_checks kube_endpoints_no_checks
      ∷ binding kube_endpoints_list_class kube_endpoints_list_checks kube_endpoints_list_no_checks
      ∷ binding kube_event_class kube_event_checks kube_event_no_checks
      ∷ binding kube_event_list_class kube_event_list_checks kube_event_list_no_checks
      ∷ binding kube_eviction_class kube_eviction_checks kube_eviction_no_checks
      ∷ binding kube_flow_schema_list_v1_beta1_class kube_flow_schema_list_v1_beta1_checks
          kube_flow_schema_list_v1_beta1_no_checks
      ∷ binding kube_flow_schema_list_v1_beta2_class kube_flow_schema_list_v1_beta2_checks
          kube_flow_schema_list_v1_beta2_no_checks
      ∷ binding kube_flow_schema_v1_beta1_class kube_flow_schema_v1_beta1_checks
          kube_flow_schema_v1_beta1_no_checks
      ∷ binding kube_flow_schema_v1_beta2_class kube_flow_schema_v1_beta2_checks
          kube_flow_schema_v1_beta2_no_checks
      ∷ binding kube_horizontal_pod_autoscaler_class kube_horizontal_pod_autoscaler_checks
          kube_horizontal_pod_autoscaler_no_checks
      ∷ binding kube_horizontal_pod_autoscaler_list_class kube_horizontal_pod_autoscaler_list_checks
          kube_horizontal_pod_autoscaler_list_no_checks
      ∷ binding kube_horizontal_pod_autoscaler_list_v2_class
          kube_horizontal_pod_autoscaler_list_v2_checks
          kube_horizontal_pod_autoscaler_list_v2_no_checks
      ∷ binding kube_horizontal_pod_autoscaler_list_v2_beta2_class
          kube_horizontal_pod_autoscaler_list_v2_beta2_checks
          kube_horizontal_pod_autoscaler_list_v2_beta2_no_checks
      ∷ binding kube_horizontal_pod_autoscaler_v2_class kube_horizontal_pod_autoscaler_v2_checks
          kube_horizontal_pod_autoscaler_v2_no_checks
      ∷ binding kube_horizontal_pod_autoscaler_v2_beta2_class
          kube_horizontal_pod_autoscaler_v2_beta2_checks
          kube_horizontal_pod_autoscaler_v2_beta2_no_checks
      ∷ binding kube_ingress_class kube_ingress_checks kube_ingress_no_checks
      ∷ binding kube_ingress_class_class kube_ingress_class_checks kube_ingress_class_no_checks
      ∷ binding kube_ingress_class_list_class kube_ingress_class_list_checks
          kube_ingress_class_list_no_checks
      ∷ binding kube_ingress_list_class kube_ingress_list_checks kube_ingress_list_no_checks
      ∷ binding kube_job_class kube_job_checks kube_job_no_checks
      ∷ binding kube_job_list_class kube_job_list_checks kube_job_list_no_checks
      ∷ binding kube_lease_class kube_lease_checks kube_lease_no_checks
      ∷ binding kube_lease_list_class kube_lease_list_checks kube_lease_list_no_checks
      ∷ binding kube_limit_range_class kube_limit_range_checks kube_limit_range_no_checks
      ∷ binding kube_limit_range_list_class kube_limit_range_list_checks
          kube_limit_range_list_no_checks
      ∷ binding kube_local_subject_access_review_class kube_local_subject_access_review_checks
          kube_local_subject_access_review_no_checks
      ∷ binding kube_mutating_webhook_configuration_class kube_mutating_webhook_configuration_checks
          kube_mutating_webhook_configuration_no_checks
      ∷ binding kube_mutating_webhook_configuration_list_class
          kube_mutating_webhook_configuration_list_checks
          kube_mutating_webhook_configuration_list_no_checks
      ∷ binding kube_namespace_class kube_namespace_checks kube_namespace_no_checks
      ∷ binding kube_namespace_list_class kube_namespace_list_checks kube_namespace_list_no_checks
      ∷ binding kube_network_policy_class kube_network_policy_checks kube_network_policy_no_checks
      ∷ binding kube_network_policy_list_class kube_network_policy_list_checks
          kube_network_policy_list_no_checks
      ∷ binding kube_node_class kube_node_checks kube_node_no_checks
      ∷ binding kube_node_list_class kube_node_list_checks kube_node_list_no_checks
      ∷ binding kube_persistent_volume_class kube_persistent_volume_checks
          kube_persistent_volume_no_checks
      ∷ binding kube_persistent_volume_claim_class kube_persistent_volume_claim_checks
          kube_persistent_volume_claim_no_checks
      ∷ binding kube_persistent_volume_claim_list_class kube_persistent_volume_claim_list_checks
          kube_persistent_volume_claim_list_no_checks
      ∷ binding kube_persistent_volume_list_class kube_persistent_volume_list_checks
          kube_persistent_volume_list_no_checks
      ∷ binding kube_pod_class kube_pod_checks kube_pod_no_checks
      ∷ binding kube_pod_disruption_budget_class kube_pod_disruption_budget_checks
          kube_pod_disruption_budget_no_checks
      ∷ binding kube_pod_disruption_budget_list_class kube_pod_disruption_budget_list_checks
          kube_pod_disruption_budget_list_no_checks
      ∷ binding kube_pod_list_class kube_pod_list_checks kube_pod_list_no_checks
      ∷ binding kube_pod_template_class kube_pod_template_checks kube_pod_template_no_checks
      ∷ binding kube_pod_template_list_class kube_pod_template_list_checks
          kube_pod_template_list_no_checks
      ∷ binding kube_priority_class_class kube_priority_class_checks kube_priority_class_no_checks
      ∷ binding kube_priority_class_list_class kube_priority_class_list_checks
          kube_priority_class_list_no_checks
      ∷ binding kube_priority_level_configuration_list_v1_beta1_class
          kube_priority_level_configuration_list_v1_beta1_checks
          kube_priority_level_configuration_list_v1_beta1_no_checks
      ∷ binding kube_priority_level_configuration_list_v1_beta2_class
          kube_priority_level_configuration_list_v1_beta2_checks
          kube_priority_level_configuration_list_v1_beta2_no_checks
      ∷ binding kube_priority_level_configuration_v1_beta1_class
          kube_priority_level_configuration_v1_beta1_checks
          kube_priority_level_configuration_v1_beta1_no_checks
      ∷ binding kube_priority_level_configuration_v1_beta2_class
          kube_priority_level_configuration_v1_beta2_checks
          kube_priority_level_configuration_v1_beta2_no_checks
      ∷ binding kube_replica_set_class kube_replica_set_checks kube_replica_set_no_checks
      ∷ binding kube_replica_set_list_class kube_replica_set_list_checks
          kube_replica_set_list_no_checks
      ∷ binding kube_replication_controller_class kube_replication_controller_checks
          kube_replication_controller_no_checks
      ∷ binding kube_replication_controller_list_class kube_replication_controller_list_checks
          kube_replication_controller_list_no_checks
      ∷ binding kube_resource_quota_class kube_resource_quota_checks kube_resource_quota_no_checks
      ∷ binding kube_resource_quota_list_class kube_resource_quota_list_checks
          kube_resource_quota_list_no_checks
      ∷ binding kube_role_class kube_role_checks kube_role_no_checks
      ∷ binding kube_role_binding_class kube_role_binding_checks kube_role_binding_no_checks
      ∷ binding kube_role_binding_list_class kube_role_binding_list_checks
          kube_role_binding_list_no_checks
      ∷ binding kube_role_list_class kube_role_list_checks kube_role_list_no_checks
      ∷ binding kube_runtime_class_class kube_runtime_class_checks kube_runtime_class_no_checks
      ∷ binding kube_runtime_class_list_class kube_runtime_class_list_checks
          kube_runtime_class_list_no_checks
      ∷ binding kube_scale_class kube_scale_checks kube_scale_no_checks
      ∷ binding kube_secret_class kube_secret_checks kube_secret_no_checks
      ∷ binding kube_secret_list_class kube_secret_list_checks kube_secret_list_no_checks
      ∷ binding kube_self_subject_access_review_class kube_self_subject_access_review_checks
          kube_self_subject_access_review_no_checks
      ∷ binding kube_self_subject_rules_review_class kube_self_subject_rules_review_checks
          kube_self_subject_rules_review_no_checks
      ∷ binding kube_service_class kube_service_checks kube_service_no_checks
      ∷ binding kube_service_account_class kube_service_account_checks
          kube_service_account_no_checks
      ∷ binding kube_service_account_list_class kube_service_account_list_checks
          kube_service_account_list_no_checks
      ∷ binding kube_service_list_class kube_service_list_checks kube_service_list_no_checks
      ∷ binding kube_stateful_set_class kube_stateful_set_checks kube_stateful_set_no_checks
      ∷ binding kube_stateful_set_list_class kube_stateful_set_list_checks
          kube_stateful_set_list_no_checks
      ∷ binding kube_status_class kube_status_checks kube_status_no_checks
      ∷ binding kube_storage_class_class kube_storage_class_checks kube_storage_class_no_checks
      ∷ binding kube_storage_class_list_class kube_storage_class_list_checks
          kube_storage_class_list_no_checks
      ∷ binding kube_storage_version_list_v1_alpha1_class kube_storage_version_list_v1_alpha1_checks
          kube_storage_version_list_v1_alpha1_no_checks
      ∷ binding kube_storage_version_v1_alpha1_class kube_storage_version_v1_alpha1_checks
          kube_storage_version_v1_alpha1_no_checks
      ∷ binding kube_subject_access_review_class kube_subject_access_review_checks
          kube_subject_access_review_no_checks
      ∷ binding kube_token_request_class kube_token_request_checks kube_token_request_no_checks
      ∷ binding kube_token_review_class kube_token_review_checks kube_token_review_no_checks
      ∷ binding kube_validating_webhook_configuration_class
          kube_validating_webhook_configuration_checks
          kube_validating_webhook_configuration_no_checks
      ∷ binding kube_validating_webhook_configuration_list_class
          kube_validating_webhook_configuration_list_checks
          kube_validating_webhook_configuration_list_no_checks
      ∷ binding kube_volume_attachment_class kube_volume_attachment_checks
          kube_volume_attachment_no_checks
      ∷ binding kube_volume_attachment_list_class kube_volume_attachment_list_checks
          kube_volume_attachment_list_no_checks
      ∷ []
