-- ===== src/Imports/K8s/Admission.antt =====
-- The classes of the API groups flowcontrol, admissionregistration and certificates, in
-- cdk8s/imports/k8s, with the files of their checks.
use learning_crossplane_e2e.Prelude.{String, Option}
use learning_crossplane_e2e.Imports.Template.{
  Checks, ApiClass, optional_props_checks, required_props_checks, nil_checks, api_class,
}
use learning_crossplane_e2e.Imports.Initialize.{k8s_initialize}

module _ {P X : Type 0} where
  abbrev pub kube_flow_schema_list_v1_beta1_class : Checks P X → ApiClass P X
  kube_flow_schema_list_v1_beta1_class =
      api_class k8s_initialize "k8s.KubeFlowSchemaListV1Beta1" "KubeFlowSchemaListV1Beta1"

  abbrev pub kube_flow_schema_list_v1_beta1_checks : (Option P → Option String) → Checks P X
  kube_flow_schema_list_v1_beta1_checks = required_props_checks

  abbrev pub kube_flow_schema_list_v1_beta1_no_checks : Checks P X
  kube_flow_schema_list_v1_beta1_no_checks = nil_checks

  abbrev pub kube_flow_schema_list_v1_beta2_class : Checks P X → ApiClass P X
  kube_flow_schema_list_v1_beta2_class =
      api_class k8s_initialize "k8s.KubeFlowSchemaListV1Beta2" "KubeFlowSchemaListV1Beta2"

  abbrev pub kube_flow_schema_list_v1_beta2_checks : (Option P → Option String) → Checks P X
  kube_flow_schema_list_v1_beta2_checks = required_props_checks

  abbrev pub kube_flow_schema_list_v1_beta2_no_checks : Checks P X
  kube_flow_schema_list_v1_beta2_no_checks = nil_checks

  abbrev pub kube_flow_schema_v1_beta1_class : Checks P X → ApiClass P X
  kube_flow_schema_v1_beta1_class =
      api_class k8s_initialize "k8s.KubeFlowSchemaV1Beta1" "KubeFlowSchemaV1Beta1"

  abbrev pub kube_flow_schema_v1_beta1_checks : (Option P → Option String) → Checks P X
  kube_flow_schema_v1_beta1_checks = optional_props_checks

  abbrev pub kube_flow_schema_v1_beta1_no_checks : Checks P X
  kube_flow_schema_v1_beta1_no_checks = nil_checks

  abbrev pub kube_flow_schema_v1_beta2_class : Checks P X → ApiClass P X
  kube_flow_schema_v1_beta2_class =
      api_class k8s_initialize "k8s.KubeFlowSchemaV1Beta2" "KubeFlowSchemaV1Beta2"

  abbrev pub kube_flow_schema_v1_beta2_checks : (Option P → Option String) → Checks P X
  kube_flow_schema_v1_beta2_checks = optional_props_checks

  abbrev pub kube_flow_schema_v1_beta2_no_checks : Checks P X
  kube_flow_schema_v1_beta2_no_checks = nil_checks

  abbrev pub kube_priority_level_configuration_list_v1_beta1_class : Checks P X → ApiClass P X
  kube_priority_level_configuration_list_v1_beta1_class =
      api_class k8s_initialize "k8s.KubePriorityLevelConfigurationListV1Beta1"
        "KubePriorityLevelConfigurationListV1Beta1"

  abbrev pub kube_priority_level_configuration_list_v1_beta1_checks :
      (Option P → Option String) → Checks P X
  kube_priority_level_configuration_list_v1_beta1_checks = required_props_checks

  abbrev pub kube_priority_level_configuration_list_v1_beta1_no_checks : Checks P X
  kube_priority_level_configuration_list_v1_beta1_no_checks = nil_checks

  abbrev pub kube_priority_level_configuration_list_v1_beta2_class : Checks P X → ApiClass P X
  kube_priority_level_configuration_list_v1_beta2_class =
      api_class k8s_initialize "k8s.KubePriorityLevelConfigurationListV1Beta2"
        "KubePriorityLevelConfigurationListV1Beta2"

  abbrev pub kube_priority_level_configuration_list_v1_beta2_checks :
      (Option P → Option String) → Checks P X
  kube_priority_level_configuration_list_v1_beta2_checks = required_props_checks

  abbrev pub kube_priority_level_configuration_list_v1_beta2_no_checks : Checks P X
  kube_priority_level_configuration_list_v1_beta2_no_checks = nil_checks

  abbrev pub kube_priority_level_configuration_v1_beta1_class : Checks P X → ApiClass P X
  kube_priority_level_configuration_v1_beta1_class =
      api_class k8s_initialize "k8s.KubePriorityLevelConfigurationV1Beta1"
        "KubePriorityLevelConfigurationV1Beta1"

  abbrev pub kube_priority_level_configuration_v1_beta1_checks :
      (Option P → Option String) → Checks P X
  kube_priority_level_configuration_v1_beta1_checks = optional_props_checks

  abbrev pub kube_priority_level_configuration_v1_beta1_no_checks : Checks P X
  kube_priority_level_configuration_v1_beta1_no_checks = nil_checks

  abbrev pub kube_priority_level_configuration_v1_beta2_class : Checks P X → ApiClass P X
  kube_priority_level_configuration_v1_beta2_class =
      api_class k8s_initialize "k8s.KubePriorityLevelConfigurationV1Beta2"
        "KubePriorityLevelConfigurationV1Beta2"

  abbrev pub kube_priority_level_configuration_v1_beta2_checks :
      (Option P → Option String) → Checks P X
  kube_priority_level_configuration_v1_beta2_checks = optional_props_checks

  abbrev pub kube_priority_level_configuration_v1_beta2_no_checks : Checks P X
  kube_priority_level_configuration_v1_beta2_no_checks = nil_checks

  abbrev pub kube_mutating_webhook_configuration_class : Checks P X → ApiClass P X
  kube_mutating_webhook_configuration_class =
      api_class k8s_initialize "k8s.KubeMutatingWebhookConfiguration"
        "KubeMutatingWebhookConfiguration"

  abbrev pub kube_mutating_webhook_configuration_checks : (Option P → Option String) → Checks P X
  kube_mutating_webhook_configuration_checks = optional_props_checks

  abbrev pub kube_mutating_webhook_configuration_no_checks : Checks P X
  kube_mutating_webhook_configuration_no_checks = nil_checks

  abbrev pub kube_mutating_webhook_configuration_list_class : Checks P X → ApiClass P X
  kube_mutating_webhook_configuration_list_class =
      api_class k8s_initialize "k8s.KubeMutatingWebhookConfigurationList"
        "KubeMutatingWebhookConfigurationList"

  abbrev pub kube_mutating_webhook_configuration_list_checks :
      (Option P → Option String) → Checks P X
  kube_mutating_webhook_configuration_list_checks = required_props_checks

  abbrev pub kube_mutating_webhook_configuration_list_no_checks : Checks P X
  kube_mutating_webhook_configuration_list_no_checks = nil_checks

  abbrev pub kube_validating_webhook_configuration_class : Checks P X → ApiClass P X
  kube_validating_webhook_configuration_class =
      api_class k8s_initialize "k8s.KubeValidatingWebhookConfiguration"
        "KubeValidatingWebhookConfiguration"

  abbrev pub kube_validating_webhook_configuration_checks : (Option P → Option String) → Checks P X
  kube_validating_webhook_configuration_checks = optional_props_checks

  abbrev pub kube_validating_webhook_configuration_no_checks : Checks P X
  kube_validating_webhook_configuration_no_checks = nil_checks

  abbrev pub kube_validating_webhook_configuration_list_class : Checks P X → ApiClass P X
  kube_validating_webhook_configuration_list_class =
      api_class k8s_initialize "k8s.KubeValidatingWebhookConfigurationList"
        "KubeValidatingWebhookConfigurationList"

  abbrev pub kube_validating_webhook_configuration_list_checks :
      (Option P → Option String) → Checks P X
  kube_validating_webhook_configuration_list_checks = required_props_checks

  abbrev pub kube_validating_webhook_configuration_list_no_checks : Checks P X
  kube_validating_webhook_configuration_list_no_checks = nil_checks

  abbrev pub kube_certificate_signing_request_class : Checks P X → ApiClass P X
  kube_certificate_signing_request_class =
      api_class k8s_initialize "k8s.KubeCertificateSigningRequest" "KubeCertificateSigningRequest"

  abbrev pub kube_certificate_signing_request_checks : (Option P → Option String) → Checks P X
  kube_certificate_signing_request_checks = required_props_checks

  abbrev pub kube_certificate_signing_request_no_checks : Checks P X
  kube_certificate_signing_request_no_checks = nil_checks

  abbrev pub kube_certificate_signing_request_list_class : Checks P X → ApiClass P X
  kube_certificate_signing_request_list_class =
      api_class k8s_initialize "k8s.KubeCertificateSigningRequestList"
        "KubeCertificateSigningRequestList"

  abbrev pub kube_certificate_signing_request_list_checks : (Option P → Option String) → Checks P X
  kube_certificate_signing_request_list_checks = required_props_checks

  abbrev pub kube_certificate_signing_request_list_no_checks : Checks P X
  kube_certificate_signing_request_list_no_checks = nil_checks
