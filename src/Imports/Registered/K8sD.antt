-- ===== src/Imports/Registered/K8sD.antt =====
-- The init function of cdk8s/imports/k8s/k8s.go, from KubeSelfSubjectAccessReview to
-- RbdPersistentVolumeSource.
use learning_crossplane_e2e.Prelude.{List, [], ◌∷◌}
use learning_crossplane_e2e.Imports.Registry.{
  Registration, api_object_members, register_class, register_struct, value_members,
}

abbrev pub k8s_init_23 : List Registration
k8s_init_23 =
    register_class "k8s.KubeSelfSubjectAccessReview" "KubeSelfSubjectAccessReview"
      api_object_members "jsiiProxy_KubeSelfSubjectAccessReview"
    ∷ register_struct "k8s.KubeSelfSubjectAccessReviewProps" "KubeSelfSubjectAccessReviewProps"
    ∷ register_class "k8s.KubeSelfSubjectRulesReview" "KubeSelfSubjectRulesReview"
        api_object_members "jsiiProxy_KubeSelfSubjectRulesReview"
    ∷ register_struct "k8s.KubeSelfSubjectRulesReviewProps" "KubeSelfSubjectRulesReviewProps"
    ∷ register_class "k8s.KubeService" "KubeService" api_object_members "jsiiProxy_KubeService"
    ∷ register_class "k8s.KubeServiceAccount" "KubeServiceAccount" api_object_members
        "jsiiProxy_KubeServiceAccount"
    ∷ register_class "k8s.KubeServiceAccountList" "KubeServiceAccountList" api_object_members
        "jsiiProxy_KubeServiceAccountList"
    ∷ register_struct "k8s.KubeServiceAccountListProps" "KubeServiceAccountListProps"
    ∷ register_struct "k8s.KubeServiceAccountProps" "KubeServiceAccountProps"
    ∷ register_class "k8s.KubeServiceList" "KubeServiceList" api_object_members
        "jsiiProxy_KubeServiceList"
    ∷ []

abbrev pub k8s_init_24 : List Registration
k8s_init_24 =
    register_struct "k8s.KubeServiceListProps" "KubeServiceListProps"
    ∷ register_struct "k8s.KubeServiceProps" "KubeServiceProps"
    ∷ register_class "k8s.KubeStatefulSet" "KubeStatefulSet" api_object_members
        "jsiiProxy_KubeStatefulSet"
    ∷ register_class "k8s.KubeStatefulSetList" "KubeStatefulSetList" api_object_members
        "jsiiProxy_KubeStatefulSetList"
    ∷ register_struct "k8s.KubeStatefulSetListProps" "KubeStatefulSetListProps"
    ∷ register_struct "k8s.KubeStatefulSetProps" "KubeStatefulSetProps"
    ∷ register_class "k8s.KubeStatus" "KubeStatus" api_object_members "jsiiProxy_KubeStatus"
    ∷ register_struct "k8s.KubeStatusProps" "KubeStatusProps"
    ∷ register_class "k8s.KubeStorageClass" "KubeStorageClass" api_object_members
        "jsiiProxy_KubeStorageClass"
    ∷ register_class "k8s.KubeStorageClassList" "KubeStorageClassList" api_object_members
        "jsiiProxy_KubeStorageClassList"
    ∷ register_struct "k8s.KubeStorageClassListProps" "KubeStorageClassListProps"
    ∷ register_struct "k8s.KubeStorageClassProps" "KubeStorageClassProps"
    ∷ []

abbrev pub k8s_init_25 : List Registration
k8s_init_25 =
    register_class "k8s.KubeStorageVersionListV1Alpha1" "KubeStorageVersionListV1Alpha1"
      api_object_members "jsiiProxy_KubeStorageVersionListV1Alpha1"
    ∷ register_struct "k8s.KubeStorageVersionListV1Alpha1Props"
        "KubeStorageVersionListV1Alpha1Props"
    ∷ register_class "k8s.KubeStorageVersionV1Alpha1" "KubeStorageVersionV1Alpha1"
        api_object_members "jsiiProxy_KubeStorageVersionV1Alpha1"
    ∷ register_struct "k8s.KubeStorageVersionV1Alpha1Props" "KubeStorageVersionV1Alpha1Props"
    ∷ register_class "k8s.KubeSubjectAccessReview" "KubeSubjectAccessReview" api_object_members
        "jsiiProxy_KubeSubjectAccessReview"
    ∷ register_struct "k8s.KubeSubjectAccessReviewProps" "KubeSubjectAccessReviewProps"
    ∷ register_class "k8s.KubeTokenRequest" "KubeTokenRequest" api_object_members
        "jsiiProxy_KubeTokenRequest"
    ∷ register_struct "k8s.KubeTokenRequestProps" "KubeTokenRequestProps"
    ∷ register_class "k8s.KubeTokenReview" "KubeTokenReview" api_object_members
        "jsiiProxy_KubeTokenReview"
    ∷ register_struct "k8s.KubeTokenReviewProps" "KubeTokenReviewProps"
    ∷ []

abbrev pub k8s_init_26 : List Registration
k8s_init_26 =
    register_class "k8s.KubeValidatingWebhookConfiguration" "KubeValidatingWebhookConfiguration"
      api_object_members "jsiiProxy_KubeValidatingWebhookConfiguration"
    ∷ register_class "k8s.KubeValidatingWebhookConfigurationList"
        "KubeValidatingWebhookConfigurationList" api_object_members
        "jsiiProxy_KubeValidatingWebhookConfigurationList"
    ∷ register_struct "k8s.KubeValidatingWebhookConfigurationListProps"
        "KubeValidatingWebhookConfigurationListProps"
    ∷ register_struct "k8s.KubeValidatingWebhookConfigurationProps"
        "KubeValidatingWebhookConfigurationProps"
    ∷ register_class "k8s.KubeVolumeAttachment" "KubeVolumeAttachment" api_object_members
        "jsiiProxy_KubeVolumeAttachment"
    ∷ register_class "k8s.KubeVolumeAttachmentList" "KubeVolumeAttachmentList" api_object_members
        "jsiiProxy_KubeVolumeAttachmentList"
    ∷ register_struct "k8s.KubeVolumeAttachmentListProps" "KubeVolumeAttachmentListProps"
    ∷ register_struct "k8s.KubeVolumeAttachmentProps" "KubeVolumeAttachmentProps"
    ∷ register_struct "k8s.LabelSelector" "LabelSelector"
    ∷ register_struct "k8s.LabelSelectorRequirement" "LabelSelectorRequirement"
    ∷ register_struct "k8s.LeaseSpec" "LeaseSpec"
    ∷ register_struct "k8s.Lifecycle" "Lifecycle"
    ∷ register_struct "k8s.LifecycleHandler" "LifecycleHandler"
    ∷ register_struct "k8s.LimitRangeItem" "LimitRangeItem"
    ∷ register_struct "k8s.LimitRangeSpec" "LimitRangeSpec"
    ∷ register_struct "k8s.LimitResponseV1Beta1" "LimitResponseV1Beta1"
    ∷ register_struct "k8s.LimitResponseV1Beta2" "LimitResponseV1Beta2"
    ∷ register_struct "k8s.LimitedPriorityLevelConfigurationV1Beta1"
        "LimitedPriorityLevelConfigurationV1Beta1"
    ∷ register_struct "k8s.LimitedPriorityLevelConfigurationV1Beta2"
        "LimitedPriorityLevelConfigurationV1Beta2"
    ∷ []

abbrev pub k8s_init_27 : List Registration
k8s_init_27 =
    register_struct "k8s.ListMeta" "ListMeta"
    ∷ register_struct "k8s.LocalObjectReference" "LocalObjectReference"
    ∷ register_struct "k8s.LocalVolumeSource" "LocalVolumeSource"
    ∷ register_struct "k8s.ManagedFieldsEntry" "ManagedFieldsEntry"
    ∷ register_struct "k8s.MetricIdentifierV2" "MetricIdentifierV2"
    ∷ register_struct "k8s.MetricIdentifierV2Beta2" "MetricIdentifierV2Beta2"
    ∷ register_struct "k8s.MetricSpecV2" "MetricSpecV2"
    ∷ register_struct "k8s.MetricSpecV2Beta2" "MetricSpecV2Beta2"
    ∷ register_struct "k8s.MetricTargetV2" "MetricTargetV2"
    ∷ register_struct "k8s.MetricTargetV2Beta2" "MetricTargetV2Beta2"
    ∷ register_struct "k8s.MutatingWebhook" "MutatingWebhook"
    ∷ register_struct "k8s.NamespaceSpec" "NamespaceSpec"
    ∷ register_struct "k8s.NetworkPolicyEgressRule" "NetworkPolicyEgressRule"
    ∷ register_struct "k8s.NetworkPolicyIngressRule" "NetworkPolicyIngressRule"
    ∷ register_struct "k8s.NetworkPolicyPeer" "NetworkPolicyPeer"
    ∷ register_struct "k8s.NetworkPolicyPort" "NetworkPolicyPort"
    ∷ register_struct "k8s.NetworkPolicySpec" "NetworkPolicySpec"
    ∷ register_struct "k8s.NfsVolumeSource" "NfsVolumeSource"
    ∷ register_struct "k8s.NodeAffinity" "NodeAffinity"
    ∷ register_struct "k8s.NodeConfigSource" "NodeConfigSource"
    ∷ register_struct "k8s.NodeSelector" "NodeSelector"
    ∷ register_struct "k8s.NodeSelectorRequirement" "NodeSelectorRequirement"
    ∷ register_struct "k8s.NodeSelectorTerm" "NodeSelectorTerm"
    ∷ register_struct "k8s.NodeSpec" "NodeSpec"
    ∷ register_struct "k8s.NonResourceAttributes" "NonResourceAttributes"
    ∷ register_struct "k8s.NonResourcePolicyRuleV1Beta1" "NonResourcePolicyRuleV1Beta1"
    ∷ register_struct "k8s.NonResourcePolicyRuleV1Beta2" "NonResourcePolicyRuleV1Beta2"
    ∷ register_struct "k8s.ObjectFieldSelector" "ObjectFieldSelector"
    ∷ register_struct "k8s.ObjectMeta" "ObjectMeta"
    ∷ register_struct "k8s.ObjectMetricSourceV2" "ObjectMetricSourceV2"
    ∷ register_struct "k8s.ObjectMetricSourceV2Beta2" "ObjectMetricSourceV2Beta2"
    ∷ register_struct "k8s.ObjectReference" "ObjectReference"
    ∷ register_struct "k8s.Overhead" "Overhead"
    ∷ register_struct "k8s.OwnerReference" "OwnerReference"
    ∷ register_struct "k8s.PersistentVolumeClaimSpec" "PersistentVolumeClaimSpec"
    ∷ register_struct "k8s.PersistentVolumeClaimTemplate" "PersistentVolumeClaimTemplate"
    ∷ register_struct "k8s.PersistentVolumeClaimVolumeSource" "PersistentVolumeClaimVolumeSource"
    ∷ []

abbrev pub k8s_init_28 : List Registration
k8s_init_28 =
    register_struct "k8s.PersistentVolumeSpec" "PersistentVolumeSpec"
    ∷ register_struct "k8s.PhotonPersistentDiskVolumeSource" "PhotonPersistentDiskVolumeSource"
    ∷ register_struct "k8s.PodAffinity" "PodAffinity"
    ∷ register_struct "k8s.PodAffinityTerm" "PodAffinityTerm"
    ∷ register_struct "k8s.PodAntiAffinity" "PodAntiAffinity"
    ∷ register_struct "k8s.PodDisruptionBudgetSpec" "PodDisruptionBudgetSpec"
    ∷ register_struct "k8s.PodDnsConfig" "PodDnsConfig"
    ∷ register_struct "k8s.PodDnsConfigOption" "PodDnsConfigOption"
    ∷ register_struct "k8s.PodFailurePolicy" "PodFailurePolicy"
    ∷ register_struct "k8s.PodFailurePolicyOnExitCodesRequirement"
        "PodFailurePolicyOnExitCodesRequirement"
    ∷ register_struct "k8s.PodFailurePolicyOnPodConditionsPattern"
        "PodFailurePolicyOnPodConditionsPattern"
    ∷ register_struct "k8s.PodFailurePolicyRule" "PodFailurePolicyRule"
    ∷ register_struct "k8s.PodOs" "PodOs"
    ∷ register_struct "k8s.PodReadinessGate" "PodReadinessGate"
    ∷ register_struct "k8s.PodSecurityContext" "PodSecurityContext"
    ∷ register_struct "k8s.PodSpec" "PodSpec"
    ∷ register_struct "k8s.PodTemplateSpec" "PodTemplateSpec"
    ∷ register_struct "k8s.PodsMetricSourceV2" "PodsMetricSourceV2"
    ∷ register_struct "k8s.PodsMetricSourceV2Beta2" "PodsMetricSourceV2Beta2"
    ∷ register_struct "k8s.PolicyRule" "PolicyRule"
    ∷ register_struct "k8s.PolicyRulesWithSubjectsV1Beta1" "PolicyRulesWithSubjectsV1Beta1"
    ∷ register_struct "k8s.PolicyRulesWithSubjectsV1Beta2" "PolicyRulesWithSubjectsV1Beta2"
    ∷ register_struct "k8s.PortworxVolumeSource" "PortworxVolumeSource"
    ∷ register_struct "k8s.Preconditions" "Preconditions"
    ∷ register_struct "k8s.PreferredSchedulingTerm" "PreferredSchedulingTerm"
    ∷ register_struct "k8s.PriorityLevelConfigurationReferenceV1Beta1"
        "PriorityLevelConfigurationReferenceV1Beta1"
    ∷ register_struct "k8s.PriorityLevelConfigurationReferenceV1Beta2"
        "PriorityLevelConfigurationReferenceV1Beta2"
    ∷ register_struct "k8s.PriorityLevelConfigurationSpecV1Beta1"
        "PriorityLevelConfigurationSpecV1Beta1"
    ∷ register_struct "k8s.PriorityLevelConfigurationSpecV1Beta2"
        "PriorityLevelConfigurationSpecV1Beta2"
    ∷ register_struct "k8s.Probe" "Probe"
    ∷ register_struct "k8s.ProjectedVolumeSource" "ProjectedVolumeSource"
    ∷ register_class "k8s.Quantity" "Quantity" value_members "jsiiProxy_Quantity"
    ∷ register_struct "k8s.QueuingConfigurationV1Beta1" "QueuingConfigurationV1Beta1"
    ∷ register_struct "k8s.QueuingConfigurationV1Beta2" "QueuingConfigurationV1Beta2"
    ∷ register_struct "k8s.QuobyteVolumeSource" "QuobyteVolumeSource"
    ∷ register_struct "k8s.RbdPersistentVolumeSource" "RbdPersistentVolumeSource"
    ∷ []
