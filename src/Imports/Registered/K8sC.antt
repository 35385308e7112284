-- ===== src/Imports/Registered/K8sC.antt =====
-- The init function of cdk8s/imports/k8s/k8s.go, from KubeIngressList to KubeSecretProps.
use learning_crossplane_e2e.Prelude.{List, [], ◌∷◌}
use learning_crossplane_e2e.Imports.Registry.{
  Registration, api_object_members, register_class, register_struct,
}

abbrev pub k8s_init_14 : List Registration
k8s_init_14 =
    register_class "k8s.KubeIngressList" "KubeIngressList" api_object_members
      "jsiiProxy_KubeIngressList"
    ∷ register_struct "k8s.KubeIngressListProps" "KubeIngressListProps"
    ∷ register_struct "k8s.KubeIngressProps" "KubeIngressProps"
    ∷ register_class "k8s.KubeJob" "KubeJob" api_object_members "jsiiProxy_KubeJob"
    ∷ register_class "k8s.KubeJobList" "KubeJobList" api_object_members "jsiiProxy_KubeJobList"
    ∷ register_struct "k8s.KubeJobListProps" "KubeJobListProps"
    ∷ register_struct "k8s.KubeJobProps" "KubeJobProps"
    ∷ register_class "k8s.KubeLease" "KubeLease" api_object_members "jsiiProxy_KubeLease"
    ∷ register_class "k8s.KubeLeaseList" "KubeLeaseList" api_object_members
        "jsiiProxy_KubeLeaseList"
    ∷ register_struct "k8s.KubeLeaseListProps" "KubeLeaseListProps"
    ∷ register_struct "k8s.KubeLeaseProps" "KubeLeaseProps"
    ∷ []

abbrev pub k8s_init_15 : List Registration
k8s_init_15 =
    register_class "k8s.KubeLimitRange" "KubeLimitRange" api_object_members
      "jsiiProxy_KubeLimitRange"
    ∷ register_class "k8s.KubeLimitRangeList" "KubeLimitRangeList" api_object_members
        "jsiiProxy_KubeLimitRangeList"
    ∷ register_struct "k8s.KubeLimitRangeListProps" "KubeLimitRangeListProps"
    ∷ register_struct "k8s.KubeLimitRangeProps" "KubeLimitRangeProps"
    ∷ register_class "k8s.KubeLocalSubjectAccessReview" "KubeLocalSubjectAccessReview"
        api_object_members "jsiiProxy_KubeLocalSubjectAccessReview"
    ∷ register_struct "k8s.KubeLocalSubjectAccessReviewProps" "KubeLocalSubjectAccessReviewProps"
    ∷ register_class "k8s.KubeMutatingWebhookConfiguration" "KubeMutatingWebhookConfiguration"
        api_object_members "jsiiProxy_KubeMutatingWebhookConfiguration"
    ∷ register_class "k8s.KubeMutatingWebhookConfigurationList"
        "KubeMutatingWebhookConfigurationList" api_object_members
        "jsiiProxy_KubeMutatingWebhookConfigurationList"
    ∷ register_struct "k8s.KubeMutatingWebhookConfigurationListProps"
        "KubeMutatingWebhookConfigurationListProps"
    ∷ register_struct "k8s.KubeMutatingWebhookConfigurationProps"
        "KubeMutatingWebhookConfigurationProps"
    ∷ []

abbrev pub k8s_init_16 : List Registration
k8s_init_16 =
    register_class "k8s.KubeNamespace" "KubeNamespace" api_object_members "jsiiProxy_KubeNamespace"
    ∷ register_class "k8s.KubeNamespaceList" "KubeNamespaceList" api_object_members
        "jsiiProxy_KubeNamespaceList"
    ∷ register_struct "k8s.KubeNamespaceListProps" "KubeNamespaceListProps"
    ∷ register_struct "k8s.KubeNamespaceProps" "KubeNamespaceProps"
    ∷ register_class "k8s.KubeNetworkPolicy" "KubeNetworkPolicy" api_object_members
        "jsiiProxy_KubeNetworkPolicy"
    ∷ register_class "k8s.KubeNetworkPolicyList" "KubeNetworkPolicyList" api_object_members
        "jsiiProxy_KubeNetworkPolicyList"
    ∷ register_struct "k8s.KubeNetworkPolicyListProps" "KubeNetworkPolicyListProps"
    ∷ register_struct "k8s.KubeNetworkPolicyProps" "KubeNetworkPolicyProps"
    ∷ register_class "k8s.KubeNode" "KubeNode" api_object_members "jsiiProxy_KubeNode"
    ∷ register_class "k8s.KubeNodeList" "KubeNodeList" api_object_members "jsiiProxy_KubeNodeList"
    ∷ []

abbrev pub k8s_init_17 : List Registration
k8s_init_17 =
    register_struct "k8s.KubeNodeListProps" "KubeNodeListProps"
    ∷ register_struct "k8s.KubeNodeProps" "KubeNodeProps"
    ∷ register_class "k8s.KubePersistentVolume" "KubePersistentVolume" api_object_members
        "jsiiProxy_KubePersistentVolume"
    ∷ register_class "k8s.KubePersistentVolumeClaim" "KubePersistentVolumeClaim" api_object_members
        "jsiiProxy_KubePersistentVolumeClaim"
    ∷ register_class "k8s.KubePersistentVolumeClaimList" "KubePersistentVolumeClaimList"
        api_object_members "jsiiProxy_KubePersistentVolumeClaimList"
    ∷ register_struct "k8s.KubePersistentVolumeClaimListProps" "KubePersistentVolumeClaimListProps"
    ∷ register_struct "k8s.KubePersistentVolumeClaimProps" "KubePersistentVolumeClaimProps"
    ∷ register_class "k8s.KubePersistentVolumeList" "KubePersistentVolumeList" api_object_members
        "jsiiProxy_KubePersistentVolumeList"
    ∷ register_struct "k8s.KubePersistentVolumeListProps" "KubePersistentVolumeListProps"
    ∷ register_struct "k8s.KubePersistentVolumeProps" "KubePersistentVolumeProps"
    ∷ register_class "k8s.KubePod" "KubePod" api_object_members "jsiiProxy_KubePod"
    ∷ []

abbrev pub k8s_init_18 : List Registration
k8s_init_18 =
    register_class "k8s.KubePodDisruptionBudget" "KubePodDisruptionBudget" api_object_members
      "jsiiProxy_KubePodDisruptionBudget"
    ∷ register_class "k8s.KubePodDisruptionBudgetList" "KubePodDisruptionBudgetList"
        api_object_members "jsiiProxy_KubePodDisruptionBudgetList"
    ∷ register_struct "k8s.KubePodDisruptionBudgetListProps" "KubePodDisruptionBudgetListProps"
    ∷ register_struct "k8s.KubePodDisruptionBudgetProps" "KubePodDisruptionBudgetProps"
    ∷ register_class "k8s.KubePodList" "KubePodList" api_object_members "jsiiProxy_KubePodList"
    ∷ register_struct "k8s.KubePodListProps" "KubePodListProps"
    ∷ register_struct "k8s.KubePodProps" "KubePodProps"
    ∷ register_class "k8s.KubePodTemplate" "KubePodTemplate" api_object_members
        "jsiiProxy_KubePodTemplate"
    ∷ register_class "k8s.KubePodTemplateList" "KubePodTemplateList" api_object_members
        "jsiiProxy_KubePodTemplateList"
    ∷ register_struct "k8s.KubePodTemplateListProps" "KubePodTemplateListProps"
    ∷ register_struct "k8s.KubePodTemplateProps" "KubePodTemplateProps"
    ∷ []

abbrev pub k8s_init_19 : List Registration
k8s_init_19 =
    register_class "k8s.KubePriorityClass" "KubePriorityClass" api_object_members
      "jsiiProxy_KubePriorityClass"
    ∷ register_class "k8s.KubePriorityClassList" "KubePriorityClassList" api_object_members
        "jsiiProxy_KubePriorityClassList"
    ∷ register_struct "k8s.KubePriorityClassListProps" "KubePriorityClassListProps"
    ∷ register_struct "k8s.KubePriorityClassProps" "KubePriorityClassProps"
    ∷ register_class "k8s.KubePriorityLevelConfigurationListV1Beta1"
        "KubePriorityLevelConfigurationListV1Beta1" api_object_members
        "jsiiProxy_KubePriorityLevelConfigurationListV1Beta1"
    ∷ register_struct "k8s.KubePriorityLevelConfigurationListV1Beta1Props"
        "KubePriorityLevelConfigurationListV1Beta1Props"
    ∷ register_class "k8s.KubePriorityLevelConfigurationListV1Beta2"
        "KubePriorityLevelConfigurationListV1Beta2" api_object_members
        "jsiiProxy_KubePriorityLevelConfigurationListV1Beta2"
    ∷ register_struct "k8s.KubePriorityLevelConfigurationListV1Beta2Props"
        "KubePriorityLevelConfigurationListV1Beta2Props"
    ∷ register_class "k8s.KubePriorityLevelConfigurationV1Beta1"
        "KubePriorityLevelConfigurationV1Beta1" api_object_members
        "jsiiProxy_KubePriorityLevelConfigurationV1Beta1"
    ∷ register_struct "k8s.KubePriorityLevelConfigurationV1Beta1Props"
        "KubePriorityLevelConfigurationV1Beta1Props"
    ∷ []

abbrev pub k8s_init_20 : List Registration
k8s_init_20 =
    register_class "k8s.KubePriorityLevelConfigurationV1Beta2"
      "KubePriorityLevelConfigurationV1Beta2" api_object_members
      "jsiiProxy_KubePriorityLevelConfigurationV1Beta2"
    ∷ register_struct "k8s.KubePriorityLevelConfigurationV1Beta2Props"
        "KubePriorityLevelConfigurationV1Beta2Props"
    ∷ register_class "k8s.KubeReplicaSet" "KubeReplicaSet" api_object_members
        "jsiiProxy_KubeReplicaSet"
    ∷ register_class "k8s.KubeReplicaSetList" "KubeReplicaSetList" api_object_members
        "jsiiProxy_KubeReplicaSetList"
    ∷ register_struct "k8s.KubeReplicaSetListProps" "KubeReplicaSetListProps"
    ∷ register_struct "k8s.KubeReplicaSetProps" "KubeReplicaSetProps"
    ∷ register_class "k8s.KubeReplicationController" "KubeReplicationController" api_object_members
        "jsiiProxy_KubeReplicationController"
    ∷ register_class "k8s.KubeReplicationControllerList" "KubeReplicationControllerList"
        api_object_members "jsiiProxy_KubeReplicationControllerList"
    ∷ register_struct "k8s.KubeReplicationControllerListProps" "KubeReplicationControllerListProps"
    ∷ register_struct "k8s.KubeReplicationControllerProps" "KubeReplicationControllerProps"
    ∷ []

abbrev pub k8s_init_21 : List Registration
k8s_init_21 =
    register_class "k8s.KubeResourceQuota" "KubeResourceQuota" api_object_members
      "jsiiProxy_KubeResourceQuota"
    ∷ register_class "k8s.KubeResourceQuotaList" "KubeResourceQuotaList" api_object_members
        "jsiiProxy_KubeResourceQuotaList"
    ∷ register_struct "k8s.KubeResourceQuotaListProps" "KubeResourceQuotaListProps"
    ∷ register_struct "k8s.KubeResourceQuotaProps" "KubeResourceQuotaProps"
    ∷ register_class "k8s.KubeRole" "KubeRole" api_object_members "jsiiProxy_KubeRole"
    ∷ register_class "k8s.KubeRoleBinding" "KubeRoleBinding" api_object_members
        "jsiiProxy_KubeRoleBinding"
    ∷ register_class "k8s.KubeRoleBindingList" "KubeRoleBindingList" api_object_members
        "jsiiProxy_KubeRoleBindingList"
    ∷ register_struct "k8s.KubeRoleBindingListProps" "KubeRoleBindingListProps"
    ∷ register_struct "k8s.KubeRoleBindingProps" "KubeRoleBindingProps"
    ∷ register_class "k8s.KubeRoleList" "KubeRoleList" api_object_members "jsiiProxy_KubeRoleList"
    ∷ []

abbrev pub k8s_init_22 : List Registration
k8s_init_22 =
    register_struct "k8s.KubeRoleListProps" "KubeRoleListProps"
    ∷ register_struct "k8s.KubeRoleProps" "KubeRoleProps"
    ∷ register_class "k8s.KubeRuntimeClass" "KubeRuntimeClass" api_object_members
        "jsiiProxy_KubeRuntimeClass"
    ∷ register_class "k8s.KubeRuntimeClassList" "KubeRuntimeClassList" api_object_members
        "jsiiProxy_KubeRuntimeClassList"
    ∷ register_struct "k8s.KubeRuntimeClassListProps" "KubeRuntimeClassListProps"
    ∷ register_struct "k8s.KubeRuntimeClassProps" "KubeRuntimeClassProps"
    ∷ register_class "k8s.KubeScale" "KubeScale" api_object_members "jsiiProxy_KubeScale"
    ∷ register_struct "k8s.KubeScaleProps" "KubeScaleProps"
    ∷ register_class "k8s.KubeSecret" "KubeSecret" api_object_members "jsiiProxy_KubeSecret"
    ∷ register_class "k8s.KubeSecretList" "KubeSecretList" api_object_members
        "jsiiProxy_KubeSecretList"
    ∷ register_struct "k8s.KubeSecretListProps" "KubeSecretListProps"
    ∷ register_struct "k8s.KubeSecretProps" "KubeSecretProps"
    ∷ []
