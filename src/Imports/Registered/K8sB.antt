-- ===== src/Imports/Registered/K8sB.antt =====
-- The init function of cdk8s/imports/k8s/k8s.go, from KubeClusterRoleList to
-- KubeIngressClassProps.
use learning_crossplane_e2e.Prelude.{List, [], ◌∷◌}
use learning_crossplane_e2e.Imports.Registry.{
  Registration, api_object_members, register_class, register_struct,
}

abbrev pub k8s_init_6 : List Registration
k8s_init_6 =
    register_class "k8s.KubeClusterRoleList" "KubeClusterRoleList" api_object_members
      "jsiiProxy_KubeClusterRoleList"
    ∷ register_struct "k8s.KubeClusterRoleListProps" "KubeClusterRoleListProps"
    ∷ register_struct "k8s.KubeClusterRoleProps" "KubeClusterRoleProps"
    ∷ register_class "k8s.KubeComponentStatus" "KubeComponentStatus" api_object_members
        "jsiiProxy_KubeComponentStatus"
    ∷ register_class "k8s.KubeComponentStatusList" "KubeComponentStatusList" api_object_members
        "jsiiProxy_KubeComponentStatusList"
    ∷ register_struct "k8s.KubeComponentStatusListProps" "KubeComponentStatusListProps"
    ∷ register_struct "k8s.KubeComponentStatusProps" "KubeComponentStatusProps"
    ∷ register_class "k8s.KubeConfigMap" "KubeConfigMap" api_object_members
        "jsiiProxy_KubeConfigMap"
    ∷ register_class "k8s.KubeConfigMapList" "KubeConfigMapList" api_object_members
        "jsiiProxy_KubeConfigMapList"
    ∷ register_struct "k8s.KubeConfigMapListProps" "KubeConfigMapListProps"
    ∷ register_struct "k8s.KubeConfigMapProps" "KubeConfigMapProps"
    ∷ []

abbrev pub k8s_init_7 : List Registration
k8s_init_7 =
    register_class "k8s.KubeControllerRevision" "KubeControllerRevision" api_object_members
      "jsiiProxy_KubeControllerRevision"
    ∷ register_class "k8s.KubeControllerRevisionList" "KubeControllerRevisionList"
        api_object_members "jsiiProxy_KubeControllerRevisionList"
    ∷ register_struct "k8s.KubeControllerRevisionListProps" "KubeControllerRevisionListProps"
    ∷ register_struct "k8s.KubeControllerRevisionProps" "KubeControllerRevisionProps"
    ∷ register_class "k8s.KubeCronJob" "KubeCronJob" api_object_members "jsiiProxy_KubeCronJob"
    ∷ register_class "k8s.KubeCronJobList" "KubeCronJobList" api_object_members
        "jsiiProxy_KubeCronJobList"
    ∷ register_struct "k8s.KubeCronJobListProps" "KubeCronJobListProps"
    ∷ register_struct "k8s.KubeCronJobProps" "KubeCronJobProps"
    ∷ register_class "k8s.KubeCsiDriver" "KubeCsiDriver" api_object_members
        "jsiiProxy_KubeCsiDriver"
    ∷ register_class "k8s.KubeCsiDriverList" "KubeCsiDriverList" api_object_members
        "jsiiProxy_KubeCsiDriverList"
    ∷ []

abbrev pub k8s_init_8 : List Registration
k8s_init_8 =
    register_struct "k8s.KubeCsiDriverListProps" "KubeCsiDriverListProps"
    ∷ register_struct "k8s.KubeCsiDriverProps" "KubeCsiDriverProps"
    ∷ register_class "k8s.KubeCsiNode" "KubeCsiNode" api_object_members "jsiiProxy_KubeCsiNode"
    ∷ register_class "k8s.KubeCsiNodeList" "KubeCsiNodeList" api_object_members
        "jsiiProxy_KubeCsiNodeList"
    ∷ register_struct "k8s.KubeCsiNodeListProps" "KubeCsiNodeListProps"
    ∷ register_struct "k8s.KubeCsiNodeProps" "KubeCsiNodeProps"
    ∷ register_class "k8s.KubeCsiStorageCapacity" "KubeCsiStorageCapacity" api_object_members
        "jsiiProxy_KubeCsiStorageCapacity"
    ∷ register_class "k8s.KubeCsiStorageCapacityList" "KubeCsiStorageCapacityList"
        api_object_members "jsiiProxy_KubeCsiStorageCapacityList"
    ∷ register_struct "k8s.KubeCsiStorageCapacityListProps" "KubeCsiStorageCapacityListProps"
    ∷ register_class "k8s.KubeCsiStorageCapacityListV1Beta1" "KubeCsiStorageCapacityListV1Beta1"
        api_object_members "jsiiProxy_KubeCsiStorageCapacityListV1Beta1"
    ∷ register_struct "k8s.KubeCsiStorageCapacityListV1Beta1Props"
        "KubeCsiStorageCapacityListV1Beta1Props"
    ∷ register_struct "k8s.KubeCsiStorageCapacityProps" "KubeCsiStorageCapacityProps"
    ∷ []

abbrev pub k8s_init_9 : List Registration
k8s_init_9 =
    register_class "k8s.KubeCsiStorageCapacityV1Beta1" "KubeCsiStorageCapacityV1Beta1"
      api_object_members "jsiiProxy_KubeCsiStorageCapacityV1Beta1"
    ∷ register_struct "k8s.KubeCsiStorageCapacityV1Beta1Props" "KubeCsiStorageCapacityV1Beta1Props"
    ∷ register_class "k8s.KubeCustomResourceDefinition" "KubeCustomResourceDefinition"
        api_object_members "jsiiProxy_KubeCustomResourceDefinition"
    ∷ register_class "k8s.KubeCustomResourceDefinitionList" "KubeCustomResourceDefinitionList"
        api_object_members "jsiiProxy_KubeCustomResourceDefinitionList"
    ∷ register_struct "k8s.KubeCustomResourceDefinitionListProps"
        "KubeCustomResourceDefinitionListProps"
    ∷ register_struct "k8s.KubeCustomResourceDefinitionProps" "KubeCustomResourceDefinitionProps"
    ∷ register_class "k8s.KubeDaemonSet" "KubeDaemonSet" api_object_members
        "jsiiProxy_KubeDaemonSet"
    ∷ register_class "k8s.KubeDaemonSetList" "KubeDaemonSetList" api_object_members
        "jsiiProxy_KubeDaemonSetList"
    ∷ register_struct "k8s.KubeDaemonSetListProps" "KubeDaemonSetListProps"
    ∷ register_struct "k8s.KubeDaemonSetProps" "KubeDaemonSetProps"
    ∷ []

abbrev pub k8s_init_10 : List Registration
k8s_init_10 =
    register_class "k8s.KubeDeployment" "KubeDeployment" api_object_members
      "jsiiProxy_KubeDeployment"
    ∷ register_class "k8s.KubeDeploymentList" "KubeDeploymentList" api_object_members
        "jsiiProxy_KubeDeploymentList"
    ∷ register_struct "k8s.KubeDeploymentListProps" "KubeDeploymentListProps"
    ∷ register_struct "k8s.KubeDeploymentProps" "KubeDeploymentProps"
    ∷ register_class "k8s.KubeEndpointSlice" "KubeEndpointSlice" api_object_members
        "jsiiProxy_KubeEndpointSlice"
    ∷ register_class "k8s.KubeEndpointSliceList" "KubeEndpointSliceList" api_object_members
        "jsiiProxy_KubeEndpointSliceList"
    ∷ register_struct "k8s.KubeEndpointSliceListProps" "KubeEndpointSliceListProps"
    ∷ register_struct "k8s.KubeEndpointSliceProps" "KubeEndpointSliceProps"
    ∷ register_class "k8s.KubeEndpoints" "KubeEndpoints" api_object_members
        "jsiiProxy_KubeEndpoints"
    ∷ register_class "k8s.KubeEndpointsList" "KubeEndpointsList" api_object_members
        "jsiiProxy_KubeEndpointsList"
    ∷ []

abbrev pub k8s_init_11 : List Registration
k8s_init_11 =
    register_struct "k8s.KubeEndpointsListProps" "KubeEndpointsListProps"
    ∷ register_struct "k8s.KubeEndpointsProps" "KubeEndpointsProps"
    ∷ register_class "k8s.KubeEvent" "KubeEvent" api_object_members "jsiiProxy_KubeEvent"
    ∷ register_class "k8s.KubeEventList" "KubeEventList" api_object_members
        "jsiiProxy_KubeEventList"
    ∷ register_struct "k8s.KubeEventListProps" "KubeEventListProps"
    ∷ register_struct "k8s.KubeEventProps" "KubeEventProps"
    ∷ register_class "k8s.KubeEviction" "KubeEviction" api_object_members "jsiiProxy_KubeEviction"
    ∷ register_struct "k8s.KubeEvictionProps" "KubeEvictionProps"
    ∷ register_class "k8s.KubeFlowSchemaListV1Beta1" "KubeFlowSchemaListV1Beta1" api_object_members
        "jsiiProxy_KubeFlowSchemaListV1Beta1"
    ∷ register_struct "k8s.KubeFlowSchemaListV1Beta1Props" "KubeFlowSchemaListV1Beta1Props"
    ∷ register_class "k8s.KubeFlowSchemaListV1Beta2" "KubeFlowSchemaListV1Beta2" api_object_members
        "jsiiProxy_KubeFlowSchemaListV1Beta2"
    ∷ register_struct "k8s.KubeFlowSchemaListV1Beta2Props" "KubeFlowSchemaListV1Beta2Props"
    ∷ []

abbrev pub k8s_init_12 : List Registration
k8s_init_12 =
    register_class "k8s.KubeFlowSchemaV1Beta1" "KubeFlowSchemaV1Beta1" api_object_members
      "jsiiProxy_KubeFlowSchemaV1Beta1"
    ∷ register_struct "k8s.KubeFlowSchemaV1Beta1Props" "KubeFlowSchemaV1Beta1Props"
    ∷ register_class "k8s.KubeFlowSchemaV1Beta2" "KubeFlowSchemaV1Beta2" api_object_members
        "jsiiProxy_KubeFlowSchemaV1Beta2"
    ∷ register_struct "k8s.KubeFlowSchemaV1Beta2Props" "KubeFlowSchemaV1Beta2Props"
    ∷ register_class "k8s.KubeHorizontalPodAutoscaler" "KubeHorizontalPodAutoscaler"
        api_object_members "jsiiProxy_KubeHorizontalPodAutoscaler"
    ∷ register_class "k8s.KubeHorizontalPodAutoscalerList" "KubeHorizontalPodAutoscalerList"
        api_object_members "jsiiProxy_KubeHorizontalPodAutoscalerList"
    ∷ register_struct "k8s.KubeHorizontalPodAutoscalerListProps"
        "KubeHorizontalPodAutoscalerListProps"
    ∷ register_class "k8s.KubeHorizontalPodAutoscalerListV2" "KubeHorizontalPodAutoscalerListV2"
        api_object_members "jsiiProxy_KubeHorizontalPodAutoscalerListV2"
    ∷ register_class "k8s.KubeHorizontalPodAutoscalerListV2Beta2"
        "KubeHorizontalPodAutoscalerListV2Beta2" api_object_members
        "jsiiProxy_KubeHorizontalPodAutoscalerListV2Beta2"
    ∷ register_struct "k8s.KubeHorizontalPodAutoscalerListV2Beta2Props"
        "KubeHorizontalPodAutoscalerListV2Beta2Props"
    ∷ []

abbrev pub k8s_init_13 : List Registration
k8s_init_13 =
    register_struct "k8s.KubeHorizontalPodAutoscalerListV2Props"
      "KubeHorizontalPodAutoscalerListV2Props"
    ∷ register_struct "k8s.KubeHorizontalPodAutoscalerProps" "KubeHorizontalPodAutoscalerProps"
    ∷ register_class "k8s.KubeHorizontalPodAutoscalerV2" "KubeHorizontalPodAutoscalerV2"
        api_object_members "jsiiProxy_KubeHorizontalPodAutoscalerV2"
    ∷ register_class "k8s.KubeHorizontalPodAutoscalerV2Beta2" "KubeHorizontalPodAutoscalerV2Beta2"
        api_object_members "jsiiProxy_KubeHorizontalPodAutoscalerV2Beta2"
    ∷ register_struct "k8s.KubeHorizontalPodAutoscalerV2Beta2Props"
        "KubeHorizontalPodAutoscalerV2Beta2Props"
    ∷ register_struct "k8s.KubeHorizontalPodAutoscalerV2Props" "KubeHorizontalPodAutoscalerV2Props"
    ∷ register_class "k8s.KubeIngress" "KubeIngress" api_object_members "jsiiProxy_KubeIngress"
    ∷ register_class "k8s.KubeIngressClass" "KubeIngressClass" api_object_members
        "jsiiProxy_KubeIngressClass"
    ∷ register_class "k8s.KubeIngressClassList" "KubeIngressClassList" api_object_members
        "jsiiProxy_KubeIngressClassList"
    ∷ register_struct "k8s.KubeIngressClassListProps" "KubeIngressClassListProps"
    ∷ register_struct "k8s.KubeIngressClassProps" "KubeIngressClassProps"
    ∷ []
