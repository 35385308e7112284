-- ===== src/Imports/Registered/K8sA.antt =====
-- The init function of cdk8s/imports/k8s/k8s.go, from Affinity to KubeClusterRoleBindingProps.
use learning_crossplane_e2e.Prelude.{List, [], ◌∷◌}
use learning_crossplane_e2e.Imports.Registry.{
  Registration, api_object_members, register_class, register_enum, register_struct, value_members,
}

abbrev pub k8s_init_1 : List Registration
k8s_init_1 =
    register_struct "k8s.Affinity" "Affinity"
    ∷ register_struct "k8s.AggregationRule" "AggregationRule"
    ∷ register_struct "k8s.ApiServiceSpec" "ApiServiceSpec"
    ∷ register_struct "k8s.AwsElasticBlockStoreVolumeSource" "AwsElasticBlockStoreVolumeSource"
    ∷ register_struct "k8s.AzureDiskVolumeSource" "AzureDiskVolumeSource"
    ∷ register_struct "k8s.AzureFilePersistentVolumeSource" "AzureFilePersistentVolumeSource"
    ∷ register_struct "k8s.AzureFileVolumeSource" "AzureFileVolumeSource"
    ∷ register_struct "k8s.BoundObjectReference" "BoundObjectReference"
    ∷ register_struct "k8s.Capabilities" "Capabilities"
    ∷ register_struct "k8s.CephFsPersistentVolumeSource" "CephFsPersistentVolumeSource"
    ∷ register_struct "k8s.CephFsVolumeSource" "CephFsVolumeSource"
    ∷ register_struct "k8s.CertificateSigningRequestSpec" "CertificateSigningRequestSpec"
    ∷ register_struct "k8s.CinderPersistentVolumeSource" "CinderPersistentVolumeSource"
    ∷ register_struct "k8s.CinderVolumeSource" "CinderVolumeSource"
    ∷ register_struct "k8s.ClientIpConfig" "ClientIpConfig"
    ∷ register_struct "k8s.ClusterCidrSpecV1Alpha1" "ClusterCidrSpecV1Alpha1"
    ∷ register_struct "k8s.ComponentCondition" "ComponentCondition"
    ∷ register_struct "k8s.ConfigMapEnvSource" "ConfigMapEnvSource"
    ∷ register_struct "k8s.ConfigMapKeySelector" "ConfigMapKeySelector"
    ∷ register_struct "k8s.ConfigMapNodeConfigSource" "ConfigMapNodeConfigSource"
    ∷ register_struct "k8s.ConfigMapProjection" "ConfigMapProjection"
    ∷ register_struct "k8s.ConfigMapVolumeSource" "ConfigMapVolumeSource"
    ∷ register_struct "k8s.Container" "Container"
    ∷ register_struct "k8s.ContainerPort" "ContainerPort"
    ∷ register_struct "k8s.ContainerResourceMetricSourceV2" "ContainerResourceMetricSourceV2"
    ∷ register_struct "k8s.ContainerResourceMetricSourceV2Beta2"
        "ContainerResourceMetricSourceV2Beta2"
    ∷ register_struct "k8s.CronJobSpec" "CronJobSpec"
    ∷ register_struct "k8s.CrossVersionObjectReference" "CrossVersionObjectReference"
    ∷ register_struct "k8s.CrossVersionObjectReferenceV2" "CrossVersionObjectReferenceV2"
    ∷ register_struct "k8s.CrossVersionObjectReferenceV2Beta2" "CrossVersionObjectReferenceV2Beta2"
    ∷ register_struct "k8s.CsiDriverSpec" "CsiDriverSpec"
    ∷ register_struct "k8s.CsiNodeDriver" "CsiNodeDriver"
    ∷ register_struct "k8s.CsiNodeSpec" "CsiNodeSpec"
    ∷ register_struct "k8s.CsiPersistentVolumeSource" "CsiPersistentVolumeSource"
    ∷ register_struct "k8s.CsiVolumeSource" "CsiVolumeSource"
    ∷ register_struct "k8s.CustomResourceColumnDefinition" "CustomResourceColumnDefinition"
    ∷ register_struct "k8s.CustomResourceConversion" "CustomResourceConversion"
    ∷ []

abbrev pub k8s_init_2 : List Registration
k8s_init_2 =
    register_struct "k8s.CustomResourceDefinitionNames" "CustomResourceDefinitionNames"
    ∷ register_struct "k8s.CustomResourceDefinitionSpec" "CustomResourceDefinitionSpec"
    ∷ register_struct "k8s.CustomResourceDefinitionVersion" "CustomResourceDefinitionVersion"
    ∷ register_struct "k8s.CustomResourceSubresourceScale" "CustomResourceSubresourceScale"
    ∷ register_struct "k8s.CustomResourceSubresources" "CustomResourceSubresources"
    ∷ register_struct "k8s.CustomResourceValidation" "CustomResourceValidation"
    ∷ register_struct "k8s.DaemonSetSpec" "DaemonSetSpec"
    ∷ register_struct "k8s.DaemonSetUpdateStrategy" "DaemonSetUpdateStrategy"
    ∷ register_struct "k8s.DeleteOptions" "DeleteOptions"
    ∷ register_struct "k8s.DeploymentSpec" "DeploymentSpec"
    ∷ register_struct "k8s.DeploymentStrategy" "DeploymentStrategy"
    ∷ register_struct "k8s.DownwardApiProjection" "DownwardApiProjection"
    ∷ register_struct "k8s.DownwardApiVolumeFile" "DownwardApiVolumeFile"
    ∷ register_struct "k8s.DownwardApiVolumeSource" "DownwardApiVolumeSource"
    ∷ register_struct "k8s.EmptyDirVolumeSource" "EmptyDirVolumeSource"
    ∷ register_struct "k8s.Endpoint" "Endpoint"
    ∷ register_struct "k8s.EndpointAddress" "EndpointAddress"
    ∷ register_struct "k8s.EndpointConditions" "EndpointConditions"
    ∷ register_struct "k8s.EndpointHints" "EndpointHints"
    ∷ register_struct "k8s.EndpointPort" "EndpointPort"
    ∷ register_struct "k8s.EndpointSubset" "EndpointSubset"
    ∷ register_struct "k8s.EnvFromSource" "EnvFromSource"
    ∷ register_struct "k8s.EnvVar" "EnvVar"
    ∷ register_struct "k8s.EnvVarSource" "EnvVarSource"
    ∷ register_struct "k8s.EphemeralContainer" "EphemeralContainer"
    ∷ register_struct "k8s.EphemeralVolumeSource" "EphemeralVolumeSource"
    ∷ register_struct "k8s.EventSeries" "EventSeries"
    ∷ register_struct "k8s.EventSource" "EventSource"
    ∷ register_struct "k8s.ExecAction" "ExecAction"
    ∷ register_struct "k8s.ExternalDocumentation" "ExternalDocumentation"
    ∷ register_struct "k8s.ExternalMetricSourceV2" "ExternalMetricSourceV2"
    ∷ register_struct "k8s.ExternalMetricSourceV2Beta2" "ExternalMetricSourceV2Beta2"
    ∷ register_struct "k8s.FcVolumeSource" "FcVolumeSource"
    ∷ register_struct "k8s.FlexPersistentVolumeSource" "FlexPersistentVolumeSource"
    ∷ register_struct "k8s.FlexVolumeSource" "FlexVolumeSource"
    ∷ register_struct "k8s.FlockerVolumeSource" "FlockerVolumeSource"
    ∷ register_struct "k8s.FlowDistinguisherMethodV1Beta1" "FlowDistinguisherMethodV1Beta1"
    ∷ []

abbrev pub k8s_init_3 : List Registration
k8s_init_3 =
    register_struct "k8s.FlowDistinguisherMethodV1Beta2" "FlowDistinguisherMethodV1Beta2"
    ∷ register_struct "k8s.FlowSchemaSpecV1Beta1" "FlowSchemaSpecV1Beta1"
    ∷ register_struct "k8s.FlowSchemaSpecV1Beta2" "FlowSchemaSpecV1Beta2"
    ∷ register_struct "k8s.ForZone" "ForZone"
    ∷ register_struct "k8s.GcePersistentDiskVolumeSource" "GcePersistentDiskVolumeSource"
    ∷ register_struct "k8s.GitRepoVolumeSource" "GitRepoVolumeSource"
    ∷ register_struct "k8s.GlusterfsPersistentVolumeSource" "GlusterfsPersistentVolumeSource"
    ∷ register_struct "k8s.GlusterfsVolumeSource" "GlusterfsVolumeSource"
    ∷ register_struct "k8s.GroupSubjectV1Beta1" "GroupSubjectV1Beta1"
    ∷ register_struct "k8s.GroupSubjectV1Beta2" "GroupSubjectV1Beta2"
    ∷ register_struct "k8s.GrpcAction" "GrpcAction"
    ∷ register_struct "k8s.HorizontalPodAutoscalerBehaviorV2" "HorizontalPodAutoscalerBehaviorV2"
    ∷ register_struct "k8s.HorizontalPodAutoscalerBehaviorV2Beta2"
        "HorizontalPodAutoscalerBehaviorV2Beta2"
    ∷ register_struct "k8s.HorizontalPodAutoscalerSpec" "HorizontalPodAutoscalerSpec"
    ∷ register_struct "k8s.HorizontalPodAutoscalerSpecV2" "HorizontalPodAutoscalerSpecV2"
    ∷ register_struct "k8s.HorizontalPodAutoscalerSpecV2Beta2" "HorizontalPodAutoscalerSpecV2Beta2"
    ∷ register_struct "k8s.HostAlias" "HostAlias"
    ∷ register_struct "k8s.HostPathVolumeSource" "HostPathVolumeSource"
    ∷ register_struct "k8s.HpaScalingPolicyV2" "HpaScalingPolicyV2"
    ∷ register_struct "k8s.HpaScalingPolicyV2Beta2" "HpaScalingPolicyV2Beta2"
    ∷ register_struct "k8s.HpaScalingRulesV2" "HpaScalingRulesV2"
    ∷ register_struct "k8s.HpaScalingRulesV2Beta2" "HpaScalingRulesV2Beta2"
    ∷ register_struct "k8s.HttpGetAction" "HttpGetAction"
    ∷ register_struct "k8s.HttpHeader" "HttpHeader"
    ∷ register_struct "k8s.HttpIngressPath" "HttpIngressPath"
    ∷ register_struct "k8s.HttpIngressRuleValue" "HttpIngressRuleValue"
    ∷ register_struct "k8s.IngressBackend" "IngressBackend"
    ∷ register_struct "k8s.IngressClassParametersReference" "IngressClassParametersReference"
    ∷ register_struct "k8s.IngressClassSpec" "IngressClassSpec"
    ∷ register_struct "k8s.IngressRule" "IngressRule"
    ∷ register_struct "k8s.IngressServiceBackend" "IngressServiceBackend"
    ∷ register_struct "k8s.IngressSpec" "IngressSpec"
    ∷ register_struct "k8s.IngressTls" "IngressTls"
    ∷ register_class "k8s.IntOrString" "IntOrString" value_members "jsiiProxy_IntOrString"
    ∷ register_enum "k8s.IoK8SApimachineryPkgApisMetaV1DeleteOptionsKind"
        "IoK8SApimachineryPkgApisMetaV1DeleteOptionsKind"
        (("DELETE_OPTIONS", "IoK8SApimachineryPkgApisMetaV1DeleteOptionsKind_DELETE_OPTIONS") ∷ [])
    ∷ []

abbrev pub k8s_init_4 : List Registration
k8s_init_4 =
    register_struct "k8s.IpBlock" "IpBlock"
    ∷ register_struct "k8s.IscsiPersistentVolumeSource" "IscsiPersistentVolumeSource"
    ∷ register_struct "k8s.IscsiVolumeSource" "IscsiVolumeSource"
    ∷ register_struct "k8s.JobSpec" "JobSpec"
    ∷ register_struct "k8s.JobTemplateSpec" "JobTemplateSpec"
    ∷ register_struct "k8s.JsonSchemaProps" "JsonSchemaProps"
    ∷ register_struct "k8s.KeyToPath" "KeyToPath"
    ∷ register_class "k8s.KubeApiService" "KubeApiService" api_object_members
        "jsiiProxy_KubeApiService"
    ∷ register_class "k8s.KubeApiServiceList" "KubeApiServiceList" api_object_members
        "jsiiProxy_KubeApiServiceList"
    ∷ register_struct "k8s.KubeApiServiceListProps" "KubeApiServiceListProps"
    ∷ register_struct "k8s.KubeApiServiceProps" "KubeApiServiceProps"
    ∷ register_class "k8s.KubeBinding" "KubeBinding" api_object_members "jsiiProxy_KubeBinding"
    ∷ register_struct "k8s.KubeBindingProps" "KubeBindingProps"
    ∷ register_class "k8s.KubeCertificateSigningRequest" "KubeCertificateSigningRequest"
        api_object_members "jsiiProxy_KubeCertificateSigningRequest"
    ∷ register_class "k8s.KubeCertificateSigningRequestList" "KubeCertificateSigningRequestList"
        api_object_members "jsiiProxy_KubeCertificateSigningRequestList"
    ∷ []

abbrev pub k8s_init_5 : List Registration
k8s_init_5 =
    register_struct "k8s.KubeCertificateSigningRequestListProps"
      "KubeCertificateSigningRequestListProps"
    ∷ register_struct "k8s.KubeCertificateSigningRequestProps" "KubeCertificateSigningRequestProps"
    ∷ register_class "k8s.KubeClusterCidrListV1Alpha1" "KubeClusterCidrListV1Alpha1"
        api_object_members "jsiiProxy_KubeClusterCidrListV1Alpha1"
    ∷ register_struct "k8s.KubeClusterCidrListV1Alpha1Props" "KubeClusterCidrListV1Alpha1Props"
    ∷ register_class "k8s.KubeClusterCidrv1Alpha1" "KubeClusterCidrv1Alpha1" api_object_members
        "jsiiProxy_KubeClusterCidrv1Alpha1"
    ∷ register_struct "k8s.KubeClusterCidrv1Alpha1Props" "KubeClusterCidrv1Alpha1Props"
    ∷ register_class "k8s.KubeClusterRole" "KubeClusterRole" api_object_members
        "jsiiProxy_KubeClusterRole"
    ∷ register_class "k8s.KubeClusterRoleBinding" "KubeClusterRoleBinding" api_object_members
        "jsiiProxy_KubeClusterRoleBinding"
    ∷ register_class "k8s.KubeClusterRoleBindingList" "KubeClusterRoleBindingList"
        api_object_members "jsiiProxy_KubeClusterRoleBindingList"
    ∷ register_struct "k8s.KubeClusterRoleBindingListProps" "KubeClusterRoleBindingListProps"
    ∷ register_struct "k8s.KubeClusterRoleBindingProps" "KubeClusterRoleBindingProps"
    ∷ []
