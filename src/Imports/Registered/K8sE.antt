-- ===== src/Imports/Registered/K8sE.antt =====
-- The init function of cdk8s/imports/k8s/k8s.go, from RbdVolumeSource to
-- WindowsSecurityContextOptions.
use learning_crossplane_e2e.Prelude.{List, [], ◌∷◌}
use learning_crossplane_e2e.Imports.Registry.{Registration, register_struct}

abbrev pub k8s_init_29 : List Registration
k8s_init_29 =
    register_struct "k8s.RbdVolumeSource" "RbdVolumeSource"
    ∷ register_struct "k8s.ReplicaSetSpec" "ReplicaSetSpec"
    ∷ register_struct "k8s.ReplicationControllerSpec" "ReplicationControllerSpec"
    ∷ register_struct "k8s.ResourceAttributes" "ResourceAttributes"
    ∷ register_struct "k8s.ResourceFieldSelector" "ResourceFieldSelector"
    ∷ register_struct "k8s.ResourceMetricSourceV2" "ResourceMetricSourceV2"
    ∷ register_struct "k8s.ResourceMetricSourceV2Beta2" "ResourceMetricSourceV2Beta2"
    ∷ register_struct "k8s.ResourcePolicyRuleV1Beta1" "ResourcePolicyRuleV1Beta1"
    ∷ register_struct "k8s.ResourcePolicyRuleV1Beta2" "ResourcePolicyRuleV1Beta2"
    ∷ register_struct "k8s.ResourceQuotaSpec" "ResourceQuotaSpec"
    ∷ register_struct "k8s.ResourceRequirements" "ResourceRequirements"
    ∷ register_struct "k8s.RoleRef" "RoleRef"
    ∷ register_struct "k8s.RollingUpdateDaemonSet" "RollingUpdateDaemonSet"
    ∷ register_struct "k8s.RollingUpdateDeployment" "RollingUpdateDeployment"
    ∷ register_struct "k8s.RollingUpdateStatefulSetStrategy" "RollingUpdateStatefulSetStrategy"
    ∷ register_struct "k8s.RuleWithOperations" "RuleWithOperations"
    ∷ register_struct "k8s.ScaleIoPersistentVolumeSource" "ScaleIoPersistentVolumeSource"
    ∷ register_struct "k8s.ScaleIoVolumeSource" "ScaleIoVolumeSource"
    ∷ register_struct "k8s.ScaleSpec" "ScaleSpec"
    ∷ register_struct "k8s.Scheduling" "Scheduling"
    ∷ register_struct "k8s.ScopeSelector" "ScopeSelector"
    ∷ register_struct "k8s.ScopedResourceSelectorRequirement" "ScopedResourceSelectorRequirement"
    ∷ register_struct "k8s.SeLinuxOptions" "SeLinuxOptions"
    ∷ register_struct "k8s.SeccompProfile" "SeccompProfile"
    ∷ register_struct "k8s.SecretEnvSource" "SecretEnvSource"
    ∷ register_struct "k8s.SecretKeySelector" "SecretKeySelector"
    ∷ register_struct "k8s.SecretProjection" "SecretProjection"
    ∷ register_struct "k8s.SecretReference" "SecretReference"
    ∷ register_struct "k8s.SecretVolumeSource" "SecretVolumeSource"
    ∷ register_struct "k8s.SecurityContext" "SecurityContext"
    ∷ register_struct "k8s.SelfSubjectAccessReviewSpec" "SelfSubjectAccessReviewSpec"
    ∷ register_struct "k8s.SelfSubjectRulesReviewSpec" "SelfSubjectRulesReviewSpec"
    ∷ register_struct "k8s.ServiceAccountSubjectV1Beta1" "ServiceAccountSubjectV1Beta1"
    ∷ register_struct "k8s.ServiceAccountSubjectV1Beta2" "ServiceAccountSubjectV1Beta2"
    ∷ register_struct "k8s.ServiceAccountTokenProjection" "ServiceAccountTokenProjection"
    ∷ register_struct "k8s.ServiceBackendPort" "ServiceBackendPort"
    ∷ register_struct "k8s.ServicePort" "ServicePort"
    ∷ []

abbrev pub k8s_init_30 : List Registration
k8s_init_30 =
    register_struct "k8s.ServiceReference" "ServiceReference"
    ∷ register_struct "k8s.ServiceSpec" "ServiceSpec"
    ∷ register_struct "k8s.SessionAffinityConfig" "SessionAffinityConfig"
    ∷ register_struct "k8s.StatefulSetPersistentVolumeClaimRetentionPolicy"
        "StatefulSetPersistentVolumeClaimRetentionPolicy"
    ∷ register_struct "k8s.StatefulSetSpec" "StatefulSetSpec"
    ∷ register_struct "k8s.StatefulSetUpdateStrategy" "StatefulSetUpdateStrategy"
    ∷ register_struct "k8s.StatusCause" "StatusCause"
    ∷ register_struct "k8s.StatusDetails" "StatusDetails"
    ∷ register_struct "k8s.StorageOsPersistentVolumeSource" "StorageOsPersistentVolumeSource"
    ∷ register_struct "k8s.StorageOsVolumeSource" "StorageOsVolumeSource"
    ∷ register_struct "k8s.Subject" "Subject"
    ∷ register_struct "k8s.SubjectAccessReviewSpec" "SubjectAccessReviewSpec"
    ∷ register_struct "k8s.SubjectV1Beta1" "SubjectV1Beta1"
    ∷ register_struct "k8s.SubjectV1Beta2" "SubjectV1Beta2"
    ∷ register_struct "k8s.Sysctl" "Sysctl"
    ∷ register_struct "k8s.Taint" "Taint"
    ∷ register_struct "k8s.TcpSocketAction" "TcpSocketAction"
    ∷ register_struct "k8s.TokenRequest" "TokenRequest"
    ∷ register_struct "k8s.TokenRequestSpec" "TokenRequestSpec"
    ∷ register_struct "k8s.TokenReviewSpec" "TokenReviewSpec"
    ∷ register_struct "k8s.Toleration" "Toleration"
    ∷ register_struct "k8s.TopologySelectorLabelRequirement" "TopologySelectorLabelRequirement"
    ∷ register_struct "k8s.TopologySelectorTerm" "TopologySelectorTerm"
    ∷ register_struct "k8s.TopologySpreadConstraint" "TopologySpreadConstraint"
    ∷ register_struct "k8s.TypedLocalObjectReference" "TypedLocalObjectReference"
    ∷ register_struct "k8s.UserSubjectV1Beta1" "UserSubjectV1Beta1"
    ∷ register_struct "k8s.UserSubjectV1Beta2" "UserSubjectV1Beta2"
    ∷ register_struct "k8s.ValidatingWebhook" "ValidatingWebhook"
    ∷ register_struct "k8s.ValidationRule" "ValidationRule"
    ∷ register_struct "k8s.Volume" "Volume"
    ∷ register_struct "k8s.VolumeAttachmentSource" "VolumeAttachmentSource"
    ∷ register_struct "k8s.VolumeAttachmentSpec" "VolumeAttachmentSpec"
    ∷ register_struct "k8s.VolumeDevice" "VolumeDevice"
    ∷ register_struct "k8s.VolumeMount" "VolumeMount"
    ∷ register_struct "k8s.VolumeNodeAffinity" "VolumeNodeAffinity"
    ∷ register_struct "k8s.VolumeNodeResources" "VolumeNodeResources"
    ∷ register_struct "k8s.VolumeProjection" "VolumeProjection"
    ∷ []

abbrev pub k8s_init_31 : List Registration
k8s_init_31 =
    register_struct "k8s.VsphereVirtualDiskVolumeSource" "VsphereVirtualDiskVolumeSource"
    ∷ register_struct "k8s.WebhookClientConfig" "WebhookClientConfig"
    ∷ register_struct "k8s.WebhookConversion" "WebhookConversion"
    ∷ register_struct "k8s.WeightedPodAffinityTerm" "WeightedPodAffinityTerm"
    ∷ register_struct "k8s.WindowsSecurityContextOptions" "WindowsSecurityContextOptions"
    ∷ []
