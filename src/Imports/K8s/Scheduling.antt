-- ===== src/Imports/K8s/Scheduling.antt =====
-- The classes of the API groups autoscaling, policy, scheduling and node, in cdk8s/imports/k8s,
-- with the files of their checks.
use learning_crossplane_e2e.Prelude.{String, Option}
use learning_crossplane_e2e.Imports.Template.{
  Checks, ApiClass, optional_props_checks, required_props_checks, nil_checks, api_class,
}
use learning_crossplane_e2e.Imports.Initialize.{k8s_initialize}

module _ {P X : Type 0} where
  abbrev pub kube_horizontal_pod_autoscaler_class : Checks P X → ApiClass P X
  kube_horizontal_pod_autoscaler_class =
      api_class k8s_initialize "k8s.KubeHorizontalPodAutoscaler" "KubeHorizontalPodAutoscaler"

  abbrev pub kube_horizontal_pod_autoscaler_checks : (Option P → Option String) → Checks P X
  kube_horizontal_pod_autoscaler_checks = optional_props_checks

  abbrev pub kube_horizontal_pod_autoscaler_no_checks : Checks P X
  kube_horizontal_pod_autoscaler_no_checks = nil_checks

  abbrev pub kube_horizontal_pod_autoscaler_list_class : Checks P X → ApiClass P X
  kube_horizontal_pod_autoscaler_list_class =
      api_class k8s_initialize "k8s.KubeHorizontalPodAutoscalerList"
        "KubeHorizontalPodAutoscalerList"

  abbrev pub kube_horizontal_pod_autoscaler_list_checks : (Option P → Option String) → Checks P X
  kube_horizontal_pod_autoscaler_list_checks = required_props_checks

  abbrev pub kube_horizontal_pod_autoscaler_list_no_checks : Checks P X
  kube_horizontal_pod_autoscaler_list_no_checks = nil_checks

  abbrev pub kube_horizontal_pod_autoscaler_list_v2_class : Checks P X → ApiClass P X
  kube_horizontal_pod_autoscaler_list_v2_class =
      api_class k8s_initialize "k8s.KubeHorizontalPodAutoscalerListV2"
        "KubeHorizontalPodAutoscalerListV2"

  abbrev pub kube_horizontal_pod_autoscaler_list_v2_checks : (Option P → Option String) → Checks P X
  kube_horizontal_pod_autoscaler_list_v2_checks = required_props_checks

  abbrev pub kube_horizontal_pod_autoscaler_list_v2_no_checks : Checks P X
  kube_horizontal_pod_autoscaler_list_v2_no_checks = nil_checks

  abbrev pub kube_horizontal_pod_autoscaler_list_v2_beta2_class : Checks P X → ApiClass P X
  kube_horizontal_pod_autoscaler_list_v2_beta2_class =
      api_class k8s_initialize "k8s.KubeHorizontalPodAutoscalerListV2Beta2"
        "KubeHorizontalPodAutoscalerListV2Beta2"

  abbrev pub kube_horizontal_pod_autoscaler_list_v2_beta2_checks :
      (Option P → Option String) → Checks P X
  kube_horizontal_pod_autoscaler_list_v2_beta2_checks = required_props_checks

  abbrev pub kube_horizontal_pod_autoscaler_list_v2_beta2_no_checks : Checks P X
  kube_horizontal_pod_autoscaler_list_v2_beta2_no_checks = nil_checks

  abbrev pub kube_horizontal_pod_autoscaler_v2_class : Checks P X → ApiClass P X
  kube_horizontal_pod_autoscaler_v2_class =
      api_class k8s_initialize "k8s.KubeHorizontalPodAutoscalerV2" "KubeHorizontalPodAutoscalerV2"

  abbrev pub kube_horizontal_pod_autoscaler_v2_checks : (Option P → Option String) → Checks P X
  kube_horizontal_pod_autoscaler_v2_checks = optional_props_checks

  abbrev pub kube_horizontal_pod_autoscaler_v2_no_checks : Checks P X
  kube_horizontal_pod_autoscaler_v2_no_checks = nil_checks

  abbrev pub kube_horizontal_pod_autoscaler_v2_beta2_class : Checks P X → ApiClass P X
  kube_horizontal_pod_autoscaler_v2_beta2_class =
      api_class k8s_initialize "k8s.KubeHorizontalPodAutoscalerV2Beta2"
        "KubeHorizontalPodAutoscalerV2Beta2"

  abbrev pub kube_horizontal_pod_autoscaler_v2_beta2_checks :
      (Option P → Option String) → Checks P X
  kube_horizontal_pod_autoscaler_v2_beta2_checks = optional_props_checks

  abbrev pub kube_horizontal_pod_autoscaler_v2_beta2_no_checks : Checks P X
  kube_horizontal_pod_autoscaler_v2_beta2_no_checks = nil_checks

  abbrev pub kube_scale_class : Checks P X → ApiClass P X
  kube_scale_class = api_class k8s_initialize "k8s.KubeScale" "KubeScale"

  abbrev pub kube_scale_checks : (Option P → Option String) → Checks P X
  kube_scale_checks = optional_props_checks

  abbrev pub kube_scale_no_checks : Checks P X
  kube_scale_no_checks = nil_checks

  abbrev pub kube_eviction_class : Checks P X → ApiClass P X
  kube_eviction_class = api_class k8s_initialize "k8s.KubeEviction" "KubeEviction"

  abbrev pub kube_eviction_checks : (Option P → Option String) → Checks P X
  kube_eviction_checks = optional_props_checks

  abbrev pub kube_eviction_no_checks : Checks P X
  kube_eviction_no_checks = nil_checks

  abbrev pub kube_pod_disruption_budget_class : Checks P X → ApiClass P X
  kube_pod_disruption_budget_class =
      api_class k8s_initialize "k8s.KubePodDisruptionBudget" "KubePodDisruptionBudget"

  abbrev pub kube_pod_disruption_budget_checks : (Option P → Option String) → Checks P X
  kube_pod_disruption_budget_checks = optional_props_checks

  abbrev pub kube_pod_disruption_budget_no_checks : Checks P X
  kube_pod_disruption_budget_no_checks = nil_checks

  abbrev pub kube_pod_disruption_budget_list_class : Checks P X → ApiClass P X
  kube_pod_disruption_budget_list_class =
      api_class k8s_initialize "k8s.KubePodDisruptionBudgetList" "KubePodDisruptionBudgetList"

  abbrev pub kube_pod_disruption_budget_list_checks : (Option P → Option String) → Checks P X
  kube_pod_disruption_budget_list_checks = required_props_checks

  abbrev pub kube_pod_disruption_budget_list_no_checks : Checks P X
  kube_pod_disruption_budget_list_no_checks = nil_checks

  abbrev pub kube_priority_class_class : Checks P X → ApiClass P X
  kube_priority_class_class = api_class k8s_initialize "k8s.KubePriorityClass" "KubePriorityClass"

  abbrev pub kube_priority_class_checks : (Option P → Option String) → Checks P X
  kube_priority_class_checks = required_props_checks

  abbrev pub kube_priority_class_no_checks : Checks P X
  kube_priority_class_no_checks = nil_checks

  abbrev pub kube_priority_class_list_class : Checks P X → ApiClass P X
  kube_priority_class_list_class =
      api_class k8s_initialize "k8s.KubePriorityClassList" "KubePriorityClassList"

  abbrev pub kube_priority_class_list_checks : (Option P → Option String) → Checks P X
  kube_priority_class_list_checks = required_props_checks

  abbrev pub kube_priority_class_list_no_checks : Checks P X
  kube_priority_class_list_no_checks = nil_checks

  abbrev pub kube_runtime_class_class : Checks P X → ApiClass P X
  kube_runtime_class_class = api_class k8s_initialize "k8s.KubeRuntimeClass" "KubeRuntimeClass"

  abbrev pub kube_runtime_class_checks : (Option P → Option String) → Checks P X
  kube_runtime_class_checks = required_props_checks

  abbrev pub kube_runtime_class_no_checks : Checks P X
  kube_runtime_class_no_checks = nil_checks

  abbrev pub kube_runtime_class_list_class : Checks P X → ApiClass P X
  kube_runtime_class_list_class =
      api_class k8s_initialize "k8s.KubeRuntimeClassList" "KubeRuntimeClassList"

  abbrev pub kube_runtime_class_list_checks : (Option P → Option String) → Checks P X
  kube_runtime_class_list_checks = required_props_checks

  abbrev pub kube_runtime_class_list_no_checks : Checks P X
  kube_runtime_class_list_no_checks = nil_checks
