-- ===== src/Imports/K8s/Network.antt =====
-- The classes of the API groups networking, discovery, events and coordination, in
-- cdk8s/imports/k8s: k8s_KubeIngress.go and so on, with the files of their checks.
use learning_crossplane_e2e.Prelude.{String, Option}
use learning_crossplane_e2e.Imports.Template.{
  Checks, ApiClass, optional_props_checks, required_props_checks, nil_checks, api_class,
}
use learning_crossplane_e2e.Imports.Initialize.{k8s_initialize}

module _ {P X : Type 0} where
  abbrev pub kube_cluster_cidr_list_v1_alpha1_class : Checks P X → ApiClass P X
  kube_cluster_cidr_list_v1_alpha1_class =
      api_class k8s_initialize "k8s.KubeClusterCidrListV1Alpha1" "KubeClusterCidrListV1Alpha1"

  abbrev pub kube_cluster_cidr_list_v1_alpha1_checks : (Option P → Option String) → Checks P X
  kube_cluster_cidr_list_v1_alpha1_checks = required_props_checks

  abbrev pub kube_cluster_cidr_list_v1_alpha1_no_checks : Checks P X
  kube_cluster_cidr_list_v1_alpha1_no_checks = nil_checks

  abbrev pub kube_cluster_cidrv1_alpha1_class : Checks P X → ApiClass P X
  kube_cluster_cidrv1_alpha1_class =
      api_class k8s_initialize "k8s.KubeClusterCidrv1Alpha1" "KubeClusterCidrv1Alpha1"

  abbrev pub kube_cluster_cidrv1_alpha1_checks : (Option P → Option String) → Checks P X
  kube_cluster_cidrv1_alpha1_checks = optional_props_checks

  abbrev pub kube_cluster_cidrv1_alpha1_no_checks : Checks P X
  kube_cluster_cidrv1_alpha1_no_checks = nil_checks

  abbrev pub kube_ingress_class : Checks P X → ApiClass P X
  kube_ingress_class = api_class k8s_initialize "k8s.KubeIngress" "KubeIngress"

  abbrev pub kube_ingress_checks : (Option P → Option String) → Checks P X
  kube_ingress_checks = optional_props_checks

  abbrev pub kube_ingress_no_checks : Checks P X
  kube_ingress_no_checks = nil_checks

  abbrev pub kube_ingress_class_class : Checks P X → ApiClass P X
  kube_ingress_class_class = api_class k8s_initialize "k8s.KubeIngressClass" "KubeIngressClass"

  abbrev pub kube_ingress_class_checks : (Option P → Option String) → Checks P X
  kube_ingress_class_checks = optional_props_checks

  abbrev pub kube_ingress_class_no_checks : Checks P X
  kube_ingress_class_no_checks = nil_checks

  abbrev pub kube_ingress_class_list_class : Checks P X → ApiClass P X
  kube_ingress_class_list_class =
      api_class k8s_initialize "k8s.KubeIngressClassList" "KubeIngressClassList"

  abbrev pub kube_ingress_class_list_checks : (Option P → Option String) → Checks P X
  kube_ingress_class_list_checks = required_props_checks

  abbrev pub kube_ingress_class_list_no_checks : Checks P X
  kube_ingress_class_list_no_checks = nil_checks

  abbrev pub kube_ingress_list_class : Checks P X → ApiClass P X
  kube_ingress_list_class = api_class k8s_initialize "k8s.KubeIngressList" "KubeIngressList"

  abbrev pub kube_ingress_list_checks : (Option P → Option String) → Checks P X
  kube_ingress_list_checks = required_props_checks

  abbrev pub kube_ingress_list_no_checks : Checks P X
  kube_ingress_list_no_checks = nil_checks

  abbrev pub kube_network_policy_class : Checks P X → ApiClass P X
  kube_network_policy_class = api_class k8s_initialize "k8s.KubeNetworkPolicy" "KubeNetworkPolicy"

  abbrev pub kube_network_policy_checks : (Option P → Option String) → Checks P X
  kube_network_policy_checks = optional_props_checks

  abbrev pub kube_network_policy_no_checks : Checks P X
  kube_network_policy_no_checks = nil_checks

  abbrev pub kube_network_policy_list_class : Checks P X → ApiClass P X
  kube_network_policy_list_class =
      api_class k8s_initialize "k8s.KubeNetworkPolicyList" "KubeNetworkPolicyList"

  abbrev pub kube_network_policy_list_checks : (Option P → Option String) → Checks P X
  kube_network_policy_list_checks = required_props_checks

  abbrev pub kube_network_policy_list_no_checks : Checks P X
  kube_network_policy_list_no_checks = nil_checks

  abbrev pub kube_endpoint_slice_class : Checks P X → ApiClass P X
  kube_endpoint_slice_class = api_class k8s_initialize "k8s.KubeEndpointSlice" "KubeEndpointSlice"

  abbrev pub kube_endpoint_slice_checks : (Option P → Option String) → Checks P X
  kube_endpoint_slice_checks = required_props_checks

  abbrev pub kube_endpoint_slice_no_checks : Checks P X
  kube_endpoint_slice_no_checks = nil_checks

  abbrev pub kube_endpoint_slice_list_class : Checks P X → ApiClass P X
  kube_endpoint_slice_list_class =
      api_class k8s_initialize "k8s.KubeEndpointSliceList" "KubeEndpointSliceList"

  abbrev pub kube_endpoint_slice_list_checks : (Option P → Option String) → Checks P X
  kube_endpoint_slice_list_checks = required_props_checks

  abbrev pub kube_endpoint_slice_list_no_checks : Checks P X
  kube_endpoint_slice_list_no_checks = nil_checks

  abbrev pub kube_event_class : Checks P X → ApiClass P X
  kube_event_class = api_class k8s_initialize "k8s.KubeEvent" "KubeEvent"

  abbrev pub kube_event_checks : (Option P → Option String) → Checks P X
  kube_event_checks = required_props_checks

  abbrev pub kube_event_no_checks : Checks P X
  kube_event_no_checks = nil_checks

  abbrev pub kube_event_list_class : Checks P X → ApiClass P X
  kube_event_list_class = api_class k8s_initialize "k8s.KubeEventList" "KubeEventList"

  abbrev pub kube_event_list_checks : (Option P → Option String) → Checks P X
  kube_event_list_checks = required_props_checks

  abbrev pub kube_event_list_no_checks : Checks P X
  kube_event_list_no_checks = nil_checks

  abbrev pub kube_lease_class : Checks P X → ApiClass P X
  kube_lease_class = api_class k8s_initialize "k8s.KubeLease" "KubeLease"

  abbrev pub kube_lease_checks : (Option P → Option String) → Checks P X
  kube_lease_checks = optional_props_checks

  abbrev pub kube_lease_no_checks : Checks P X
  kube_lease_no_checks = nil_checks

  abbrev pub kube_lease_list_class : Checks P X → ApiClass P X
  kube_lease_list_class = api_class k8s_initialize "k8s.KubeLeaseList" "KubeLeaseList"

  abbrev pub kube_lease_list_checks : (Option P → Option String) → Checks P X
  kube_lease_list_checks = required_props_checks

  abbrev pub kube_lease_list_no_checks : Checks P X
  kube_lease_list_no_checks = nil_checks
