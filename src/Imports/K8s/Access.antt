-- ===== src/Imports/K8s/Access.antt =====
-- The classes of the API groups rbac, authentication and authorization, in cdk8s/imports/k8s, with
-- the files of their checks.
use learning_crossplane_e2e.Prelude.{String, Option}
use learning_crossplane_e2e.Imports.Template.{
  Checks, ApiClass, optional_props_checks, required_props_checks, nil_checks, api_class,
}
use learning_crossplane_e2e.Imports.Initialize.{k8s_initialize}

module _ {P X : Type 0} where
  abbrev pub kube_cluster_role_class : Checks P X → ApiClass P X
  kube_cluster_role_class = api_class k8s_initialize "k8s.KubeClusterRole" "KubeClusterRole"

  abbrev pub kube_cluster_role_checks : (Option P → Option String) → Checks P X
  kube_cluster_role_checks = optional_props_checks

  abbrev pub kube_cluster_role_no_checks : Checks P X
  kube_cluster_role_no_checks = nil_checks

  abbrev pub kube_cluster_role_binding_class : Checks P X → ApiClass P X
  kube_cluster_role_binding_class =
      api_class k8s_initialize "k8s.KubeClusterRoleBinding" "KubeClusterRoleBinding"

  abbrev pub kube_cluster_role_binding_checks : (Option P → Option String) → Checks P X
  kube_cluster_role_binding_checks = required_props_checks

  abbrev pub kube_cluster_role_binding_no_checks : Checks P X
  kube_cluster_role_binding_no_checks = nil_checks

  abbrev pub kube_cluster_role_binding_list_class : Checks P X → ApiClass P X
  kube_cluster_role_binding_list_class =
      api_class k8s_initialize "k8s.KubeClusterRoleBindingList" "KubeClusterRoleBindingList"

  abbrev pub kube_cluster_role_binding_list_checks : (Option P → Option String) → Checks P X
  kube_cluster_role_binding_list_checks = required_props_checks

  abbrev pub kube_cluster_role_binding_list_no_checks : Checks P X
  kube_cluster_role_binding_list_no_checks = nil_checks

  abbrev pub kube_cluster_role_list_class : Checks P X → ApiClass P X
  kube_cluster_role_list_class =
      api_class k8s_initialize "k8s.KubeClusterRoleList" "KubeClusterRoleList"

  abbrev pub kube_cluster_role_list_checks : (Option P → Option String) → Checks P X
  kube_cluster_role_list_checks = required_props_checks

  abbrev pub kube_cluster_role_list_no_checks : Checks P X
  kube_cluster_role_list_no_checks = nil_checks

  abbrev pub kube_role_class : Checks P X → ApiClass P X
  kube_role_class = api_class k8s_initialize "k8s.KubeRole" "KubeRole"

  abbrev pub kube_role_checks : (Option P → Option String) → Checks P X
  kube_role_checks = optional_props_checks

  abbrev pub kube_role_no_checks : Checks P X
  kube_role_no_checks = nil_checks

  abbrev pub kube_role_binding_class : Checks P X → ApiClass P X
  kube_role_binding_class = api_class k8s_initialize "k8s.KubeRoleBinding" "KubeRoleBinding"

  abbrev pub kube_role_binding_checks : (Option P → Option String) → Checks P X
  kube_role_binding_checks = required_props_checks

  abbrev pub kube_role_binding_no_checks : Checks P X
  kube_role_binding_no_checks = nil_checks

  abbrev pub kube_role_binding_list_class : Checks P X → ApiClass P X
  kube_role_binding_list_class =
      api_class k8s_initialize "k8s.KubeRoleBindingList" "KubeRoleBindingList"

  abbrev pub kube_role_binding_list_checks : (Option P → Option String) → Checks P X
  kube_role_binding_list_checks = required_props_checks

  abbrev pub kube_role_binding_list_no_checks : Checks P X
  kube_role_binding_list_no_checks = nil_checks

  abbrev pub kube_role_list_class : Checks P X → ApiClass P X
  kube_role_list_class = api_class k8s_initialize "k8s.KubeRoleList" "KubeRoleList"

  abbrev pub kube_role_list_checks : (Option P → Option String) → Checks P X
  kube_role_list_checks = required_props_checks

  abbrev pub kube_role_list_no_checks : Checks P X
  kube_role_list_no_checks = nil_checks

  abbrev pub kube_token_request_class : Checks P X → ApiClass P X
  kube_token_request_class = api_class k8s_initialize "k8s.KubeTokenRequest" "KubeTokenRequest"

  abbrev pub kube_token_request_checks : (Option P → Option String) → Checks P X
  kube_token_request_checks = required_props_checks

  abbrev pub kube_token_request_no_checks : Checks P X
  kube_token_request_no_checks = nil_checks

  abbrev pub kube_token_review_class : Checks P X → ApiClass P X
  kube_token_review_class = api_class k8s_initialize "k8s.KubeTokenReview" "KubeTokenReview"

  abbrev pub kube_token_review_checks : (Option P → Option String) → Checks P X
  kube_token_review_checks = required_props_checks

  abbrev pub kube_token_review_no_checks : Checks P X
  kube_token_review_no_checks = nil_checks

  abbrev pub kube_local_subject_access_review_class : Checks P X → ApiClass P X
  kube_local_subject_access_review_class =
      api_class k8s_initialize "k8s.KubeLocalSubjectAccessReview" "KubeLocalSubjectAccessReview"

  abbrev pub kube_local_subject_access_review_checks : (Option P → Option String) → Checks P X
  kube_local_subject_access_review_checks = required_props_checks

  abbrev pub kube_local_subject_access_review_no_checks : Checks P X
  kube_local_subject_access_review_no_checks = nil_checks

  abbrev pub kube_self_subject_access_review_class : Checks P X → ApiClass P X
  kube_self_subject_access_review_class =
      api_class k8s_initialize "k8s.KubeSelfSubjectAccessReview" "KubeSelfSubjectAccessReview"

  abbrev pub kube_self_subject_access_review_checks : (Option P → Option String) → Checks P X
  kube_self_subject_access_review_checks = required_props_checks

  abbrev pub kube_self_subject_access_review_no_checks : Checks P X
  kube_self_subject_access_review_no_checks = nil_checks

  abbrev pub kube_self_subject_rules_review_class : Checks P X → ApiClass P X
  kube_self_subject_rules_review_class =
      api_class k8s_initialize "k8s.KubeSelfSubjectRulesReview" "KubeSelfSubjectRulesReview"

  abbrev pub kube_self_subject_rules_review_checks : (Option P → Option String) → Checks P X
  kube_self_subject_rules_review_checks = required_props_checks

  abbrev pub kube_self_subject_rules_review_no_checks : Checks P X
  kube_self_subject_rules_review_no_checks = nil_checks

  abbrev pub kube_subject_access_review_class : Checks P X → ApiClass P X
  kube_subject_access_review_class =
      api_class k8s_initialize "k8s.KubeSubjectAccessReview" "KubeSubjectAccessReview"

  abbrev pub kube_subject_access_review_checks : (Option P → Option String) → Checks P X
  kube_subject_access_review_checks = required_props_checks

  abbrev pub kube_subject_access_review_no_checks : Checks P X
  kube_subject_access_review_no_checks = nil_checks
