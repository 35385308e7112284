-- ===== src/Imports/K8s/Workloads.antt =====
-- The classes of the API groups apps and batch, in cdk8s/imports/k8s: k8s_KubeDeployment.go,
-- k8s_KubeJob.go and so on, with the files of their checks.
use learning_crossplane_e2e.Prelude.{String, Option}
use learning_crossplane_e2e.Imports.Template.{
  Checks, ApiClass, optional_props_checks, required_props_checks, nil_checks, api_class,
}
use learning_crossplane_e2e.Imports.Initialize.{k8s_initialize}

module _ {P X : Type 0} where
  abbrev pub kube_controller_revision_class : Checks P X → ApiClass P X
  kube_controller_revision_class =
      api_class k8s_initialize "k8s.KubeControllerRevision" "KubeControllerRevision"

  abbrev pub kube_controller_revision_checks : (Option P → Option String) → Checks P X
  kube_controller_revision_checks = required_props_checks

  abbrev pub kube_controller_revision_no_checks : Checks P X
  kube_controller_revision_no_checks = nil_checks

  abbrev pub kube_controller_revision_list_class : Checks P X → ApiClass P X
  kube_controller_revision_list_class =
      api_class k8s_initialize "k8s.KubeControllerRevisionList" "KubeControllerRevisionList"

  abbrev pub kube_controller_revision_list_checks : (Option P → Option String) → Checks P X
  kube_controller_revision_list_checks = required_props_checks

  abbrev pub kube_controller_revision_list_no_checks : Checks P X
  kube_controller_revision_list_no_checks = nil_checks

  abbrev pub kube_daemon_set_class : Checks P X → ApiClass P X
  kube_daemon_set_class = api_class k8s_initialize "k8s.KubeDaemonSet" "KubeDaemonSet"

  abbrev pub kube_daemon_set_checks : (Option P → Option String) → Checks P X
  kube_daemon_set_checks = optional_props_checks

  abbrev pub kube_daemon_set_no_checks : Checks P X
  kube_daemon_set_no_checks = nil_checks

  abbrev pub kube_daemon_set_list_class : Checks P X → ApiClass P X
  kube_daemon_set_list_class = api_class k8s_initialize "k8s.KubeDaemonSetList" "KubeDaemonSetList"

  abbrev pub kube_daemon_set_list_checks : (Option P → Option String) → Checks P X
  kube_daemon_set_list_checks = required_props_checks

  abbrev pub kube_daemon_set_list_no_checks : Checks P X
  kube_daemon_set_list_no_checks = nil_checks

  abbrev pub kube_deployment_class : Checks P X → ApiClass P X
  kube_deployment_class = api_class k8s_initialize "k8s.KubeDeployment" "KubeDeployment"

  abbrev pub kube_deployment_checks : (Option P → Option String) → Checks P X
  kube_deployment_checks = optional_props_checks

  abbrev pub kube_deployment_no_checks : Checks P X
  kube_deployment_no_checks = nil_checks

  abbrev pub kube_deployment_list_class : Checks P X → ApiClass P X
  kube_deployment_list_class =
      api_class k8s_initialize "k8s.KubeDeploymentList" "KubeDeploymentList"

  abbrev pub kube_deployment_list_checks : (Option P → Option String) → Checks P X
  kube_deployment_list_checks = required_props_checks

  abbrev pub kube_deployment_list_no_checks : Checks P X
  kube_deployment_list_no_checks = nil_checks

  abbrev pub kube_replica_set_class : Checks P X → ApiClass P X
  kube_replica_set_class = api_class k8s_initialize "k8s.KubeReplicaSet" "KubeReplicaSet"

  abbrev pub kube_replica_set_checks : (Option P → Option String) → Checks P X
  kube_replica_set_checks = optional_props_checks

  abbrev pub kube_replica_set_no_checks : Checks P X
  kube_replica_set_no_checks = nil_checks

  abbrev pub kube_replica_set_list_class : Checks P X → ApiClass P X
  kube_replica_set_list_class =
      api_class k8s_initialize "k8s.KubeReplicaSetList" "KubeReplicaSetList"

  abbrev pub kube_replica_set_list_checks : (Option P → Option String) → Checks P X
  kube_replica_set_list_checks = required_props_checks

  abbrev pub kube_replica_set_list_no_checks : Checks P X
  kube_replica_set_list_no_checks = nil_checks

  abbrev pub kube_stateful_set_class : Checks P X → ApiClass P X
  kube_stateful_set_class = api_class k8s_initialize "k8s.KubeStatefulSet" "KubeStatefulSet"

  abbrev pub kube_stateful_set_checks : (Option P → Option String) → Checks P X
  kube_stateful_set_checks = optional_props_checks

  abbrev pub kube_stateful_set_no_checks : Checks P X
  kube_stateful_set_no_checks = nil_checks

  abbrev pub kube_stateful_set_list_class : Checks P X → ApiClass P X
  kube_stateful_set_list_class =
      api_class k8s_initialize "k8s.KubeStatefulSetList" "KubeStatefulSetList"

  abbrev pub kube_stateful_set_list_checks : (Option P → Option String) → Checks P X
  kube_stateful_set_list_checks = required_props_checks

  abbrev pub kube_stateful_set_list_no_checks : Checks P X
  kube_stateful_set_list_no_checks = nil_checks

  abbrev pub kube_cron_job_class : Checks P X → ApiClass P X
  kube_cron_job_class = api_class k8s_initialize "k8s.KubeCronJob" "KubeCronJob"

  abbrev pub kube_cron_job_checks : (Option P → Option String) → Checks P X
  kube_cron_job_checks = optional_props_checks

  abbrev pub kube_cron_job_no_checks : Checks P X
  kube_cron_job_no_checks = nil_checks

  abbrev pub kube_cron_job_list_class : Checks P X → ApiClass P X
  kube_cron_job_list_class = api_class k8s_initialize "k8s.KubeCronJobList" "KubeCronJobList"

  abbrev pub kube_cron_job_list_checks : (Option P → Option String) → Checks P X
  kube_cron_job_list_checks = required_props_checks

  abbrev pub kube_cron_job_list_no_checks : Checks P X
  kube_cron_job_list_no_checks = nil_checks

  abbrev pub kube_job_class : Checks P X → ApiClass P X
  kube_job_class = api_class k8s_initialize "k8s.KubeJob" "KubeJob"

  abbrev pub kube_job_checks : (Option P → Option String) → Checks P X
  kube_job_checks = optional_props_checks

  abbrev pub kube_job_no_checks : Checks P X
  kube_job_no_checks = nil_checks

  abbrev pub kube_job_list_class : Checks P X → ApiClass P X
  kube_job_list_class = api_class k8s_initialize "k8s.KubeJobList" "KubeJobList"

  abbrev pub kube_job_list_checks : (Option P → Option String) → Checks P X
  kube_job_list_checks = required_props_checks

  abbrev pub kube_job_list_no_checks : Checks P X
  kube_job_list_no_checks = nil_checks
