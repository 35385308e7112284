-- ===== src/Chart/Bindings/Classes.antt =====
-- The constructors of the nine classes of cdk8s/imports that app.go calls, by the order of app.go.
use learning_crossplane_e2e.Prelude.{String, Option}
use learning_crossplane_e2e.Chart.K8s.Pod.{KubeDeploymentProps}
use learning_crossplane_e2e.Chart.K8s.Network.{KubeServiceProps, KubeIngressProps}
use learning_crossplane_e2e.Chart.K8s.Meta.{KubeSecretProps}
use learning_crossplane_e2e.Chart.Custom.Certificate.{CertificateProps}
use learning_crossplane_e2e.Chart.Custom.SqlClaim.{SqlClaimProps}
use learning_crossplane_e2e.Chart.Custom.ExternalSecret.{ExternalSecretProps}
use learning_crossplane_e2e.Chart.Custom.Database.{DatabaseProps}
use learning_crossplane_e2e.Chart.Custom.Table.{TableProps}
use learning_crossplane_e2e.Chart.App.{
  deployment, service, ingress, secret, certificate, sql_claim, external_secret, database, table,
}
use learning_crossplane_e2e.Imports.Template.{binding}
use learning_crossplane_e2e.Imports.K8s.{
  kube_deployment_class, kube_deployment_checks, kube_deployment_no_checks, kube_service_class,
  kube_service_checks, kube_service_no_checks, kube_ingress_class, kube_ingress_checks,
  kube_ingress_no_checks, kube_secret_class, kube_secret_checks, kube_secret_no_checks,
}
use learning_crossplane_e2e.Imports.Custom.{
  certificate_class, certificate_checks, certificate_no_checks, sql_claim_class, sql_claim_checks,
  sql_claim_no_checks, external_secret_class, external_secret_checks, external_secret_no_checks,
  database_class, database_checks, database_no_checks, table_class, table_checks, table_no_checks,
}
use learning_crossplane_e2e.Chart.Bindings.{Runtime, B, new_object}

module _ (rt : Runtime) (scope id : Option String) where
  unfoldable pub new_kube_deployment : Option KubeDeploymentProps → B (Unit {0})
  unfolding new_object
  new_kube_deployment =
      new_object rt deployment
        (binding kube_deployment_class kube_deployment_checks kube_deployment_no_checks) scope id

  unfoldable pub new_kube_service : Option KubeServiceProps → B (Unit {0})
  unfolding new_object
  new_kube_service =
      new_object rt service (binding kube_service_class kube_service_checks kube_service_no_checks)
        scope id

  unfoldable pub new_kube_ingress : Option KubeIngressProps → B (Unit {0})
  unfolding new_object
  new_kube_ingress =
      new_object rt ingress (binding kube_ingress_class kube_ingress_checks kube_ingress_no_checks)
        scope id

  unfoldable pub new_kube_secret : Option KubeSecretProps → B (Unit {0})
  unfolding new_object
  new_kube_secret =
      new_object rt secret (binding kube_secret_class kube_secret_checks kube_secret_no_checks)
        scope id

  unfoldable pub new_certificate : Option CertificateProps → B (Unit {0})
  unfolding new_object
  new_certificate =
      new_object rt certificate (binding certificate_class certificate_checks certificate_no_checks)
        scope id

  unfoldable pub new_sql_claim : Option SqlClaimProps → B (Unit {0})
  unfolding new_object
  new_sql_claim =
      new_object rt sql_claim (binding sql_claim_class sql_claim_checks sql_claim_no_checks) scope
        id

  unfoldable pub new_external_secret : Option ExternalSecretProps → B (Unit {0})
  unfolding new_object
  new_external_secret =
      new_object rt external_secret
        (binding external_secret_class external_secret_checks external_secret_no_checks) scope id

  unfoldable pub new_database : Option DatabaseProps → B (Unit {0})
  unfolding new_object
  new_database =
      new_object rt database (binding database_class database_checks database_no_checks) scope id

  unfoldable pub new_table : Option TableProps → B (Unit {0})
  unfolding new_object
  new_table = new_object rt table (binding table_class table_checks table_no_checks) scope id
