-- ===== src/Chart/DbResources.antt =====
-- The database resources of cdk8s/db.go: the Helm chart, the Crossplane claim and its password.
use learning_crossplane_e2e.Prelude.{
  ◌⊕◌, String, Bool, false, Option, none, some, [], ◌∷◌, if◌then◌else◌,
}
use learning_crossplane_e2e.Chart.K8s.Base.{StringMap, ApiObjectMetadata}
use learning_crossplane_e2e.Chart.K8s.Meta.{
  KubeSecretProps, zero_object_meta, zero_kube_secret_props,
}
use learning_crossplane_e2e.Chart.Custom.SqlClaim.{SqlClaimProps, zero_sql_claim_spec}
use learning_crossplane_e2e.Chart.Custom.ExternalSecret.{
  ExternalSecretProps, zero_external_secret_spec, zero_external_secret_spec_target,
  zero_external_secret_spec_data_from,
}
use learning_crossplane_e2e.Chart.Props.{AppProps}

-- A value of the nested maps that the Helm chart is given.
mutual
  pub data HelmValue : Type 0 where
    text : String → HelmValue
    flag : Bool → HelmValue
    object : HelmFields → HelmValue

  pub data HelmFields : Type 0 where
    end : HelmFields
    field : String → HelmValue → HelmFields → HelmFields

-- The fields of `cdk8s.HelmProps` that the chart gives.
pub record HelmProps : Type 0 where
  pub chart : Option String
  pub release_name : Option String
  pub version : Option String
  pub namespace : Option String
  pub values : HelmValue

abbrev one_field : String → HelmValue → HelmValue
one_field key value = object (field key value end)

unfoldable pub get_postgresql_helm : AppProps → HelmProps
get_postgresql_helm app = record {
  chart = some "bitnami/postgresql";
  release_name = some (app.name ⊕ "-postgresql");
  version = some "12.1.2";
  namespace = some "dev";
  values = object (
      field "global" (one_field "persistence" (one_field "enabled" (flag false))) (
        field "auth" (one_field "postgresPassword" (text "postgres")) (
          field "primary"
            (one_field "initdb" (
              one_field "scripts" (
                one_field "00_init_script.sh" (
                  text
                    "export PGPASSWORD=$POSTGRES_PASSWORD\npsql -U postgres -c 'CREATE DATABASE \"cncf-demo\";'"))))
            end)));
}

-- The variable `provider` of getPostgresqlCrossplane.
unfoldable pub claim_provider : AppProps → String
claim_provider app =
    if app.db.enabled.crossplane.google
    then "google"
    else if app.db.enabled.crossplane.aws
    then "aws"
    else if app.db.enabled.crossplane.azure
    then "azure"
    else "local-k8s"

-- Its variable `version`.
unfoldable pub claim_version : AppProps → String
claim_version app = if app.db.enabled.crossplane.aws then "16.5" else "11"

unfoldable pub get_postgresql_crossplane : AppProps → ApiObjectMetadata → SqlClaimProps
unfolding claim_provider claim_version
get_postgresql_crossplane app metadata = record {
  metadata = some metadata;
  spec = some (record zero_sql_claim_spec {
    id = some app.db.id;
    composition_selector = some (record {
      match_labels =
          some (("provider", some (claim_provider app)) ∷ ("db", some "postgresql") ∷ []);
    });
    parameters = some (record { version = some (claim_version app); size = some app.db.size });
  });
}

abbrev name_label : AppProps → StringMap
name_label app = ("app.kubernetes.io/name", some app.name) ∷ []

unfoldable pub get_postgresql_secret : AppProps → KubeSecretProps
get_postgresql_secret app = record zero_kube_secret_props {
  metadata = some (record zero_object_meta {
    name = some (app.db.id ⊕ "-password");
    labels = some (name_label app);
  });
  secret_data =
      some (("password", some "T1QrOXZQcDhMdXhoeFVQWVpLSk1kUG1YM04xTzBTd3YzWG5ZVjI0UFZzcz0=") ∷ []);
}

-- The name of the secret store; it stays nil where no provider is enabled.
unfoldable pub store_name : AppProps → Option String
store_name app =
    if app.db.enabled.crossplane.google
    then some "google"
    else if app.db.enabled.crossplane.azure
    then some "azure"
    else if app.db.enabled.crossplane.aws
    then some "aws"
    else none

unfoldable pub get_postgresql_external_secret : AppProps → ExternalSecretProps
unfolding store_name
get_postgresql_external_secret app = record {
  metadata = some (record {
    name = some (app.db.id ⊕ "-password");
    labels = some (name_label app);
    annotations = none;
  });
  spec = some (record zero_external_secret_spec {
    refresh_interval = some "1m";
    secret_store_ref = some (record { kind = some "ClusterSecretStore"; name = store_name app });
    target = some (record zero_external_secret_spec_target {
      name = some (app.db.id ⊕ "-password");
      creation_policy = some "Owner";
    });
    data_from =
        some
          (record zero_external_secret_spec_data_from { key = some "production-postgresql" } ∷ []);
  });
}
