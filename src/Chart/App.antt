-- ===== src/Chart/App.antt =====
-- NewApp of cdk8s/app.go: the constructs in the order in which they are created.
pub mod Build
pub mod Complete
pub mod Wiring
pub mod Ids
pub mod Secured
pub mod Targeted
pub mod Migrated
pub mod Supplied
use learning_crossplane_e2e.Prelude.{
  String, Bool, ◌||◌, Option, none, some, List, [], ◌∷◌, ◌++◌, if◌then◌else◌,
}
use learning_crossplane_e2e.Chart.K8s.Base.{StringMap, ApiObjectMetadata}
use learning_crossplane_e2e.Chart.K8s.Meta.{ObjectMeta, KubeSecretProps, zero_object_meta}
use learning_crossplane_e2e.Chart.K8s.Pod.{KubeDeploymentProps}
use learning_crossplane_e2e.Chart.K8s.Network.{KubeServiceProps, KubeIngressProps}
use learning_crossplane_e2e.Chart.Custom.Certificate.{CertificateProps}
use learning_crossplane_e2e.Chart.Custom.SqlClaim.{SqlClaimProps}
use learning_crossplane_e2e.Chart.Custom.ExternalSecret.{ExternalSecretProps}
use learning_crossplane_e2e.Chart.Custom.Database.{DatabaseProps}
use learning_crossplane_e2e.Chart.Custom.Table.{TableProps}
use learning_crossplane_e2e.Chart.Props.{AppProps, any_crossplane}
use learning_crossplane_e2e.Chart.Workload.{get_deployment_props, get_service_props}
use learning_crossplane_e2e.Chart.Exposure.{◌>>=◌, get_ingress_props, get_certificate}
use learning_crossplane_e2e.Chart.DbResources.{
  HelmProps, get_postgresql_helm, get_postgresql_crossplane, get_postgresql_secret,
  get_postgresql_external_secret,
}
use learning_crossplane_e2e.Chart.Schema.{get_postgresql_database, get_postgresql_table}

-- What a constructor of the imported packages is given.
pub data Resource : Type 0 where
  deployment : KubeDeploymentProps → Resource
  service : KubeServiceProps → Resource
  ingress : KubeIngressProps → Resource
  certificate : CertificateProps → Resource
  helm : HelmProps → Resource
  sql_claim : SqlClaimProps → Resource
  secret : KubeSecretProps → Resource
  external_secret : ExternalSecretProps → Resource
  database : DatabaseProps → Resource
  table : TableProps → Resource

-- The id of the construct within its scope, and its props as they are when it is created.
pub record Construct : Type 0 where
  pub id : String
  pub resource : Resource

abbrev pub construct : String → Resource → Construct
construct id resource = record { id = id; resource = resource }

unfoldable pub certificate_constructs : AppProps → ApiObjectMetadata → Option (List Construct)
certificate_constructs app metadata =
    if app.tls.enabled
    then (do
      props ← get_certificate app metadata
      some (construct "certificate" (certificate props) ∷ []))
    else some []

-- The credentials of a claim that does not run in the cluster.
unfoldable pub credential_constructs : AppProps → List Construct
credential_constructs app =
    if app.db.enabled.crossplane.local
    then []
    else if app.db.insecure
    then construct "secret" (secret (get_postgresql_secret app)) ∷ []
    else construct "external-secret" (external_secret (get_postgresql_external_secret app)) ∷ []

-- Helm is tested before Crossplane.
unfoldable pub db_constructs : AppProps → ApiObjectMetadata → List Construct
unfolding credential_constructs
db_constructs app metadata =
    if app.db.enabled.helm
    then construct "postgresql" (helm (get_postgresql_helm app)) ∷ []
    else if any_crossplane app
    then construct "sqlClaim" (sql_claim (get_postgresql_crossplane app metadata))
      ∷ credential_constructs app
    else []

unfoldable pub schema_constructs : AppProps → ApiObjectMetadata → List Construct
schema_constructs app metadata =
    if app.schema_hero.enabled
    then construct "database" (database (get_postgresql_database app metadata))
      ∷ construct "table" (table (get_postgresql_table app metadata))
      ∷ []
    else []

abbrev pub api_metadata : Option String → StringMap → ApiObjectMetadata
api_metadata id labels = record { name = id; labels = some labels; annotations = none }

abbrev pub object_metadata : Option String → StringMap → ObjectMeta
object_metadata id labels = record zero_object_meta { name = id; labels = some labels }

abbrev pub db_metadata : Option String → StringMap → ApiObjectMetadata
db_metadata id labels = record {
  name = id;
  labels = some labels;
  annotations = some (("argocd.argoproj.io/hook", some "PreSync") ∷ []);
}

-- `node_id` is `constructs.Node_Of(construct).Id()`. A construct is created from its props as they
-- are at that time, so the labels that getIngressProps assigns later do not reach the deployment
-- and the service. There is no result where a nil name is read.
unfoldable pub new_app : Option String → Option String → AppProps → Option (List Construct)
unfolding certificate_constructs db_constructs schema_constructs
new_app node_id id app = do
  let labels = ("app.kubernetes.io/name", node_id) ∷ []
  let metadata = object_metadata id labels
  (ingress_props, _) ← get_ingress_props app metadata
  certificates ← certificate_constructs app (api_metadata id labels)
  some (
      construct "deployment" (deployment (get_deployment_props app metadata))
        ∷ construct "service" (service (get_service_props metadata))
        ∷ construct "ingress" (ingress ingress_props)
        ∷ certificates
      ++ (db_constructs app (api_metadata id labels)
          ++ schema_constructs app (db_metadata id labels)))
