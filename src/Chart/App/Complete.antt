-- ===== src/Chart/App/Complete.antt =====
-- Whether the structs that NewApp of cdk8s/app.go hands over have their required fields set.
use learning_crossplane_e2e.Prelude.{
  String, Bool, true, false, Option, none, some, List, ◌≡◌, refl, arith, All, All-append, All-if,
}
use learning_crossplane_e2e.Chart.Props.{AppProps, any_crossplane}
use learning_crossplane_e2e.Chart.K8s.Base.{ApiObjectMetadata}
use learning_crossplane_e2e.Chart.K8s.Meta.{ObjectMeta, kube_secret_props_complete}
use learning_crossplane_e2e.Chart.K8s.Pod.{kube_deployment_props_complete}
use learning_crossplane_e2e.Chart.K8s.Network.{
  kube_service_props_complete, kube_ingress_props_complete,
}
use learning_crossplane_e2e.Chart.Custom.Certificate.{certificate_props_complete}
use learning_crossplane_e2e.Chart.Custom.SqlClaim.{sql_claim_props_complete}
use learning_crossplane_e2e.Chart.Custom.ExternalSecret.{external_secret_props_complete}
use learning_crossplane_e2e.Chart.Custom.Database.{database_props_complete}
use learning_crossplane_e2e.Chart.Custom.Table.{table_props_complete}
use learning_crossplane_e2e.Chart.Workload.{get_deployment_props, get_service_props}
use learning_crossplane_e2e.Chart.Exposure.{ingress_of}
use learning_crossplane_e2e.Chart.DbResources.{
  get_postgresql_helm, get_postgresql_crossplane, get_postgresql_secret,
  get_postgresql_external_secret,
}
use learning_crossplane_e2e.Chart.Schema.{get_postgresql_database, get_postgresql_table}
use learning_crossplane_e2e.Chart.App.{
  Resource, deployment, service, ingress, certificate, helm, sql_claim, secret, external_secret,
  database, table, Construct, credential_constructs, db_constructs, schema_constructs, new_app,
}
use learning_crossplane_e2e.Chart.App.Build.{certificates, constructs, new_app-constructs}

abbrev is_given {ℓ} : {A : Type ℓ} → Option A → Bool
is_given none = false
is_given (some a) = true

-- The fields that the generated Go tags `field:"required"` are not nil, at every depth. Helm's props
-- are of the package cdk8s, which requires the chart.
abbrev pub resource_complete : Resource → Bool
resource_complete (deployment p) = kube_deployment_props_complete p
resource_complete (service p) = kube_service_props_complete p
resource_complete (ingress p) = kube_ingress_props_complete p
resource_complete (certificate p) = certificate_props_complete p
resource_complete (helm p) = is_given p.chart
resource_complete (sql_claim p) = sql_claim_props_complete p
resource_complete (secret p) = kube_secret_props_complete p
resource_complete (external_secret p) = external_secret_props_complete p
resource_complete (database p) = database_props_complete p
resource_complete (table p) = table_props_complete p

abbrev pub IsComplete : Construct → Type 0
IsComplete c = resource_complete c.resource ≡ true

deployment-IsComplete :
    (app : AppProps) (metadata : ObjectMeta)
    → kube_deployment_props_complete (get_deployment_props app metadata) ≡ true
unfolding get_deployment_props
deployment-IsComplete app metadata = ground arith

service-IsComplete :
    (metadata : ObjectMeta) → kube_service_props_complete (get_service_props metadata) ≡ true
unfolding get_service_props
service-IsComplete metadata = refl

ingress-IsComplete :
    (app : AppProps) (metadata : ObjectMeta) (name : String)
    → kube_ingress_props_complete (ingress_of app metadata name).0 ≡ true
unfolding ingress_of
ingress-IsComplete app metadata name = ground arith

-- The secret store has a name where a claim outside the cluster is made.
external_secret-IsComplete :
    (app : AppProps)
    → any_crossplane app ≡ true
    → app.db.enabled.crossplane.local ≡ false
    → external_secret_props_complete (get_postgresql_external_secret app) ≡ true
unfolding get_postgresql_external_secret
external_secret-IsComplete app any remote = ground arith

credentials-IsComplete :
    (app : AppProps) → any_crossplane app ≡ true → All IsComplete (credential_constructs app)
unfolding credential_constructs get_postgresql_secret
credentials-IsComplete app any =
    All-if IsComplete app.db.enabled.crossplane.local _ _ (λ _. tt)
      λ remote.
        All-if IsComplete app.db.insecure _ _ (λ _. (refl, tt))
          λ _. (external_secret-IsComplete app any remote, tt)

db-IsComplete :
    (app : AppProps) (metadata : ApiObjectMetadata) → All IsComplete (db_constructs app metadata)
unfolding db_constructs get_postgresql_helm get_postgresql_crossplane
db-IsComplete app metadata =
    All-if IsComplete app.db.enabled.helm _ _ (λ _. (refl, tt))
      λ _.
        All-if IsComplete (any_crossplane app) _ _ (λ any. (refl, credentials-IsComplete app any))
          λ _. tt

certificates-IsComplete :
    (node_id : Option String) (id : String) (app : AppProps)
    → All IsComplete (certificates node_id id app)
unfolding certificates
certificates-IsComplete node_id id app =
    All-if IsComplete app.tls.enabled _ _ (λ _. (refl, tt)) λ _. tt

database-IsComplete :
    (app : AppProps) (metadata : ApiObjectMetadata)
    → database_props_complete (get_postgresql_database app metadata) ≡ true
unfolding get_postgresql_database
database-IsComplete app metadata = ground arith

schema-IsComplete :
    (app : AppProps) (metadata : ApiObjectMetadata)
    → All IsComplete (schema_constructs app metadata)
unfolding schema_constructs get_postgresql_table
schema-IsComplete app metadata =
    All-if IsComplete app.schema_hero.enabled _ _
      (λ _. (database-IsComplete app metadata, (refl, tt))) λ _. tt

-- With an id that is not nil NewApp never reads through a nil pointer, whatever the values, and
-- every struct that it hands to an imported package has its required fields set.
pub new_app-IsComplete :
    (node_id : Option String) (id : String) (app : AppProps)
    → (cs : List Construct) × (new_app node_id (some id) app ≡ some cs) × All IsComplete cs
unfolding constructs
new_app-IsComplete node_id id app = (
  constructs node_id id app,
  new_app-constructs node_id id app,
  (
    deployment-IsComplete app _,
    (
      service-IsComplete _,
      (
        ingress-IsComplete app _ id,
        All-append IsComplete (certificates node_id id app) _
            (certificates-IsComplete node_id id app)
            (All-append IsComplete (db_constructs app _) _ (db-IsComplete app _)
              (schema-IsComplete app _)),
      ),
    ),
  ),
)
