-- ===== src/Chart/App/Migrated.antt =====
-- What NewApp of cdk8s/app.go gives to SchemaHero and to the server about their database.
use learning_crossplane_e2e.Prelude.{
  Bool, true, false, not, ◌&&◌, ◌||◌, Option, some, List, [], ◌∷◌, ◌++◌, ◌≡◌, refl, first,
  if◌then◌else◌,
}
use learning_crossplane_e2e.Prelude.{String}
use learning_crossplane_e2e.Chart.K8s.Base.{ApiObjectMetadata}
use learning_crossplane_e2e.Chart.K8s.Container.{EnvVar, Container}
use learning_crossplane_e2e.Chart.K8s.Meta.{ObjectMeta}
use learning_crossplane_e2e.Chart.K8s.Pod.{KubeDeploymentProps}
use learning_crossplane_e2e.Chart.Custom.Database.{DatabaseProps, DatabaseSpecConnectionPostgres}
use learning_crossplane_e2e.Chart.Props.{AppProps, any_crossplane}
use learning_crossplane_e2e.Chart.DbEnv.{db_env, set_db_env}
use learning_crossplane_e2e.Chart.Exposure.{◌>>=◌}
use learning_crossplane_e2e.Chart.Workload.{get_deployment_props}
use learning_crossplane_e2e.Chart.Schema.{
  database_connection, get_postgresql_database, get_postgresql_table,
}
use learning_crossplane_e2e.Chart.Agreement.{Agrees, db_env-Agrees}
use learning_crossplane_e2e.Chart.App.{
  Construct, deployment, database, table, construct, schema_constructs, object_metadata,
  db_metadata, new_app,
}
use learning_crossplane_e2e.Chart.App.Build.{constructs, new_app-constructs, name_labels}
use learning_crossplane_e2e.Chart.App.Targeted.{without_schema, ends_with}

-- The environment of the first container of a deployment.
abbrev pub server_env : KubeDeploymentProps → Option (List EnvVar)
server_env d = do
  spec ← d.spec
  template ← spec.template
  pod ← template.spec
  containers ← pod.containers
  container ← first containers
  container.env

-- The connection of a database.
abbrev pub migrated : DatabaseProps → Option DatabaseSpecConnectionPostgres
migrated d = do spec ← d.spec; connection ← spec.connection; connection.postgres

pub record IsMigrated (cs : List Construct) : Type 0 where
  pub server : KubeDeploymentProps
  pub others : List Construct
  pub served : cs ≡ construct "deployment" (deployment server) ∷ others
  pub target : DatabaseProps
  pub before : List Construct
  pub behind : List Construct
  pub listed : cs ≡ before ++ construct "database" (database target) ∷ behind
  pub env : List EnvVar
  pub given : server_env server ≡ some env
  pub connection : DatabaseSpecConnectionPostgres
  pub connects : migrated target ≡ some connection
  pub agrees : Agrees connection env

env_by :
    (app : AppProps) (container other : Container) (otel : Bool)
    → (app.db.enabled.helm || any_crossplane app) ≡ true
    → (do
      c ← first (
          if otel
          then (set_db_env app container ∷ []) ++ other ∷ []
          else set_db_env app container ∷ [])
      c.env)
      ≡ some (db_env app)
unfolding set_db_env
env_by app container other true used = rw used refl
env_by app container other false used = rw used refl

server_env_given :
    (app : AppProps) (metadata : ObjectMeta)
    → (app.db.enabled.helm || any_crossplane app) ≡ true
    → server_env (get_deployment_props app metadata) ≡ some (db_env app)
unfolding get_deployment_props
server_env_given app metadata used = env_by app _ _ app.otel.enabled used

schema_given :
    (app : AppProps) (metadata : ApiObjectMetadata)
    → app.schema_hero.enabled ≡ true
    → schema_constructs app metadata
      ≡ construct "database" (database (get_postgresql_database app metadata))
        ∷ construct "table" (table (get_postgresql_table app metadata))
        ∷ []
unfolding schema_constructs
schema_given app metadata enabled = rw enabled refl

-- With SchemaHero and a database, where Helm and Local are not enabled together and the database is
-- not that of AWS, NewApp makes a deployment and a database: the container of the server and
-- SchemaHero are given the same host, user, password and database name.
pub new_app-IsMigrated :
    (node_id : Option String) (id : String) (app : AppProps)
    → app.schema_hero.enabled ≡ true
    → (app.db.enabled.helm || any_crossplane app) ≡ true
    → (app.db.enabled.helm && app.db.enabled.crossplane.local) ≡ false
    → (app.db.enabled.helm
        || (app.db.enabled.crossplane.local || not app.db.enabled.crossplane.aws))
      ≡ true
    → (cs : List Construct) × (new_app node_id (some id) app ≡ some cs) × IsMigrated cs
unfolding constructs get_postgresql_database
new_app-IsMigrated node_id id app schema used apart covered =
    let metadata = db_metadata (some id) (name_labels node_id) in
    (
      constructs node_id id app,
      new_app-constructs node_id id app,
      record {
        server = get_deployment_props app (object_metadata (some id) (name_labels node_id));
        others = _;
        served = refl;
        target = get_postgresql_database app metadata;
        before = without_schema node_id id app;
        behind = construct "table" (table (get_postgresql_table app metadata)) ∷ [];
        listed = ends_with (_ ∷ _ ∷ _ ∷ _) _ _ _ (schema_given app metadata schema);
        env = db_env app;
        given = server_env_given app _ used;
        connection = database_connection app;
        connects = refl;
        agrees = db_env-Agrees app apart covered;
      },
    )
