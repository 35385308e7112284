-- ===== src/Deployment.antt =====
-- The chart and the server together: the environment that the chart of cdk8s gives to the container,
-- read by the server that runs in it.
pub mod Connection
pub mod LeftOut
pub mod Catalog
pub mod Probes
pub mod Tests
use Prim.Native.String
use Prim.Native.String.append
use learning_crossplane_e2e.Prelude.{
  ◌⊕◌, String, Bool, true, false, ◌&&◌, ◌||◌, not, Option, none, some, List, [], ◌≡◌, refl, ap, ◌∙◌,
  sym, arith, is_empty, if◌then◌else◌,
}
use learning_crossplane_e2e.Server.State.{
  State, Services, DbOptions, done, run, record_event, db_connect, db_add_query_hook,
}
use learning_crossplane_e2e.Server.Database.{first_set, db_options, open_db, session_or, get_db}
use learning_crossplane_e2e.Chart.K8s.Container.{EnvVar, Container}
use learning_crossplane_e2e.Chart.Custom.Database.{DatabaseSpecConnectionPostgres}
use learning_crossplane_e2e.Chart.Props.{AppProps, any_crossplane}
use learning_crossplane_e2e.Chart.DbEnv.{db_env, in_cluster_env, set_db_env}
use learning_crossplane_e2e.Chart.Schema.{database_connection}
use learning_crossplane_e2e.Chart.Agreement.{
  Source, plain, from_secret, unset, env_lookup, host_source, user_source, password_source,
  dbname_source, db_env-Agrees,
}

-- The value of a setting, where `secret name key` is what the secrets of the cluster hold.
abbrev pub resolved : (String → String → String) → Source → String
resolved secret (plain s) = s
resolved secret (from_secret (some name) (some key)) = secret name key
resolved secret (from_secret (some name) none) = ""
resolved secret (from_secret none key) = ""
resolved secret unset = ""

-- The variables that setDbEnv sets.
pub data IsDbVariable : String → Type 0 where
  db_endpoint : IsDbVariable "DB_ENDPOINT"
  db_port : IsDbVariable "DB_PORT"
  db_user : IsDbVariable "DB_USER"
  db_pass : IsDbVariable "DB_PASS"
  db_name : IsDbVariable "DB_NAME"

-- Variables that the chart leaves out, though the server reads them.
pub data IsLeftOut : String → Type 0 where
  fga_api_url : IsLeftOut "FGA_API_URL"
  listen_port : IsLeftOut "PORT"

-- The Dockerfile sets none of them in the image.
pub data IsVariable : String → Type 0 where
  db_variable : {name : String} → IsDbVariable name → IsVariable name
  left_out : {name : String} → IsLeftOut name → IsVariable name

-- The variables of a container.
abbrev pub env_of : Container → List EnvVar
env_of container = elim container.env [ none ↦ [] | some env ↦ env ]

-- The server runs in the container of the chart: `getenv` gives what the container says.
pub record Deployed (getenv : String → String) (secret : String → String → String) (app : AppProps)
    (container : Container) : Type 0 where
  pub given :
      (name : String)
      → IsVariable name
      → getenv name ≡ resolved secret (env_lookup name (env_of (set_db_env app container)))

-- getDB opens a connection, with the host, the user, the password and the database that SchemaHero
-- is given.
pub record Connects (svc : Services) (secret : String → String → String)
    (c : DatabaseSpecConnectionPostgres) (s : State) : Type 0 where
  pub db : DbOptions
  pub final : State
  pub opens : get_db svc s ≡ done (some db) final
  pub host : db.addr ≡ resolved secret (host_source c) ⊕ (":" ⊕ svc.getenv "DB_PORT")
  pub user : db.user ≡ resolved secret (user_source c)
  pub password : db.password ≡ resolved secret (password_source c)
  pub database : db.database ≡ resolved secret (dbname_source c)
