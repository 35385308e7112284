-- ===== src/Deployment/Connection.antt =====
-- getDB of video.go in the container of the chart.
use Prim.Native.String.append
use learning_crossplane_e2e.Prelude.{
  ◌⊕◌, String, Bool, true, false, ◌&&◌, ◌||◌, not, none, List, ◌≡◌, refl, ap, ◌∙◌, sym, is_empty,
  if◌then◌else◌,
}
use learning_crossplane_e2e.Server.State.{State, Services}
use learning_crossplane_e2e.Server.Database.{first_set, db_options}
use learning_crossplane_e2e.Server.Database.Opens.{connected, IsConfigured, get_db_given}
use learning_crossplane_e2e.Chart.K8s.Container.{EnvVar, Container}
use learning_crossplane_e2e.Chart.Props.{AppProps, any_crossplane}
use learning_crossplane_e2e.Chart.DbEnv.{db_env, in_cluster_env, set_db_env}
use learning_crossplane_e2e.Chart.Schema.{database_connection}
use learning_crossplane_e2e.Chart.Agreement.{Source, env_lookup, db_env-Agrees}
use learning_crossplane_e2e.Deployment.{
  resolved, IsDbVariable, db_variable, db_endpoint, db_port, db_user, db_pass, db_name, env_of,
  Deployed, Connects,
}

append_given : (s : String) → is_empty (s ⊕ "-postgresql") ≡ false
append_given String.[] = refl
append_given (String.◌∷◌ c s) = rw (append.cons c s "-postgresql")

-- The five variables hold something.
pub record IsGiven (secret : String → String → String) (env : List EnvVar) : Type 0 where
  pub endpoint : is_empty (resolved secret (env_lookup "DB_ENDPOINT" env)) ≡ false
  pub port : is_empty (resolved secret (env_lookup "DB_PORT" env)) ≡ false
  pub user : is_empty (resolved secret (env_lookup "DB_USER" env)) ≡ false
  pub pass : is_empty (resolved secret (env_lookup "DB_PASS" env)) ≡ false
  pub name : is_empty (resolved secret (env_lookup "DB_NAME" env)) ≡ false

if-IsGiven :
    (secret : String → String → String) (b : Bool) (x y : List EnvVar)
    → IsGiven secret x
    → IsGiven secret y
    → IsGiven secret (if b then x else y)
if-IsGiven secret true x y p q = p
if-IsGiven secret false x y p q = q

in_cluster-IsGiven :
    (secret : String → String → String) (host name : String)
    → ((name key : String) → is_empty (secret name key) ≡ false)
    → is_empty host ≡ false
    → is_empty name ≡ false
    → IsGiven secret (in_cluster_env host name)
in_cluster-IsGiven secret host name filled given named = record {
  endpoint = given;
  port = refl;
  user = refl;
  pass = filled _ _;
  name = named;
}

db_env-IsGiven :
    (secret : String → String → String) (app : AppProps)
    → ((name key : String) → is_empty (secret name key) ≡ false)
    → is_empty app.name ≡ false
    → is_empty app.db.id ≡ false
    → IsGiven secret (db_env app)
unfolding db_env
db_env-IsGiven secret app filled name id =
    if-IsGiven secret app.db.enabled.crossplane.local _ _
      (in_cluster-IsGiven secret _ _ filled (append_given app.db.id) name)
      (if-IsGiven secret app.db.enabled.helm _ _
        (in_cluster-IsGiven secret _ _ filled (append_given app.name) name)
        (record {
          endpoint = filled _ _;
          port = filled _ _;
          user = filled _ _;
          pass = filled _ _;
          name = id;
        }))

set_env :
    (app : AppProps) (container : Container)
    → (app.db.enabled.helm || any_crossplane app) ≡ true
    → env_of (set_db_env app container) ≡ db_env app
unfolding set_db_env
set_env app container h = rw h

-- A setting that SchemaHero shares, as the server reads it.
shared :
    (svc : Services) (secret : String → String → String) (name : String) (c : Source)
    (env deployed : List EnvVar)
    → svc.getenv name ≡ resolved secret (env_lookup name deployed)
    → deployed ≡ env
    → c ≡ env_lookup name env
    → svc.getenv name ≡ resolved secret c
shared svc secret name c env deployed given same agrees =
    given
    ∙ ap (λ env. resolved secret (env_lookup name env)) same
    ∙ ap (resolved secret) (sym agrees)

first_set_given :
    (svc : Services) (first second : String)
    → is_empty (svc.getenv first) ≡ false
    → first_set svc first second ≡ svc.getenv first
first_set_given svc first second h = rw h

module _ (svc : Services) (secret : String → String → String) (app : AppProps)
    (container : Container) (deployed : Deployed svc.getenv secret app container)
    (filled : (name key : String) → is_empty (secret name key) ≡ false)
    (used : (app.db.enabled.helm || any_crossplane app) ≡ true) (named : is_empty app.name ≡ false)
    (identified : is_empty app.db.id ≡ false) where
  read :
      (name : String)
      → IsDbVariable name
      → svc.getenv name ≡ resolved secret (env_lookup name (db_env app))
  read name v =
      deployed.given name (db_variable v)
      ∙ ap (λ env. resolved secret (env_lookup name env)) (set_env app container used)

  all-IsGiven : IsGiven secret (db_env app)
  all-IsGiven = db_env-IsGiven secret app filled named identified

  given_user : is_empty (svc.getenv "DB_USER") ≡ false
  given_user = ap is_empty (read "DB_USER" db_user) ∙ all-IsGiven.user

  given_pass : is_empty (svc.getenv "DB_PASS") ≡ false
  given_pass = ap is_empty (read "DB_PASS" db_pass) ∙ all-IsGiven.pass

  pub deployed-IsConfigured : IsConfigured svc
  deployed-IsConfigured = record {
    endpoint = ap is_empty (read "DB_ENDPOINT" db_endpoint) ∙ all-IsGiven.endpoint;
    port = ap is_empty (read "DB_PORT" db_port) ∙ all-IsGiven.port;
    user = ap is_empty (first_set_given svc "DB_USER" "DB_USERNAME" given_user) ∙ given_user;
    pass = ap is_empty (first_set_given svc "DB_PASS" "DB_PASSWORD" given_pass) ∙ given_pass;
    name = ap is_empty (read "DB_NAME" db_name) ∙ all-IsGiven.name;
  }

-- Where the chart gives the server a database, its name and its id are not empty, and no secret is,
-- getDB opens a connection from each state without a session, with the host, the user, the password
-- and the database name that SchemaHero is given; Helm and Local must not be enabled together, and
-- the database must not be that of AWS.
pub get_db-Connects :
    (svc : Services) (secret : String → String → String) (app : AppProps) (container : Container)
    (s : State)
    → Deployed svc.getenv secret app container
    → ((name key : String) → is_empty (secret name key) ≡ false)
    → (app.db.enabled.helm || any_crossplane app) ≡ true
    → is_empty app.name ≡ false
    → is_empty app.db.id ≡ false
    → (app.db.enabled.helm && app.db.enabled.crossplane.local) ≡ false
    → (app.db.enabled.helm
        || (app.db.enabled.crossplane.local || not app.db.enabled.crossplane.aws))
      ≡ true
    → s.db_session ≡ none
    → Connects svc secret (database_connection app) s
get_db-Connects svc secret app container s deployed filled used named identified apart covered
      session =
    let agrees = db_env-Agrees app apart covered in
    let same = set_env app container used in
    let configured =
      deployed-IsConfigured svc secret app container deployed filled used named identified in
    let user_set = given_user svc secret app container deployed filled used named identified in
    let pass_set = given_pass svc secret app container deployed filled used named identified in
    record {
      db = db_options svc;
      final = connected svc s;
      opens = get_db_given svc s configured session;
      host =
          ap (λ h. h ⊕ (":" ⊕ svc.getenv "DB_PORT"))
            (shared svc secret "DB_ENDPOINT" _ _ _
              (deployed.given "DB_ENDPOINT" (db_variable db_endpoint)) same agrees.host);
      user =
          first_set_given svc "DB_USER" "DB_USERNAME" user_set
          ∙ shared svc secret "DB_USER" _ _ _ (deployed.given "DB_USER" (db_variable db_user)) same
              agrees.user;
      password =
          first_set_given svc "DB_PASS" "DB_PASSWORD" pass_set
          ∙ shared svc secret "DB_PASS" _ _ _ (deployed.given "DB_PASS" (db_variable db_pass)) same
              agrees.password;
      database =
          shared svc secret "DB_NAME" _ _ _ (deployed.given "DB_NAME" (db_variable db_name)) same
            agrees.name;
    }
