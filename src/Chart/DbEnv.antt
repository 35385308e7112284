-- ===== src/Chart/DbEnv.antt =====
-- setDbEnv of cdk8s/db.go: the environment from which the server reads its database options.
use learning_crossplane_e2e.Prelude.{◌⊕◌, String, ◌||◌, some, List, [], ◌∷◌, if◌then◌else◌}
use learning_crossplane_e2e.Chart.K8s.Container.{
  SecretKeySelector, EnvVar, Container, zero_secret_key_selector, zero_env_var_source, zero_env_var,
}
use learning_crossplane_e2e.Chart.Props.{AppProps, any_crossplane}

-- `k8s.EnvVar{Name: …}` with its value assigned as a text or as a reference to a secret's key.
abbrev pub env_value : String → String → EnvVar
env_value name value = record zero_env_var { name = some name; value = some value }

abbrev pub secret_key : String → String → SecretKeySelector
secret_key secret key = record zero_secret_key_selector { name = some secret; key = some key }

abbrev pub env_secret : String → String → String → EnvVar
env_secret name secret key = record zero_env_var {
  name = some name;
  value_from = some (record zero_env_var_source { secret_key_ref = some (secret_key secret key) });
}

-- The five variables where the database runs in the cluster, as `host`.
abbrev pub in_cluster_env : String → String → List EnvVar
in_cluster_env host name =
    env_value "DB_ENDPOINT" host
    ∷ env_value "DB_PORT" "5432"
    ∷ env_value "DB_USER" "postgres"
    ∷ env_secret "DB_PASS" host "postgres-password"
    ∷ env_value "DB_NAME" name
    ∷ []

-- The five variables where the secret `id` describes the database.
abbrev pub secret_env : String → List EnvVar
secret_env id =
    env_secret "DB_ENDPOINT" id "endpoint"
    ∷ env_secret "DB_PORT" id "port"
    ∷ env_secret "DB_USER" id "username"
    ∷ env_secret "DB_PASS" id "password"
    ∷ env_value "DB_NAME" id
    ∷ []

-- The list that setDbEnv assigns: Local is tested before Helm.
unfoldable pub db_env : AppProps → List EnvVar
db_env app =
    if app.db.enabled.crossplane.local
    then in_cluster_env (app.db.id ⊕ "-postgresql") app.name
    else if app.db.enabled.helm
    then in_cluster_env (app.name ⊕ "-postgresql") app.name
    else secret_env app.db.id

unfoldable pub set_db_env : AppProps → Container → Container
unfolding db_env
set_db_env app container =
    if app.db.enabled.helm || any_crossplane app
    then record container { env = some (db_env app) }
    else container
