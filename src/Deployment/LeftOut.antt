-- ===== src/Deployment/LeftOut.antt =====
-- The variables of the server that the container of the chart does not have.
use learning_crossplane_e2e.Prelude.{
  String, Bool, true, false, ◌||◌, List, ◌≡◌, refl, ap, ◌∙◌, if◌then◌else◌,
}
use learning_crossplane_e2e.Chart.K8s.Container.{EnvVar, Container}
use learning_crossplane_e2e.Chart.Props.{AppProps, any_crossplane}
use learning_crossplane_e2e.Chart.DbEnv.{db_env, in_cluster_env, secret_env, set_db_env}
use learning_crossplane_e2e.Chart.Workload.{main_container}
use learning_crossplane_e2e.Chart.Agreement.{unset, env_lookup}
use learning_crossplane_e2e.Deployment.{
  resolved, IsLeftOut, fga_api_url, listen_port, left_out, env_of, Deployed,
}

if-unset :
    (name : String) (b : Bool) (x y : List EnvVar)
    → env_lookup name x ≡ unset
    → env_lookup name y ≡ unset
    → env_lookup name (if b then x else y) ≡ unset
if-unset name true x y p q = p
if-unset name false x y p q = q

if-env-unset :
    (name : String) (b : Bool) (x y : Container)
    → env_lookup name (env_of x) ≡ unset
    → env_lookup name (env_of y) ≡ unset
    → env_lookup name (env_of (if b then x else y)) ≡ unset
if-env-unset name true x y p q = p
if-env-unset name false x y p q = q

in_cluster-unset :
    (host database name : String)
    → IsLeftOut name
    → env_lookup name (in_cluster_env host database) ≡ unset
in_cluster-unset host database _ fga_api_url = refl
in_cluster-unset host database _ listen_port = refl

secret_env-unset : (id name : String) → IsLeftOut name → env_lookup name (secret_env id) ≡ unset
secret_env-unset id _ fga_api_url = refl
secret_env-unset id _ listen_port = refl

db_env-unset :
    (app : AppProps) (name : String) → IsLeftOut name → env_lookup name (db_env app) ≡ unset
unfolding db_env
db_env-unset app name v =
    if-unset name app.db.enabled.crossplane.local _ _ (in_cluster-unset _ _ name v) (
      if-unset name app.db.enabled.helm _ _ (in_cluster-unset _ _ name v)
        (secret_env-unset _ name v))

container-unset :
    (app : AppProps) (name : String)
    → IsLeftOut name
    → env_lookup name (env_of (set_db_env app (main_container app))) ≡ unset
unfolding set_db_env
container-unset app name v =
    if-env-unset name (app.db.enabled.helm || any_crossplane app) _ _ (db_env-unset app name v) refl

pub getenv_left_out :
    (getenv : String → String) (secret : String → String → String) (app : AppProps) (name : String)
    → Deployed getenv secret app (main_container app)
    → IsLeftOut name
    → getenv name ≡ ""
getenv_left_out getenv secret app name deployed v =
    deployed.given name (left_out v) ∙ ap (resolved secret) (container-unset app name v)
