-- ===== src/Deployment/Probes/Reached.antt =====
-- The probes of getDeploymentProps in cdk8s/app.go, as the server of main.go answers them.
use learning_crossplane_e2e.Prelude.{
  ◌⊕◌, first, String, Bool, true, false, Option, some, List, [], ◌∷◌, ◌≡◌, refl, ap, ◌∙◌,
  if◌then◌else◌, ◌||◌, ◌++◌,
}
use learning_crossplane_e2e.Strconv.{itoa}
use learning_crossplane_e2e.Server.State.{ok, run, record_event, debug, text_response}
use learning_crossplane_e2e.Server.Errors.{status_ok}
use learning_crossplane_e2e.Server.Serving.{root, routes, handle}
use learning_crossplane_e2e.Server.Pages.{root_message, root_versioned, root_html, root_handler}
use learning_crossplane_e2e.Server.Startup.{Platform, Server, start, port_of}
use learning_crossplane_e2e.Server.Startup.Options.{start-listens}
use learning_crossplane_e2e.Chart.K8s.Container.{EnvVar, Container}
use learning_crossplane_e2e.Chart.K8s.Meta.{ObjectMeta}
use learning_crossplane_e2e.Chart.Exposure.{◌>>=◌}
use learning_crossplane_e2e.Chart.Props.{AppProps, any_crossplane}
use learning_crossplane_e2e.Chart.DbEnv.{db_env, set_db_env}
use learning_crossplane_e2e.Chart.Workload.{
  number_8080, main_container, get_deployment_props, get_service_props,
}
use learning_crossplane_e2e.Chart.App.{Construct, object_metadata, new_app}
use learning_crossplane_e2e.Chart.App.Build.{constructs, new_app-constructs, name_labels}
use learning_crossplane_e2e.Deployment.{listen_port, Deployed}
use learning_crossplane_e2e.Deployment.LeftOut.{getenv_left_out}
use learning_crossplane_e2e.Deployment.Probes.{
  whole, first_container, probed, probe_request, Succeeds, IsProbed,
}

root-Succeeds : Succeeds "/" root
unfolding handle root_handler run
root-Succeeds = record {
  answers = λ svc s.
      let body = root_html svc (probe_request "/") (root_versioned svc (root_message svc)) ⊕ "\n" in
      (
        record_event (text_response status_ok body) (record_event (debug "Handling request" "/") s),
        _,
        _,
        refl,
        refl,
      );
}

listens-8080 :
    (platform : Platform)
    → platform.getenv "PORT" ≡ ""
    → port_of platform ≡ itoa (whole number_8080)
unfolding port_of whole itoa
listens-8080 platform e = rw e

first_of_either :
    (b : Bool) (c : Container) (cs : List Container)
    → first (if b then c ∷ [] ++ cs else c ∷ []) ≡ some c
first_of_either true c cs = refl
first_of_either false c cs = refl

first_container_lem :
    (app : AppProps) (metadata : ObjectMeta)
    → first_container (get_deployment_props app metadata)
      ≡ some (set_db_env app (main_container app))
unfolding get_deployment_props
first_container_lem app metadata = first_of_either app.otel.enabled _ _

-- setDbEnv leaves all but the environment alone.
set_db_env_keeps {ℓ} :
    {A : Type ℓ} (app : AppProps) (f : Container → A)
    → ((env : Option (List EnvVar))
        → f (record (main_container app) { env = env }) ≡ f (main_container app))
    → f (set_db_env app (main_container app)) ≡ f (main_container app)
unfolding set_db_env
set_db_env_keeps app f same = go (app.db.enabled.helm || any_crossplane app)
  where
    go :
        (b : Bool)
        → f (
            if b
            then record (main_container app) { env = some (db_env app) }
            else main_container app)
          ≡ f (main_container app)
    go true = same _
    go false = refl

-- What is read of the first container, other than its environment.
read_of_first {ℓ} :
    {A : Type ℓ} (app : AppProps) (metadata : ObjectMeta) (f : Container → Option A)
    → ((env : Option (List EnvVar))
        → f (record (main_container app) { env = env }) ≡ f (main_container app))
    → first_container (get_deployment_props app metadata) >>= f ≡ f (main_container app)
read_of_first app metadata f same =
    ap (λ c. c >>= f) (first_container_lem app metadata) ∙ set_db_env_keeps app f same

constructs-IsProbed :
    (node_id : Option String) (id : String) (app : AppProps) (server : Server)
    → server.address ≡ ":" ⊕ itoa (whole number_8080)
    → server.routes ≡ routes
    → IsProbed server (constructs node_id id app)
unfolding constructs get_service_props
constructs-IsProbed node_id id app server listens routed = record {
  d = get_deployment_props app (object_metadata (some id) (name_labels node_id));
  s = get_service_props (object_metadata (some id) (name_labels node_id));
  rest = _;
  listed = refl;
  port = number_8080;
  path = "/";
  handler = root;
  opened =
      read_of_first app _
        (λ container. do ports ← container.ports; port ← first ports; port.container_port)
        (λ env. refl);
  targeted = refl;
  live = read_of_first app _ (λ container. probed container.liveness_probe) (λ env. refl);
  ready = read_of_first app _ (λ container. probed container.readiness_probe) (λ env. refl);
  listens = listens;
  routed = rw routed;
  succeeds = root-Succeeds;
}

-- The server in the container of the chart, if it can start, listens on the port that the container
-- declares, the service leads to and both probes use, and it answers what the probes ask for with
-- status 200.
pub start-IsProbed :
    (platform : Platform) (secret : String → String → String) (server : Server)
    (node_id : Option String) (id : String) (app : AppProps) (cs : List Construct)
    → Deployed platform.getenv secret app (main_container app)
    → start platform ≡ ok server
    → new_app node_id (some id) app ≡ some cs
    → IsProbed server cs
start-IsProbed platform secret server node_id id app cs deployed started made =
    let same : constructs node_id id app ≡ cs = cc (new_app-constructs node_id id app) in
    let (listens, routed) = start-listens platform server started in
    let unset_port = getenv_left_out platform.getenv secret app "PORT" deployed listen_port in
    rw (← same) (
      constructs-IsProbed node_id id app server
        (listens ∙ ap (λ port. ":" ⊕ port) (listens-8080 platform unset_port)) routed)
