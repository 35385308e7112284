-- ===== src/Deployment/Probes.antt =====
-- What Kubernetes asks of the container of the chart, and what the server in it answers.
pub mod Reached
use text.Mathlib.Text.{◌==◌ as str_eq}
use learning_crossplane_e2e.Prelude.{
  ℕ, ◌+◌, ◌-◌, ◌/◌, ◌%◌, ◌^◌, ◌⊕◌, first, String, Bool, true, false, Option, none, some, List, [],
  ◌∷◌, ◌≡◌, refl, ap, ◌∙◌, if◌then◌else◌, ◌&&◌, ◌||◌, ◌++◌,
}
use learning_crossplane_e2e.Strconv.{itoa}
use learning_crossplane_e2e.Server.State.{
  State, Event, Services, Request, done, ok, run, record_event, debug, text_response,
}
use learning_crossplane_e2e.Server.Errors.{status_ok}
use learning_crossplane_e2e.Server.Serving.{Method, get, post, Handler, root, routes, handle}
use learning_crossplane_e2e.Server.Pages.{root_message, root_versioned, root_html, root_handler}
use learning_crossplane_e2e.Server.Startup.{Platform, Server, start, port_of}
use learning_crossplane_e2e.Server.Startup.Options.{start-listens}
use learning_crossplane_e2e.Chart.K8s.Base.{Float64, IntOrString}
use learning_crossplane_e2e.Chart.K8s.Container.{EnvVar, Container, Probe}
use learning_crossplane_e2e.Chart.K8s.Meta.{ObjectMeta}
use learning_crossplane_e2e.Chart.K8s.Pod.{KubeDeploymentProps}
use learning_crossplane_e2e.Chart.K8s.Network.{KubeServiceProps}
use learning_crossplane_e2e.Chart.Exposure.{◌>>=◌}
use learning_crossplane_e2e.Chart.Props.{AppProps, any_crossplane}
use learning_crossplane_e2e.Chart.DbEnv.{db_env, set_db_env}
use learning_crossplane_e2e.Chart.Workload.{
  number_8080, main_container, get_deployment_props, get_service_props,
}
use learning_crossplane_e2e.Chart.App.{
  Construct, deployment, service, construct, object_metadata, new_app,
}
use learning_crossplane_e2e.Chart.App.Build.{constructs, new_app-constructs, name_labels}
use learning_crossplane_e2e.Deployment.{listen_port, Deployed}
use learning_crossplane_e2e.Deployment.LeftOut.{getenv_left_out}

-- A whole number from 1 to 2 ^ 52 in IEEE 754 double precision.
unfoldable pub whole : Float64 → ℕ
whole x = (2 ^ 52 + x.bits % 2 ^ 52) / 2 ^ (52 - (x.bits / 2 ^ 52 - 1023))

-- What Kubernetes reads of the deployment and the service, each behind its pointers.
abbrev pub first_container : KubeDeploymentProps → Option Container
first_container d = do
  spec ← d.spec
  template ← spec.template
  pod ← template.spec
  containers ← pod.containers
  first containers

abbrev pub container_port : KubeDeploymentProps → Option Float64
container_port d = do
  container ← first_container d
  ports ← container.ports
  port ← first ports
  port.container_port

abbrev pub probed : Option Probe → Option (String × IntOrString)
probed probe = do
  p ← probe
  action ← p.http_get
  path ← action.path
  port ← action.port
  some (path, port)

abbrev pub liveness : KubeDeploymentProps → Option (String × IntOrString)
liveness d = do container ← first_container d; probed container.liveness_probe

abbrev pub readiness : KubeDeploymentProps → Option (String × IntOrString)
readiness d = do container ← first_container d; probed container.readiness_probe

abbrev pub target_port : KubeServiceProps → Option IntOrString
target_port s = do spec ← s.spec; ports ← spec.ports; port ← first ports; port.target_port

abbrev same_method : Method → Method → Bool
same_method get get = true
same_method post post = true
same_method get post = false
same_method post get = false

-- The handler of a method and a path, by the first route that has them.
abbrev pub route : Method → String → List (Method × String × Handler) → Option Handler
route method path [] = none
route method path (r ∷ rs) =
    if same_method method r.0 && str_eq path r.1 then some r.2 else route method path rs

-- The request of a probe has a path and no query.
abbrev pub probe_request : String → Request
probe_request path = record { query = λ name. ""; request_uri = path; trace_context = "" }

-- The request of a probe gets a response with status 200, in every state.
pub record Succeeds (path : String) (h : Handler) : Type 0 where
  pub answers :
      (svc : Services) (s : State)
      → (t : State) × (body : String) × (past : List Event) × (handle svc h (probe_request path) s
          ≡ done tt t)
        × (t.trace ≡ text_response status_ok body ∷ past)

pub record IsProbed (server : Server) (cs : List Construct) : Type 0 where
  pub d : KubeDeploymentProps
  pub s : KubeServiceProps
  pub rest : List Construct
  pub listed : cs ≡ construct "deployment" (deployment d) ∷ construct "service" (service s) ∷ rest
  pub port : Float64
  pub path : String
  pub handler : Handler
  pub opened : container_port d ≡ some port
  pub targeted : target_port s ≡ some (IntOrString.from_number port)
  pub live : liveness d ≡ some (path, IntOrString.from_number port)
  pub ready : readiness d ≡ some (path, IntOrString.from_number port)
  pub listens : server.address ≡ ":" ⊕ itoa (whole port)
  pub routed : route get path server.routes ≡ some handler
  pub succeeds : Succeeds path handler
