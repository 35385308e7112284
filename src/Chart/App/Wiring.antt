-- ===== src/Chart/App/Wiring.antt =====
-- How the deployment, the service and the ingress of NewApp in cdk8s/app.go refer to one another.
use learning_crossplane_e2e.Prelude.{
  first, String, Option, none, some, List, ◌∷◌, ◌≡◌, refl, ◌≢◌, arith,
}
use learning_crossplane_e2e.Chart.Props.{AppProps}
use learning_crossplane_e2e.Chart.K8s.Base.{StringMap, Float64}
use learning_crossplane_e2e.Chart.K8s.Pod.{KubeDeploymentProps}
use learning_crossplane_e2e.Chart.K8s.Network.{
  KubeServiceProps, KubeIngressProps, IngressServiceBackend,
}
use learning_crossplane_e2e.Chart.Workload.{get_deployment_props, get_service_props}
use learning_crossplane_e2e.Chart.Exposure.{◌>>=◌, ingress_of}
use learning_crossplane_e2e.Chart.App.{
  Construct, deployment, service, ingress, construct, object_metadata, new_app,
}
use learning_crossplane_e2e.Chart.App.Build.{constructs, new_app-constructs, name_labels}

-- What Kubernetes reads of the three objects, each behind its pointers.
abbrev pub pod_labels : KubeDeploymentProps → Option StringMap
pod_labels d = do
  spec ← d.spec
  template ← spec.template
  metadata ← template.metadata
  metadata.labels

abbrev pub deployment_selector : KubeDeploymentProps → Option StringMap
deployment_selector d = do spec ← d.spec; selector ← spec.selector; selector.match_labels

abbrev pub service_selector : KubeServiceProps → Option StringMap
service_selector s = do spec ← s.spec; spec.selector

abbrev pub service_name : KubeServiceProps → Option String
service_name s = do metadata ← s.metadata; metadata.name

abbrev pub service_port : KubeServiceProps → Option Float64
service_port s = do spec ← s.spec; ports ← spec.ports; port ← first ports; port.port

-- The service of the first path of the first rule.
abbrev pub backend_service : KubeIngressProps → Option IngressServiceBackend
backend_service i = do
  spec ← i.spec
  rules ← spec.rules
  rule ← first rules
  http ← rule.http
  paths ← http.paths
  path ← first paths
  backend ← path.backend
  backend.service

abbrev pub backend_name : KubeIngressProps → Option String
backend_name i = do backend ← backend_service i; backend.name

abbrev pub backend_port : KubeIngressProps → Option Float64
backend_port i = do backend ← backend_service i; port ← backend.port; port.number

pub record IsWired (labels : StringMap) (cs : List Construct) : Type 0 where
  pub d : KubeDeploymentProps
  pub s : KubeServiceProps
  pub i : KubeIngressProps
  pub rest : List Construct
  pub listed :
      cs
      ≡ construct "deployment" (deployment d)
        ∷ construct "service" (service s)
        ∷ construct "ingress" (ingress i)
        ∷ rest
  pub labelled : pod_labels d ≡ some labels
  pub selected : deployment_selector d ≡ some labels
  pub served : service_selector s ≡ some labels
  pub named : backend_name i ≡ service_name s
  pub given : service_name s ≢ none
  pub ported : (backend_port i ≡ service_port s) × (service_port s ≢ none)

constructs-IsWired :
    (node_id : Option String) (id : String) (app : AppProps)
    → IsWired (name_labels node_id) (constructs node_id id app)
unfolding constructs get_deployment_props get_service_props ingress_of
constructs-IsWired node_id id app = record {
  d = get_deployment_props app (object_metadata (some id) (name_labels node_id));
  s = get_service_props (object_metadata (some id) (name_labels node_id));
  i = (ingress_of app (object_metadata (some id) (name_labels node_id)) id).0;
  rest = _;
  listed = refl;
  labelled = refl;
  selected = refl;
  served = refl;
  named = ground arith;
  given = cc;
  ported = (ground arith, cc);
}

-- Whatever the values, with TLS or without, NewApp makes a deployment, a service and an ingress
-- first. The pods carry the label of the construct's node, the deployment and the service both
-- select by just that label, and the ingress leads to the service by its name and its port.
pub new_app-IsWired :
    (node_id : Option String) (id : String) (app : AppProps) (cs : List Construct)
    → new_app node_id (some id) app ≡ some cs
    → IsWired (name_labels node_id) cs
new_app-IsWired node_id id app cs e =
    let same : constructs node_id id app ≡ cs = cc (new_app-constructs node_id id app) in
    rw (← same) (constructs-IsWired node_id id app)
