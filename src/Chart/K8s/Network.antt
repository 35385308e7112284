-- ===== src/Chart/K8s/Network.antt =====
-- Services and ingresses of the Kubernetes API. The structs as the generated Go declares
-- them, each with its zero value and with the test that its required fields are set, in every
-- struct below it too.
use learning_crossplane_e2e.Prelude.{Bool, List, Option, String, none, true, ◌&&◌}
use learning_crossplane_e2e.Chart.K8s.Base.{
  Float64, IntOrString, NeverBuilt, StringMap, each, each_of, is_set,
}
use learning_crossplane_e2e.Chart.K8s.Meta.{ObjectMeta, object_meta_complete}

pub record ServicePort : Type 0 where
  pub port : Option Float64
  pub app_protocol : Option String
  pub name : Option String
  pub node_port : Option Float64
  pub protocol : Option String
  pub target_port : Option IntOrString

abbrev pub zero_service_port : ServicePort
zero_service_port = record {
  port = none;
  app_protocol = none;
  name = none;
  node_port = none;
  protocol = none;
  target_port = none;
}

abbrev pub service_port_complete : ServicePort → Bool
service_port_complete x = is_set x.port

pub record ServiceSpec : Type 0 where
  pub allocate_load_balancer_node_ports : Option Bool
  pub cluster_ip : Option String
  pub cluster_ips : Option (List String)
  pub external_ips : Option (List String)
  pub external_name : Option String
  pub external_traffic_policy : Option String
  pub health_check_node_port : Option Float64
  pub internal_traffic_policy : Option String
  pub ip_families : Option (List String)
  pub ip_family_policy : Option String
  pub load_balancer_class : Option String
  pub load_balancer_ip : Option String
  pub load_balancer_source_ranges : Option (List String)
  pub ports : Option (List ServicePort)
  pub publish_not_ready_addresses : Option Bool
  pub selector : Option StringMap
  pub session_affinity : Option String
  pub session_affinity_config : Option NeverBuilt
  pub type : Option String

abbrev pub zero_service_spec : ServiceSpec
zero_service_spec = record {
  allocate_load_balancer_node_ports = none;
  cluster_ip = none;
  cluster_ips = none;
  external_ips = none;
  external_name = none;
  external_traffic_policy = none;
  health_check_node_port = none;
  internal_traffic_policy = none;
  ip_families = none;
  ip_family_policy = none;
  load_balancer_class = none;
  load_balancer_ip = none;
  load_balancer_source_ranges = none;
  ports = none;
  publish_not_ready_addresses = none;
  selector = none;
  session_affinity = none;
  session_affinity_config = none;
  type = none;
}

abbrev pub service_spec_complete : ServiceSpec → Bool
service_spec_complete x = each_of service_port_complete x.ports

pub record KubeServiceProps : Type 0 where
  pub metadata : Option ObjectMeta
  pub spec : Option ServiceSpec

abbrev pub zero_kube_service_props : KubeServiceProps
zero_kube_service_props = record { metadata = none; spec = none }

abbrev pub kube_service_props_complete : KubeServiceProps → Bool
kube_service_props_complete x =
    each object_meta_complete x.metadata && each service_spec_complete x.spec

pub record ServiceBackendPort : Type 0 where
  pub name : Option String
  pub number : Option Float64

abbrev pub zero_service_backend_port : ServiceBackendPort
zero_service_backend_port = record { name = none; number = none }

abbrev pub service_backend_port_complete : ServiceBackendPort → Bool
service_backend_port_complete x = true

pub record IngressServiceBackend : Type 0 where
  pub name : Option String
  pub port : Option ServiceBackendPort

abbrev pub zero_ingress_service_backend : IngressServiceBackend
zero_ingress_service_backend = record { name = none; port = none }

abbrev pub ingress_service_backend_complete : IngressServiceBackend → Bool
ingress_service_backend_complete x = is_set x.name && each service_backend_port_complete x.port

pub record IngressBackend : Type 0 where
  pub resource : Option NeverBuilt
  pub service : Option IngressServiceBackend

abbrev pub zero_ingress_backend : IngressBackend
zero_ingress_backend = record { resource = none; service = none }

abbrev pub ingress_backend_complete : IngressBackend → Bool
ingress_backend_complete x = each ingress_service_backend_complete x.service

pub record HttpIngressPath : Type 0 where
  pub backend : Option IngressBackend
  pub path_type : Option String
  pub path : Option String

abbrev pub zero_http_ingress_path : HttpIngressPath
zero_http_ingress_path = record { backend = none; path_type = none; path = none }

abbrev pub http_ingress_path_complete : HttpIngressPath → Bool
http_ingress_path_complete x =
    is_set x.backend && each ingress_backend_complete x.backend && is_set x.path_type

pub record HttpIngressRuleValue : Type 0 where
  pub paths : Option (List HttpIngressPath)

abbrev pub zero_http_ingress_rule_value : HttpIngressRuleValue
zero_http_ingress_rule_value = record { paths = none }

abbrev pub http_ingress_rule_value_complete : HttpIngressRuleValue → Bool
http_ingress_rule_value_complete x = is_set x.paths && each_of http_ingress_path_complete x.paths

pub record IngressRule : Type 0 where
  pub host : Option String
  pub http : Option HttpIngressRuleValue

abbrev pub zero_ingress_rule : IngressRule
zero_ingress_rule = record { host = none; http = none }

abbrev pub ingress_rule_complete : IngressRule → Bool
ingress_rule_complete x = each http_ingress_rule_value_complete x.http

pub record IngressTls : Type 0 where
  pub hosts : Option (List String)
  pub secret_name : Option String

abbrev pub zero_ingress_tls : IngressTls
zero_ingress_tls = record { hosts = none; secret_name = none }

abbrev pub ingress_tls_complete : IngressTls → Bool
ingress_tls_complete x = true

pub record IngressSpec : Type 0 where
  pub default_backend : Option IngressBackend
  pub ingress_class_name : Option String
  pub rules : Option (List IngressRule)
  pub tls : Option (List IngressTls)

abbrev pub zero_ingress_spec : IngressSpec
zero_ingress_spec = record {
  default_backend = none;
  ingress_class_name = none;
  rules = none;
  tls = none;
}

abbrev pub ingress_spec_complete : IngressSpec → Bool
ingress_spec_complete x =
    each ingress_backend_complete x.default_backend
    && each_of ingress_rule_complete x.rules
    && each_of ingress_tls_complete x.tls

pub record KubeIngressProps : Type 0 where
  pub metadata : Option ObjectMeta
  pub spec : Option IngressSpec

abbrev pub zero_kube_ingress_props : KubeIngressProps
zero_kube_ingress_props = record { metadata = none; spec = none }

abbrev pub kube_ingress_props_complete : KubeIngressProps → Bool
kube_ingress_props_complete x =
    each object_meta_complete x.metadata && each ingress_spec_complete x.spec
