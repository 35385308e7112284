-- ===== src/Chart/Workload.antt =====
-- The deployment and the service of cdk8s/app.go.
use learning_crossplane_e2e.Prelude.{◌⊕◌, true, some, [], ◌∷◌, ◌++◌, if◌then◌else◌}
use learning_crossplane_e2e.Chart.K8s.Base.{Float64, Quantity, IntOrString}
use learning_crossplane_e2e.Chart.K8s.Meta.{ObjectMeta, zero_label_selector}
use learning_crossplane_e2e.Chart.K8s.Container.{
  Container, Probe, zero_container, zero_container_port, zero_probe, zero_http_get_action,
  zero_security_context,
}
use learning_crossplane_e2e.Chart.K8s.Pod.{KubeDeploymentProps, zero_pod_spec, zero_deployment_spec}
use learning_crossplane_e2e.Chart.K8s.Network.{
  KubeServiceProps, zero_service_port, zero_service_spec,
}
use learning_crossplane_e2e.Chart.Props.{AppProps}
use learning_crossplane_e2e.Chart.DbEnv.{env_value, set_db_env}

-- `jsii.Number(8080)` and `jsii.Number(0)`
abbrev pub number_8080 : Float64
number_8080 = record { bits = 0x40BF900000000000 }

abbrev number_0 : Float64
number_0 = record { bits = 0 }

abbrev http_probe : Probe
http_probe = record zero_probe {
  http_get = some (record zero_http_get_action {
    path = some "/";
    port = some (IntOrString.from_number number_8080);
  });
}

-- The container as the literal of getDeploymentProps gives it, before setDbEnv.
abbrev pub main_container : AppProps → Container
main_container app = record zero_container {
  name = some "main";
  image = some (app.image.repository ⊕ ":" ⊕ app.image.tag);
  ports = some (record zero_container_port { container_port = some number_8080 } ∷ []);
  resources = some (record {
    limits =
        some (("cpu", Quantity.from_string "500m") ∷ ("memory", Quantity.from_string "512Mi") ∷ []);
    requests =
        some (("cpu", Quantity.from_string "250m") ∷ ("memory", Quantity.from_string "256Mi") ∷ []);
  });
  liveness_probe = some http_probe;
  readiness_probe = some http_probe;
}

abbrev otel_container : AppProps → Container
otel_container app = record zero_container {
  name = some "instrumentation";
  image = some "otel/autoinstrumentation-go";
  env = some (
      env_value "OTEL_GO_AUTO_TARGET_EXE" "/usr/local/bin/cncf-demo"
      ∷ env_value "OTEL_EXPORTER_OTLP_ENDPOINT" app.otel.jaeger_addr
      ∷ env_value "OTEL_SERVICE_NAME" app.name
      ∷ env_value "OTEL_PROPAGATORS" "tracecontext,baggage"
      ∷ []);
  security_context =
      some (record zero_security_context { privileged = some true; run_as_user = some number_0 });
}

unfoldable pub get_deployment_props : AppProps → ObjectMeta → KubeDeploymentProps
unfolding set_db_env
get_deployment_props app metadata =
    let containers = set_db_env app (main_container app) ∷ [] in
    let all_containers =
      if app.otel.enabled then containers ++ otel_container app ∷ [] else containers in
    record {
      metadata = some metadata;
      spec = some (record zero_deployment_spec {
        replicas = some app.replicas;
        selector = some (record zero_label_selector { match_labels = metadata.labels });
        template = some (record {
          metadata = some metadata;
          spec = some (record zero_pod_spec {
            containers = some all_containers;
            share_process_namespace = some app.otel.enabled;
          });
        });
      });
    }

unfoldable pub get_service_props : ObjectMeta → KubeServiceProps
get_service_props metadata = record {
  metadata = some metadata;
  spec = some (record zero_service_spec {
    type = some "ClusterIP";
    ports = some (
        record zero_service_port {
          port = some number_8080;
          target_port = some (IntOrString.from_number number_8080);
          protocol = some "TCP";
          name = some "http";
        }
        ∷ []);
    selector = metadata.labels;
  });
}
