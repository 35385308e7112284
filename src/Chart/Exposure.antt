-- ===== src/Chart/Exposure.antt =====
-- The ingress and the certificate of cdk8s/app.go. `*metadata.Name` panics where the name is nil,
-- and then there is no result.
use learning_crossplane_e2e.Prelude.{String, Option, none, some, List, [], ◌∷◌, if◌then◌else◌}
use learning_crossplane_e2e.Chart.K8s.Base.{StringMap, ApiObjectMetadata}
use learning_crossplane_e2e.Chart.K8s.Meta.{ObjectMeta}
use learning_crossplane_e2e.Chart.K8s.Network.{
  IngressSpec, IngressTls, IngressRule, KubeIngressProps, zero_ingress_spec, zero_ingress_backend,
  zero_service_backend_port,
}
use learning_crossplane_e2e.Chart.Custom.Certificate.{
  CertificateProps, zero_certificate_spec, zero_certificate_spec_issuer_ref,
}
use learning_crossplane_e2e.Chart.Props.{AppProps}
use learning_crossplane_e2e.Chart.Workload.{number_8080}

infixl 5 ◌>>=◌
abbrev pub ◌>>=◌ {ℓ κ} : {A : Type ℓ} {B : Type κ} → Option A → (A → Option B) → Option B
none >>= f = none
some a >>= f = f a

abbrev ingress_rule : AppProps → String → IngressRule
ingress_rule app name = record {
  host = some app.ingress.host;
  http = some (record {
    paths = some (
        record {
          path = some "/";
          path_type = some "ImplementationSpecific";
          backend = some (record zero_ingress_backend {
            service = some (record {
              name = some name;
              port = some (record zero_service_backend_port { number = some number_8080 });
            });
          });
        }
        ∷ []);
  });
}

abbrev ingress_spec : AppProps → String → Option (List IngressTls) → IngressSpec
ingress_spec app name tls = record zero_ingress_spec {
  ingress_class_name = some app.ingress.class_name;
  rules = some (ingress_rule app name ∷ []);
  tls = tls;
}

abbrev tls_labels : ObjectMeta → StringMap
tls_labels metadata =
    ("app.kubernetes.io/name", metadata.name) ∷ ("cert-manager.io/enabled", some "true") ∷ []

-- The props with `name` for `*metadata.Name`, and the metadata behind the pointer: with TLS its
-- labels are assigned anew, for the ingress and for whoever shares the pointer.
unfoldable pub ingress_of : AppProps → ObjectMeta → String → KubeIngressProps × ObjectMeta
ingress_of app metadata name =
    let secured = record metadata { labels = some (tls_labels metadata) } in
    let tls : List IngressTls =
      record { hosts = some (app.ingress.host ∷ []); secret_name = some name } ∷ [] in
    if app.tls.enabled
    then (
      record { metadata = some secured; spec = some (ingress_spec app name (some tls)) },
      secured,
    )
    else (record { metadata = some metadata; spec = some (ingress_spec app name none) }, metadata)

unfoldable pub get_ingress_props : AppProps → ObjectMeta → Option (KubeIngressProps × ObjectMeta)
unfolding ingress_of
get_ingress_props app metadata = do name ← metadata.name; some (ingress_of app metadata name)

abbrev pub certificate_of : AppProps → ApiObjectMetadata → String → CertificateProps
certificate_of app metadata name = record {
  metadata = some metadata;
  spec = some (record zero_certificate_spec {
    secret_name = some name;
    issuer_ref = some (record zero_certificate_spec_issuer_ref {
      kind = some "ClusterIssuer";
      name = some "production";
    });
    common_name = some app.ingress.host;
    dns_names = some (app.ingress.host ∷ []);
  });
}

unfoldable pub get_certificate : AppProps → ApiObjectMetadata → Option CertificateProps
get_certificate app metadata = do name ← metadata.name; some (certificate_of app metadata name)
