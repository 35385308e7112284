-- ===== src/Chart/App/Secured.antt =====
-- What NewApp of cdk8s/app.go makes for TLS: the ingress and the certificate that cert-manager issues.
use learning_crossplane_e2e.Prelude.{
  first, String, true, Option, none, some, List, [], ◌∷◌, ◌++◌, ◌≡◌, ◌≢◌, arith,
}
use learning_crossplane_e2e.Chart.Props.{AppProps}
use learning_crossplane_e2e.Chart.K8s.Network.{KubeIngressProps, IngressTls}
use learning_crossplane_e2e.Chart.Custom.Certificate.{CertificateProps}
use learning_crossplane_e2e.Chart.Workload.{get_deployment_props, get_service_props}
use learning_crossplane_e2e.Chart.Exposure.{◌>>=◌, ingress_of, certificate_of}
use learning_crossplane_e2e.Chart.App.{
  Construct, deployment, service, ingress, certificate, construct, db_constructs, schema_constructs,
  api_metadata, object_metadata, db_metadata, new_app,
}
use learning_crossplane_e2e.Chart.App.Build.{
  constructs, new_app-constructs, name_labels, certificates,
}

-- The first entry of the ingress for TLS, and the host of its first rule.
abbrev pub ingress_tls : KubeIngressProps → Option IngressTls
ingress_tls i = do spec ← i.spec; entries ← spec.tls; first entries

abbrev pub ingress_host : KubeIngressProps → Option String
ingress_host i = do spec ← i.spec; rules ← spec.rules; rule ← first rules; rule.host

abbrev pub tls_secret : KubeIngressProps → Option String
tls_secret i = do entry ← ingress_tls i; entry.secret_name

abbrev pub tls_hosts : KubeIngressProps → Option (List String)
tls_hosts i = do entry ← ingress_tls i; entry.hosts

abbrev pub certificate_secret : CertificateProps → Option String
certificate_secret c = do spec ← c.spec; spec.secret_name

abbrev pub certificate_name : CertificateProps → Option String
certificate_name c = do spec ← c.spec; spec.common_name

abbrev pub certificate_hosts : CertificateProps → Option (List String)
certificate_hosts c = do spec ← c.spec; spec.dns_names

pub record IsSecured (cs : List Construct) : Type 0 where
  pub i : KubeIngressProps
  pub c : CertificateProps
  pub before : List Construct
  pub rest : List Construct
  pub listed :
      cs
      ≡ before ++ construct "ingress" (ingress i) ∷ construct "certificate" (certificate c) ∷ rest
  pub same_secret : (tls_secret i ≡ certificate_secret c) × (certificate_secret c ≢ none)
  pub same_hosts : tls_hosts i ≡ certificate_hosts c
  pub same_host : (ingress_host i ≡ certificate_name c) × (certificate_name c ≢ none)

constructs-IsSecured :
    (node_id : Option String) (id : String) (app : AppProps)
    → app.tls.enabled ≡ true
    → IsSecured (constructs node_id id app)
unfolding constructs certificates ingress_of
constructs-IsSecured node_id id app tls = record {
  i = (ingress_of app (object_metadata (some id) (name_labels node_id)) id).0;
  c = certificate_of app (api_metadata (some id) (name_labels node_id)) id;
  before =
      construct "deployment"
        (deployment (get_deployment_props app (object_metadata (some id) (name_labels node_id))))
      ∷ construct "service"
          (service (get_service_props (object_metadata (some id) (name_labels node_id))))
      ∷ [];
  rest =
      db_constructs app (api_metadata (some id) (name_labels node_id))
      ++ schema_constructs app (db_metadata (some id) (name_labels node_id));
  listed = rw tls;
  same_secret = (ground (arith, tls), cc);
  same_hosts = ground (arith, tls);
  same_host = (ground (arith, tls), cc);
}

-- With TLS, NewApp makes a certificate next to the ingress: it is kept in the secret that the ingress
-- reads, and it is for the hosts that the ingress serves.
pub new_app-IsSecured :
    (node_id : Option String) (id : String) (app : AppProps)
    → app.tls.enabled ≡ true
    → (cs : List Construct) × (new_app node_id (some id) app ≡ some cs) × IsSecured cs
new_app-IsSecured node_id id app tls = (
  constructs node_id id app,
  new_app-constructs node_id id app,
  constructs-IsSecured node_id id app tls,
)
