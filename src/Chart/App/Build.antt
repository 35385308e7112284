-- ===== src/Chart/App/Build.antt =====
-- The constructs of NewApp in cdk8s/app.go for an id that is not nil, written out by the flags.
use learning_crossplane_e2e.Prelude.{
  String, Bool, true, false, Option, some, List, [], ◌∷◌, ◌++◌, ◌≡◌, refl, if◌then◌else◌,
}
use learning_crossplane_e2e.Chart.Props.{AppProps}
use learning_crossplane_e2e.Chart.Workload.{get_deployment_props, get_service_props}
use learning_crossplane_e2e.Chart.Exposure.{
  ingress_of, get_ingress_props, certificate_of, get_certificate,
}
use learning_crossplane_e2e.Chart.K8s.Base.{StringMap}
use learning_crossplane_e2e.Chart.App.{
  Construct, construct, deployment, service, ingress, certificate, certificate_constructs,
  db_constructs, schema_constructs, api_metadata, object_metadata, db_metadata, new_app,
}

abbrev pub name_labels : Option String → StringMap
name_labels node_id = ("app.kubernetes.io/name", node_id) ∷ []

module _ (node_id : Option String) (id : String) (app : AppProps) where
  unfoldable pub certificates : List Construct
  certificates =
      if app.tls.enabled
      then construct "certificate"
          (certificate (certificate_of app (api_metadata (some id) (name_labels node_id)) id))
        ∷ []
      else []

  certificates_by :
      (tls : Bool) (l : List Construct)
      → (if tls then some l else some []) ≡ some (if tls then l else [])
  certificates_by true l = refl
  certificates_by false l = refl

  pub certificate_constructs-certificates :
      certificate_constructs app (api_metadata (some id) (name_labels node_id)) ≡ some certificates
  unfolding certificate_constructs get_certificate certificates
  certificate_constructs-certificates = certificates_by app.tls.enabled _

  unfoldable pub constructs : List Construct
  constructs =
      construct "deployment"
          (deployment (get_deployment_props app (object_metadata (some id) (name_labels node_id))))
        ∷ construct "service"
            (service (get_service_props (object_metadata (some id) (name_labels node_id))))
        ∷ construct "ingress"
            (ingress (ingress_of app (object_metadata (some id) (name_labels node_id)) id).0)
        ∷ certificates
      ++ (db_constructs app (api_metadata (some id) (name_labels node_id))
          ++ schema_constructs app (db_metadata (some id) (name_labels node_id)))

  pub new_app-constructs : new_app node_id (some id) app ≡ some constructs
  unfolding new_app constructs get_ingress_props
  new_app-constructs = rw certificate_constructs-certificates
