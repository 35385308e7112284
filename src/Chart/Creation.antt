-- ===== src/Chart/Creation.antt =====
-- NewApp of cdk8s/app.go as it runs: the calls of the constructors, in order, with the nil pointers
-- and the refused parameters at which it panics.
pub mod Rules
pub mod Objects
pub mod Refines
use learning_crossplane_e2e.Prelude.{
  String, Option, none, some, List, [], ◌∷◌, ◌⊎◌, inl, inr, if◌then◌else◌,
}
use learning_crossplane_e2e.Chart.K8s.Base.{StringMap, ApiObjectMetadata}
use learning_crossplane_e2e.Chart.Props.{AppProps, any_crossplane}
use learning_crossplane_e2e.Chart.Workload.{number_8080, get_deployment_props, get_service_props}
use learning_crossplane_e2e.Chart.Exposure.{get_ingress_props, get_certificate}
use learning_crossplane_e2e.Chart.DbResources.{
  HelmProps, get_postgresql_helm, get_postgresql_crossplane, get_postgresql_secret,
  get_postgresql_external_secret,
}
use learning_crossplane_e2e.Chart.Schema.{get_postgresql_database, get_postgresql_table}
use learning_crossplane_e2e.Chart.App.{helm, api_metadata, object_metadata, db_metadata}
use learning_crossplane_e2e.Chart.App.Build.{name_labels}
use learning_crossplane_e2e.Chart.Bindings.{
  Created, Runtime, B, built, panicked, then_run, ◌>>=◌, ◌>>◌, skip, checked, jsii_create,
  quantity_from_string, int_or_string_from_number,
}
use learning_crossplane_e2e.Chart.Bindings.Classes.{
  new_kube_deployment, new_kube_service, new_kube_ingress, new_kube_secret, new_certificate,
  new_sql_claim, new_external_secret, new_database, new_table,
}

-- `*p`
abbrev pub deref {ℓ} : {A : Type ℓ} → Option A → B A
deref none kids = panicked "invalid memory address or nil pointer dereference" kids
deref (some a) kids = built a kids

-- `constructs.NewConstruct`
abbrev pub constructed : String ⊎ String → B String
constructed (inl path) kids = built path kids
constructed (inr message) kids = panicked message kids

module _ (rt : Runtime) where
  -- `cdk8s.NewHelm`, which validates its props as well; the object is told by its class.
  unfoldable pub new_helm : Option String → Option String → HelmProps → B (Unit {0})
  unfolding jsii_create
  new_helm scope id props =
      checked (rt.validate_struct (some (helm props)))
      >> jsii_create rt
          (record { class = "cdk8s.Helm"; scope = scope; id = id; props = some (helm props) })

  -- The values that getDeploymentProps and getServiceProps ask the runtime for, in their order.
  unfoldable pub deployment_values : B (Unit {0})
  unfolding quantity_from_string int_or_string_from_number
  deployment_values =
      quantity_from_string rt "500m"
      >> (quantity_from_string rt "512Mi"
          >> (quantity_from_string rt "250m"
              >> (quantity_from_string rt "256Mi"
                  >> (int_or_string_from_number rt number_8080
                      >> int_or_string_from_number rt number_8080))))

  unfoldable pub service_values : B (Unit {0})
  unfolding int_or_string_from_number
  service_values = int_or_string_from_number rt number_8080

  module _ (path : String) (app : AppProps) where
    unfoldable pub create_certificate : ApiObjectMetadata → B (Unit {0})
    create_certificate metadata =
        if app.tls.enabled
        then deref (get_certificate app metadata)
          >>= (λ props. new_certificate rt (some path) (some "certificate") (some props))
        else skip

    unfoldable pub create_credentials : B (Unit {0})
    create_credentials =
        if app.db.enabled.crossplane.local
        then skip
        else if app.db.insecure
        then new_kube_secret rt (some path) (some "secret") (some (get_postgresql_secret app))
        else new_external_secret rt (some path) (some "external-secret")
            (some (get_postgresql_external_secret app))

    unfoldable pub create_db : ApiObjectMetadata → B (Unit {0})
    unfolding create_credentials
    create_db metadata =
        if app.db.enabled.helm
        then new_helm (some path) (some "postgresql") (get_postgresql_helm app)
        else if any_crossplane app
        then new_sql_claim rt (some path) (some "sqlClaim")
            (some (get_postgresql_crossplane app metadata))
          >> create_credentials
        else skip

    unfoldable pub create_schema : ApiObjectMetadata → B (Unit {0})
    create_schema metadata =
        if app.schema_hero.enabled
        then new_database rt (some path) (some "database")
            (some (get_postgresql_database app metadata))
          >> new_table rt (some path) (some "table") (some (get_postgresql_table app metadata))
        else skip

    -- What follows `NewConstruct`.
    unfoldable pub create_objects : Option String → B (Unit {0})
    unfolding deployment_values service_values create_certificate create_db create_schema
    create_objects id =
        let labels = name_labels (rt.node_id path) in
        let metadata = object_metadata id labels in
        checked (rt.node_of path)
        >> (deployment_values
            >> (new_kube_deployment rt (some path) (some "deployment")
                  (some (get_deployment_props app metadata))
                >> (service_values
                    >> (new_kube_service rt (some path) (some "service")
                          (some (get_service_props metadata))
                        >> (deref (get_ingress_props app metadata) >>= λ props.
                            new_kube_ingress rt (some path) (some "ingress") (some props.0)
                            >> (create_certificate (api_metadata id labels)
                                >> (create_db (api_metadata id labels)
                                    >> create_schema (db_metadata id labels))))))))

  unfoldable pub create_app : Option String → Option String → AppProps → B String
  unfolding create_objects
  create_app scope id app = constructed (rt.new_construct scope id) >>= λ path.
      create_objects path app id >>= λ _ kids. built path kids
