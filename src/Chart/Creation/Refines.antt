-- ===== src/Chart/Creation/Refines.antt =====
-- The run of NewApp against the list of its constructs.
use learning_crossplane_e2e.Prelude.{String, Option, some, List, [], ◌∷◌, inl, ◌≡◌, ap, subst}
use learning_crossplane_e2e.Chart.K8s.Base.{ApiObjectMetadata}
use learning_crossplane_e2e.Chart.Props.{AppProps, any_crossplane}
use learning_crossplane_e2e.Chart.Exposure.{get_ingress_props, get_certificate}
use learning_crossplane_e2e.Chart.App.{
  Construct, credential_constructs, db_constructs, schema_constructs, api_metadata, new_app,
}
use learning_crossplane_e2e.Chart.App.Build.{
  name_labels, certificates, constructs, new_app-constructs,
}
use learning_crossplane_e2e.Chart.App.Complete.{new_app-IsComplete}
use learning_crossplane_e2e.Chart.App.Ids.{new_app-ids-distinct}
use learning_crossplane_e2e.Chart.Bindings.{Runtime, built, then_run}
use learning_crossplane_e2e.Chart.Creation.{
  deployment_values, service_values, create_certificate, create_credentials, create_db,
  create_schema, create_objects, create_app,
}
use learning_crossplane_e2e.Chart.Creation.Rules.{
  Accepts, objects, CanAdd, Creates, skip-Creates, both-Creates, if-Creates, CanAdd-new,
}
use learning_crossplane_e2e.Chart.Creation.Objects.{
  new_kube_deployment-Creates, new_kube_service-Creates, new_kube_ingress-Creates,
  new_kube_secret-Creates, new_certificate-Creates, new_sql_claim-Creates,
  new_external_secret-Creates, new_database-Creates, new_table-Creates, new_helm-Creates,
  checked-Creates, quantity-Creates, number-Creates,
}

module _ (rt : Runtime) (accepts : Accepts rt) where
  module _ (path : String) (app : AppProps) where
    credentials-Creates : Creates path (credential_constructs app) (create_credentials rt path app)
    unfolding credential_constructs create_credentials
    credentials-Creates = if-Creates path app.db.enabled.crossplane.local _ _ (skip-Creates path) (
        if-Creates path app.db.insecure _ _ (new_kube_secret-Creates rt accepts path _ _)
          (new_external_secret-Creates rt accepts path _ _))

    db-Creates :
        (metadata : ApiObjectMetadata)
        → Creates path (db_constructs app metadata) (create_db rt path app metadata)
    unfolding db_constructs create_db
    db-Creates metadata =
        if-Creates path app.db.enabled.helm _ _ (new_helm-Creates rt accepts path _ _) (
          if-Creates path (any_crossplane app) _ _
            (both-Creates path (_ ∷ []) _ (new_sql_claim-Creates rt accepts path _ _)
              credentials-Creates)
            (skip-Creates path))

    schema-Creates :
        (metadata : ApiObjectMetadata)
        → Creates path (schema_constructs app metadata) (create_schema rt path app metadata)
    unfolding schema_constructs create_schema
    schema-Creates metadata =
        if-Creates path app.schema_hero.enabled _ _
          (both-Creates path (_ ∷ []) _ (new_database-Creates rt accepts path _ _)
            (new_table-Creates rt accepts path _ _))
          (skip-Creates path)

    certificates-Creates :
        (id : String)
        → Creates path (certificates (rt.node_id path) id app) (
            create_certificate rt path app (api_metadata (some id) (name_labels (rt.node_id path))))
    unfolding certificates create_certificate get_certificate
    certificates-Creates id =
        if-Creates path app.tls.enabled _ _ (new_certificate-Creates rt accepts path _ _)
          (skip-Creates path)

    deployment_values-Creates : Creates path [] (deployment_values rt)
    unfolding deployment_values
    deployment_values-Creates = both-Creates path [] [] (quantity-Creates rt accepts path "500m") (
        both-Creates path [] [] (quantity-Creates rt accepts path "512Mi") (
          both-Creates path [] [] (quantity-Creates rt accepts path "250m") (
            both-Creates path [] [] (quantity-Creates rt accepts path "256Mi") (
              both-Creates path [] [] (number-Creates rt accepts path _)
                (number-Creates rt accepts path _)))))

    service_values-Creates : Creates path [] (service_values rt)
    unfolding service_values
    service_values-Creates = number-Creates rt accepts path _

    objects-Creates :
        (id : String)
        → Creates path (constructs (rt.node_id path) id app) (create_objects rt path app (some id))
    unfolding constructs create_objects get_ingress_props
    objects-Creates id =
        both-Creates path [] _ (checked-Creates rt accepts path _ (accepts.has_node path)) (
          both-Creates path [] _ deployment_values-Creates (
            both-Creates path (_ ∷ []) _ (new_kube_deployment-Creates rt accepts path _ _) (
              both-Creates path [] _ service_values-Creates (
                both-Creates path (_ ∷ []) _ (new_kube_service-Creates rt accepts path _ _) (
                  both-Creates path (_ ∷ []) _ (new_kube_ingress-Creates rt accepts path _ _) (
                    both-Creates path (certificates (rt.node_id path) id app) _
                      (certificates-Creates id)
                      (both-Creates path _ _ (db-Creates _) (schema-Creates _))))))))

  create_app_built :
      (scope : Option String) (path id : String) (app : AppProps)
      → rt.new_construct scope (some id) ≡ inl path
      → CanAdd path (constructs (rt.node_id path) id app) []
      → create_app rt scope (some id) app []
        ≡ built path (objects path (constructs (rt.node_id path) id app) [])
  unfolding create_app
  create_app_built scope path id app e can =
      rw e (ap (then_run (λ _ kids. built path kids)) ((objects-Creates path app id).run [] can))

-- NewApp with an id, in a scope that accepts it, never panics: it creates just the constructs of
-- `new_app`, each as an object of its own class, whether or not the parameters are checked. The jsii
-- runtime is to load the embedded libraries, to have a node for each construct, to make quantities of
-- texts and ports of numbers, and to accept each props with its required fields set, and each object
-- of a registered class whose id no other object of the scope has.
pub create_app-new_app :
    (rt : Runtime) (scope : Option String) (path id : String) (app : AppProps)
    → Accepts rt
    → rt.new_construct scope (some id) ≡ inl path
    → (cs : List Construct) × (new_app (rt.node_id path) (some id) app ≡ some cs)
      × (create_app rt scope (some id) app [] ≡ built path (objects path cs []))
create_app-new_app rt scope path id app accepts e =
    let (cs, made, complete) = new_app-IsComplete (rt.node_id path) id app in
    let made_by = new_app-constructs (rt.node_id path) id app in
    let same : constructs (rt.node_id path) id app ≡ cs = cc in
    let can = CanAdd-new path cs complete (new_app-ids-distinct (rt.node_id path) id app cs made) in
    (
      cs,
      made,
      subst
          (λ (l : List Construct).
            CanAdd path l []
            → create_app rt scope (some id) app [] ≡ built path (objects path l []))
          same (create_app_built rt accepts scope path id app e) can,
    )
