-- ===== src/Chart/Creation/Objects.antt =====
-- Each constructor of Bindings/Classes creates its construct, if the jsii runtime accepts complete
-- props and ids that are free, and loads the packages.
use learning_crossplane_e2e.Prelude.{
  String, Bool, ◌∙◌, true, false, Option, none, some, List, [], ◌∷◌, ◌≡◌, refl, All, if◌then◌else◌,
}
use learning_crossplane_e2e.Imports.Template.{
  Load, KernelCall, initialized, value_check, guarded_call, checks_of, Checks, nil_checks,
  optional_props_checks, required_props_checks, api_class, binding,
}
use learning_crossplane_e2e.Imports.Initialize.{
  k8s_initialize, cert_manager_initialize, series_initialize, external_secrets_initialize,
  schemahero_databases_initialize, schemahero_schemas_initialize,
}
use learning_crossplane_e2e.Chart.K8s.Base.{Float64}
use learning_crossplane_e2e.Chart.K8s.Meta.{KubeSecretProps}
use learning_crossplane_e2e.Chart.K8s.Pod.{KubeDeploymentProps}
use learning_crossplane_e2e.Chart.K8s.Network.{KubeServiceProps, KubeIngressProps}
use learning_crossplane_e2e.Chart.Custom.Certificate.{CertificateProps}
use learning_crossplane_e2e.Chart.Custom.SqlClaim.{SqlClaimProps}
use learning_crossplane_e2e.Chart.Custom.ExternalSecret.{ExternalSecretProps}
use learning_crossplane_e2e.Chart.Custom.Database.{DatabaseProps}
use learning_crossplane_e2e.Chart.Custom.Table.{TableProps}
use learning_crossplane_e2e.Chart.DbResources.{HelmProps}
use learning_crossplane_e2e.Chart.App.{
  Construct, Resource, construct, deployment, service, ingress, certificate, helm, sql_claim,
  secret, external_secret, database, table,
}
use learning_crossplane_e2e.Chart.Bindings.{
  Created, Runtime, B, built, then_run, initialize_all, perform, validate_props, checked, Literal,
  text_literal, number_literal, call_static, quantity_from_string, int_or_string_from_number,
  jsii_create, new_object,
}
use learning_crossplane_e2e.Chart.Bindings.Classes.{
  new_kube_deployment, new_kube_service, new_kube_ingress, new_kube_secret, new_certificate,
  new_sql_claim, new_external_secret, new_database, new_table,
}
use learning_crossplane_e2e.Chart.Creation.{new_helm}
use learning_crossplane_e2e.Chart.Creation.Rules.{
  Accepts, class_of, embedded, class_of-known, object, taken, CanAdd, Creates,
}

module _ (rt : Runtime) (accepts : Accepts rt) (path : String) where
  create-Creates :
      (c : Construct) (kids : List Created)
      → taken path c.id kids ≡ false
      → jsii_create rt (object path c) kids ≡ built tt (object path c ∷ kids)
  unfolding jsii_create
  create-Creates c kids h =
      rw (accepts.free kids (object path c) path c.id refl refl h (class_of-known c.resource))

  initialize_all_skip :
      (loads : List Load) (m : B (Unit {0})) (kids : List Created)
      → All (λ l. embedded l ≡ true) loads
      → then_run (λ _. m) (initialize_all rt loads kids) ≡ m kids
  initialize_all_skip [] m kids _ = refl
  initialize_all_skip (l ∷ loads) m kids (h, hs) =
      rw (accepts.loadable l h) (initialize_all_skip loads m kids hs)

  checks_of_pass :
      {P : Type 0} (checking : Bool) (checks : Checks P String) (id : String) (props : P)
      → checks.new (some path) (some id) (some props) ≡ none
      → (checks_of checking checks nil_checks).new (some path) (some id) (some props) ≡ none
  checks_of_pass true checks id props h = h
  checks_of_pass false checks id props h = refl

  module _ {P : Type 0} (embed : P → Resource) (id : String) (props : P) where
    perform_created :
        (proxy : String) (error : Option String)
        → error ≡ none
        → (kids : List Created) → CanAdd path (construct id (embed props) ∷ []) kids
        → perform rt embed
            (guarded_call error (record {
              class = class_of (embed props);
              proxy = proxy;
              scope = some path;
              id = some id;
              props = some props;
            }))
            kids
          ≡ built tt (object path (construct id (embed props)) ∷ kids)
    perform_created proxy error passes kids (complete, h, _) =
        rw passes (create-Creates (construct id (embed props)) kids h)

    abbrev CreatesIt :
        (loads : List Load) → String → ((Option P → Option String) → Checks P String) → Type 0
    CreatesIt loads type checks = Creates path (construct id (embed props) ∷ []) (
        new_object rt embed
          (binding (api_class loads (class_of (embed props)) type) checks nil_checks) (some path)
          (some id) (some props))

    -- The constructor, where its checks let non-nil arguments through if the props are valid.
    new_object-Creates :
        (loads : List Load) (type : String) (checks : (Option P → Option String) → Checks P String)
        → ((validate : Option P → Option String)
            → (checks validate).new (some path) (some id) (some props) ≡ validate (some props))
        → All (λ l. embedded l ≡ true) loads
        → CreatesIt loads type checks
    unfolding new_object
    new_object-Creates loads type checks passes known_loads = record {
      run = λ kids can.
          initialize_all_skip loads _ kids known_loads
          ∙ perform_created _ _
              (checks_of_pass rt.type_checking (checks (validate_props rt embed)) id props
                (passes _ ∙ accepts.valid (embed props) can.0))
              kids can;
    }

  pub new_kube_deployment-Creates :
      (id : String) (props : KubeDeploymentProps)
      → Creates path
          (construct id (deployment props) ∷ [])
          (new_kube_deployment rt (some path) (some id) (some props))
  unfolding new_kube_deployment
  new_kube_deployment-Creates id props =
      new_object-Creates deployment id props k8s_initialize "KubeDeployment" optional_props_checks
        (λ _. refl) (refl, (refl, (refl, tt)))

  pub new_kube_service-Creates :
      (id : String) (props : KubeServiceProps)
      → Creates path
          (construct id (service props) ∷ [])
          (new_kube_service rt (some path) (some id) (some props))
  unfolding new_kube_service
  new_kube_service-Creates id props =
      new_object-Creates service id props k8s_initialize "KubeService" optional_props_checks
        (λ _. refl) (refl, (refl, (refl, tt)))

  pub new_kube_ingress-Creates :
      (id : String) (props : KubeIngressProps)
      → Creates path
          (construct id (ingress props) ∷ [])
          (new_kube_ingress rt (some path) (some id) (some props))
  unfolding new_kube_ingress
  new_kube_ingress-Creates id props =
      new_object-Creates ingress id props k8s_initialize "KubeIngress" optional_props_checks
        (λ _. refl) (refl, (refl, (refl, tt)))

  pub new_kube_secret-Creates :
      (id : String) (props : KubeSecretProps)
      → Creates path
          (construct id (secret props) ∷ [])
          (new_kube_secret rt (some path) (some id) (some props))
  unfolding new_kube_secret
  new_kube_secret-Creates id props =
      new_object-Creates secret id props k8s_initialize "KubeSecret" optional_props_checks
        (λ _. refl) (refl, (refl, (refl, tt)))

  pub new_certificate-Creates :
      (id : String) (props : CertificateProps)
      → Creates path
          (construct id (certificate props) ∷ [])
          (new_certificate rt (some path) (some id) (some props))
  unfolding new_certificate
  new_certificate-Creates id props =
      new_object-Creates certificate id props cert_manager_initialize "Certificate"
        required_props_checks (λ _. refl) (refl, (refl, (refl, tt)))

  pub new_sql_claim-Creates :
      (id : String) (props : SqlClaimProps)
      → Creates path
          (construct id (sql_claim props) ∷ [])
          (new_sql_claim rt (some path) (some id) (some props))
  unfolding new_sql_claim
  new_sql_claim-Creates id props =
      new_object-Creates sql_claim id props series_initialize "SqlClaim" required_props_checks
        (λ _. refl) (refl, (refl, (refl, tt)))

  pub new_external_secret-Creates :
      (id : String) (props : ExternalSecretProps)
      → Creates path
          (construct id (external_secret props) ∷ [])
          (new_external_secret rt (some path) (some id) (some props))
  unfolding new_external_secret
  new_external_secret-Creates id props =
      new_object-Creates external_secret id props external_secrets_initialize "ExternalSecret"
        optional_props_checks (λ _. refl) (refl, (refl, (refl, tt)))

  pub new_database-Creates :
      (id : String) (props : DatabaseProps)
      → Creates path
          (construct id (database props) ∷ [])
          (new_database rt (some path) (some id) (some props))
  unfolding new_database
  new_database-Creates id props =
      new_object-Creates database id props schemahero_databases_initialize "Database"
        required_props_checks (λ _. refl) (refl, (refl, (refl, tt)))

  pub new_table-Creates :
      (id : String) (props : TableProps)
      → Creates path
          (construct id (table props) ∷ [])
          (new_table rt (some path) (some id) (some props))
  unfolding new_table
  new_table-Creates id props =
      new_object-Creates table id props schemahero_schemas_initialize "Table" optional_props_checks
        (λ _. refl) (refl, (refl, (refl, tt)))

  pub checked-Creates : (error : Option String) → error ≡ none → Creates path [] (checked error)
  checked-Creates error h = record { run = λ kids _. rw h refl }

  pub new_helm-Creates :
      (id : String) (props : HelmProps)
      → Creates path (construct id (helm props) ∷ []) (new_helm rt (some path) (some id) props)
  unfolding new_helm
  new_helm-Creates id props = record {
    run = λ kids (complete, h, _).
        rw (accepts.valid (helm props) complete)
          (create-Creates (construct id (helm props)) kids h);
  }

  asked-static :
      (loads : List Load) (c : KernelCall (Unit {0}) Literal)
      → All (λ l. embedded l ≡ true) loads
      → rt.static_call c ≡ none
      → (error : Option String) → error ≡ none
      → Creates path [] (call_static rt (initialized loads (guarded_call error c)))
  asked-static loads c known_loads answered error passes = record {
    run = λ kids _. initialize_all_skip loads _ kids known_loads ∙ rw (passes, answered) refl;
  }

  value_check_pass :
      (checking : Bool) (l : Literal)
      → (if checking then value_check else λ (v : Option Literal). none) (some l) ≡ none
  value_check_pass true l = refl
  value_check_pass false l = refl

  pub quantity-Creates : (s : String) → Creates path [] (quantity_from_string rt s)
  unfolding quantity_from_string
  quantity-Creates s =
      asked-static k8s_initialize _ (refl, (refl, (refl, tt))) (accepts.quantities s) _
        (value_check_pass rt.type_checking (text_literal s))

  pub number-Creates : (n : Float64) → Creates path [] (int_or_string_from_number rt n)
  unfolding int_or_string_from_number
  number-Creates n =
      asked-static k8s_initialize _ (refl, (refl, (refl, tt))) (accepts.numbers n) _
        (value_check_pass rt.type_checking (number_literal n))
