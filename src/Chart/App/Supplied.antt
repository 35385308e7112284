-- ===== src/Chart/App/Supplied.antt =====
-- Where NewApp of cdk8s/app.go has the password of a claim in the cloud come from.
use text.Mathlib.Text.{◌==◌ as str_eq}
use learning_crossplane_e2e.Prelude.{
  String, true, false, Option, none, some, List, [], ◌∷◌, ◌++◌, ◌≡◌, ◌↔◌, refl, ap, arith,
  if◌then◌else◌,
}
use learning_crossplane_e2e.Chart.K8s.Base.{StringMap, ApiObjectMetadata}
use learning_crossplane_e2e.Chart.Props.{AppProps, any_crossplane}
use learning_crossplane_e2e.Chart.Custom.SqlClaim.{SqlClaimProps}
use learning_crossplane_e2e.Chart.Custom.ExternalSecret.{ExternalSecretProps}
use learning_crossplane_e2e.Chart.Exposure.{◌>>=◌, ingress_of}
use learning_crossplane_e2e.Chart.Workload.{get_deployment_props, get_service_props}
use learning_crossplane_e2e.Chart.DbResources.{
  get_postgresql_crossplane, get_postgresql_external_secret,
}
use learning_crossplane_e2e.Chart.Providers.{
  any_cloud, in_opposite_order, store_name-claim_provider,
}
use learning_crossplane_e2e.Chart.App.{
  Construct, deployment, service, ingress, sql_claim, external_secret, construct,
  credential_constructs, db_constructs, schema_constructs, api_metadata, object_metadata,
  db_metadata, new_app,
}
use learning_crossplane_e2e.Chart.App.Build.{
  constructs, new_app-constructs, name_labels, certificates,
}

-- The value of a label.
abbrev pub label : String → StringMap → Option String
label key [] = none
label key (l ∷ labels) = if str_eq key l.0 then l.1 else label key labels

-- The provider that a claim selects, and the store that an external secret reads.
abbrev pub selected_provider : SqlClaimProps → Option String
selected_provider c = do
  spec ← c.spec
  selector ← spec.composition_selector
  labels ← selector.match_labels
  label "provider" labels

abbrev pub store_read : ExternalSecretProps → Option String
store_read s = do spec ← s.spec; store ← spec.secret_store_ref; store.name

pub record IsSupplied (app : AppProps) (cs : List Construct) : Type 0 where
  pub claim : SqlClaimProps
  pub password : ExternalSecretProps
  pub before : List Construct
  pub behind : List Construct
  pub listed :
      cs
      ≡ before
        ++ (construct "sqlClaim" (sql_claim claim)
            ∷ construct "external-secret" (external_secret password)
            ∷ behind)
  pub supplied : (store_read password ≡ selected_provider claim) ↔ (in_opposite_order app ≡ false)

cloud_constructs :
    (app : AppProps) (metadata : ApiObjectMetadata)
    → app.db.enabled.helm ≡ false
    → app.db.enabled.crossplane.local ≡ false
    → app.db.insecure ≡ false
    → any_cloud app ≡ true
    → db_constructs app metadata
      ≡ construct "sqlClaim" (sql_claim (get_postgresql_crossplane app metadata))
        ∷ construct "external-secret" (external_secret (get_postgresql_external_secret app))
        ∷ []
unfolding db_constructs credential_constructs
cloud_constructs app metadata helm local insecure cloud =
    let any : any_crossplane app ≡ true = ground (arith, local, cloud) in
    rw (helm, any, local, insecure) refl

-- Where a cloud provider is enabled, Helm and Local are not, and the password is not to be insecure,
-- NewApp makes a claim and an external secret next to each other, and the external secret reads the
-- store of the provider that the claim selects exactly if AWS and Azure are not enabled together
-- without Google.
pub new_app-IsSupplied :
    (node_id : Option String) (id : String) (app : AppProps)
    → app.db.enabled.helm ≡ false
    → app.db.enabled.crossplane.local ≡ false
    → app.db.insecure ≡ false
    → any_cloud app ≡ true
    → (cs : List Construct) × (new_app node_id (some id) app ≡ some cs) × IsSupplied app cs
unfolding constructs get_postgresql_crossplane get_postgresql_external_secret
new_app-IsSupplied node_id id app helm local insecure cloud =
    let metadata = api_metadata (some id) (name_labels node_id) in
    (
      constructs node_id id app,
      new_app-constructs node_id id app,
      record {
        claim = get_postgresql_crossplane app metadata;
        password = get_postgresql_external_secret app;
        before =
            construct "deployment" (
              deployment
                (get_deployment_props app (object_metadata (some id) (name_labels node_id))))
            ∷ construct "service"
                (service (get_service_props (object_metadata (some id) (name_labels node_id))))
            ∷ construct "ingress"
                (ingress (ingress_of app (object_metadata (some id) (name_labels node_id)) id).0)
            ∷ certificates node_id id app;
        behind = schema_constructs app (db_metadata (some id) (name_labels node_id));
        listed =
            ap
              (λ (db : List Construct).
                construct "deployment" (
                    deployment
                      (get_deployment_props app (object_metadata (some id) (name_labels node_id))))
                  ∷ construct "service" (
                      service (get_service_props (object_metadata (some id) (name_labels node_id))))
                  ∷ construct "ingress" (
                      ingress
                        (ingress_of app (object_metadata (some id) (name_labels node_id)) id).0)
                  ∷ certificates node_id id app
                ++ (db ++ schema_constructs app (db_metadata (some id) (name_labels node_id))))
              (cloud_constructs app metadata helm local insecure cloud);
        supplied = (
          (λ same. ((store_name-claim_provider app).0 same).1),
          (λ apart. (store_name-claim_provider app).1 (cloud, apart)),
        );
      },
    )
