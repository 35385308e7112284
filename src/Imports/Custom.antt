-- ===== src/Imports/Custom.antt =====
-- The classes of the custom resources: Certificate in cdk8s/imports/certmanagerio, SqlClaim in
-- devopstoolkitseriescom, ExternalSecret and ExternalSecretV1Beta1 in externalsecretsio, Database
-- in databasesschemaheroio and Table in schemasschemaheroio, with the files of their checks.
use learning_crossplane_e2e.Prelude.{String, Option, List, [], ◌∷◌}
use learning_crossplane_e2e.Imports.Template.{
  Checks, ApiClass, KernelCall, Attempt, Initialized, optional_props_checks, required_props_checks,
  nil_checks, api_class, Binding, binding, is_api_object,
}
use learning_crossplane_e2e.Imports.Initialize.{
  cert_manager_initialize, external_secrets_initialize, schemahero_databases_initialize,
  schemahero_schemas_initialize, series_initialize,
}

module _ {P X : Type 0} where
  abbrev pub certificate_class : Checks P X → ApiClass P X
  certificate_class = api_class cert_manager_initialize "cert-managerio.Certificate" "Certificate"

  abbrev pub certificate_checks : (Option P → Option String) → Checks P X
  certificate_checks = required_props_checks

  abbrev pub certificate_no_checks : Checks P X
  certificate_no_checks = nil_checks

  abbrev pub database_class : Checks P X → ApiClass P X
  database_class =
      api_class schemahero_databases_initialize "databasesschemaheroio.Database" "Database"

  abbrev pub database_checks : (Option P → Option String) → Checks P X
  database_checks = required_props_checks

  abbrev pub database_no_checks : Checks P X
  database_no_checks = nil_checks

  abbrev pub sql_claim_class : Checks P X → ApiClass P X
  sql_claim_class = api_class series_initialize "devopstoolkitseriescom.SqlClaim" "SqlClaim"

  abbrev pub sql_claim_checks : (Option P → Option String) → Checks P X
  sql_claim_checks = required_props_checks

  abbrev pub sql_claim_no_checks : Checks P X
  sql_claim_no_checks = nil_checks

  abbrev pub external_secret_class : Checks P X → ApiClass P X
  external_secret_class =
      api_class external_secrets_initialize "external-secretsio.ExternalSecret" "ExternalSecret"

  abbrev pub external_secret_checks : (Option P → Option String) → Checks P X
  external_secret_checks = optional_props_checks

  abbrev pub external_secret_no_checks : Checks P X
  external_secret_no_checks = nil_checks

  abbrev pub external_secret_is_api_object :
      (Option X → Option String) → Option X → Initialized (Attempt (KernelCall P X))
  external_secret_is_api_object =
      is_api_object external_secrets_initialize "external-secretsio.ExternalSecret"

  abbrev pub external_secret_v1_beta1_class : Checks P X → ApiClass P X
  external_secret_v1_beta1_class =
      api_class external_secrets_initialize "external-secretsio.ExternalSecretV1Beta1"
        "ExternalSecretV1Beta1"

  abbrev pub external_secret_v1_beta1_checks : (Option P → Option String) → Checks P X
  external_secret_v1_beta1_checks = optional_props_checks

  abbrev pub external_secret_v1_beta1_no_checks : Checks P X
  external_secret_v1_beta1_no_checks = nil_checks

  abbrev pub external_secret_v1_beta1_is_api_object :
      (Option X → Option String) → Option X → Initialized (Attempt (KernelCall P X))
  external_secret_v1_beta1_is_api_object =
      is_api_object external_secrets_initialize "external-secretsio.ExternalSecretV1Beta1"

  abbrev pub table_class : Checks P X → ApiClass P X
  table_class = api_class schemahero_schemas_initialize "schemasschemaheroio.Table" "Table"

  abbrev pub table_checks : (Option P → Option String) → Checks P X
  table_checks = optional_props_checks

  abbrev pub table_no_checks : Checks P X
  table_no_checks = nil_checks

  abbrev pub cert_manager_bindings : List (Binding P X)
  cert_manager_bindings = binding certificate_class certificate_checks certificate_no_checks ∷ []

  abbrev pub series_bindings : List (Binding P X)
  series_bindings = binding sql_claim_class sql_claim_checks sql_claim_no_checks ∷ []

  abbrev pub external_secrets_bindings : List (Binding P X)
  external_secrets_bindings =
      binding external_secret_class external_secret_checks external_secret_no_checks
      ∷ binding external_secret_v1_beta1_class external_secret_v1_beta1_checks
          external_secret_v1_beta1_no_checks
      ∷ []

  abbrev pub schemahero_databases_bindings : List (Binding P X)
  schemahero_databases_bindings = binding database_class database_checks database_no_checks ∷ []

  abbrev pub schemahero_schemas_bindings : List (Binding P X)
  schemahero_schemas_bindings = binding table_class table_checks table_no_checks ∷ []
