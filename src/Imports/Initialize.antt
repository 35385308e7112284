-- ===== src/Imports/Initialize.antt =====
-- `Initialize` of each package: jsii/jsii.go in its directory under cdk8s/imports. A loaded library
-- is in the archive that is embedded next to it, which is not text.
use learning_crossplane_e2e.Prelude.{List, [], ◌∷◌}
use learning_crossplane_e2e.Imports.Template.{Load, initialize, load}

abbrev pub k8s_initialize : List Load
k8s_initialize = initialize "cdk8s" ∷ initialize "constructs" ∷ load "k8s" "0.0.0" ∷ []

abbrev pub cert_manager_initialize : List Load
cert_manager_initialize =
    initialize "cdk8s" ∷ initialize "constructs" ∷ load "cert-managerio" "0.0.0" ∷ []

abbrev pub series_initialize : List Load
series_initialize =
    initialize "cdk8s" ∷ initialize "constructs" ∷ load "devopstoolkitseriescom" "0.0.0" ∷ []

abbrev pub external_secrets_initialize : List Load
external_secrets_initialize =
    initialize "cdk8s" ∷ initialize "constructs" ∷ load "external-secretsio" "0.0.0" ∷ []

abbrev pub schemahero_databases_initialize : List Load
schemahero_databases_initialize =
    initialize "cdk8s" ∷ initialize "constructs" ∷ load "databasesschemaheroio" "0.0.0" ∷ []

abbrev pub schemahero_schemas_initialize : List Load
schemahero_schemas_initialize =
    initialize "cdk8s" ∷ initialize "constructs" ∷ load "schemasschemaheroio" "0.0.0" ∷ []
