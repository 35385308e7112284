-- ===== src/Imports/Registered.antt =====
-- What the init functions of cdk8s/imports register, each in parts and then as a whole.
pub mod K8sA
pub mod K8sB
pub mod K8sC
pub mod K8sD
pub mod K8sE
pub mod DatabasesA
pub mod DatabasesB
pub mod DatabasesC
pub mod DatabasesD
pub mod Infrastructure
pub mod Schemas
pub use K8sA.*
pub use K8sB.*
pub use K8sC.*
pub use K8sD.*
pub use K8sE.*
pub use DatabasesA.*
pub use DatabasesB.*
pub use DatabasesC.*
pub use DatabasesD.*
pub use Infrastructure.*
pub use Schemas.*
use learning_crossplane_e2e.Prelude.{List, ◌++◌}
use learning_crossplane_e2e.Imports.Registry.{Registration}

abbrev pub k8s_init : List Registration
k8s_init =
    k8s_init_1 ++ k8s_init_2 ++ k8s_init_3 ++ k8s_init_4 ++ k8s_init_5 ++ k8s_init_6 ++ k8s_init_7
    ++ k8s_init_8 ++ k8s_init_9 ++ k8s_init_10 ++ k8s_init_11 ++ k8s_init_12 ++ k8s_init_13
    ++ k8s_init_14 ++ k8s_init_15 ++ k8s_init_16 ++ k8s_init_17 ++ k8s_init_18 ++ k8s_init_19
    ++ k8s_init_20 ++ k8s_init_21 ++ k8s_init_22 ++ k8s_init_23 ++ k8s_init_24 ++ k8s_init_25
    ++ k8s_init_26 ++ k8s_init_27 ++ k8s_init_28 ++ k8s_init_29 ++ k8s_init_30 ++ k8s_init_31

abbrev pub cert_manager_init : List Registration
cert_manager_init = cert_manager_init_1

abbrev pub series_init : List Registration
series_init = series_init_1

abbrev pub external_secrets_init : List Registration
external_secrets_init = external_secrets_init_1 ++ external_secrets_init_2

abbrev pub schemahero_databases_init : List Registration
schemahero_databases_init =
    schemahero_databases_init_1 ++ schemahero_databases_init_2 ++ schemahero_databases_init_3
    ++ schemahero_databases_init_4 ++ schemahero_databases_init_5 ++ schemahero_databases_init_6
    ++ schemahero_databases_init_7 ++ schemahero_databases_init_8

abbrev pub schemahero_schemas_init : List Registration
schemahero_schemas_init = schemahero_schemas_init_1 ++ schemahero_schemas_init_2
