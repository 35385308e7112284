-- ===== src/Imports/Packages.antt =====
-- The six packages of cdk8s/imports: what a package declares, next to what its init function registers.
use learning_crossplane_e2e.Prelude.{String, List, [], ◌∷◌, ◌++◌, map}
use learning_crossplane_e2e.Imports.Template.{ValueClass, Binding}
use learning_crossplane_e2e.Imports.Registry.{
  Registration, register_class, register_struct, register_enum,
}
use learning_crossplane_e2e.Imports.Registered.{
  k8s_init, cert_manager_init, series_init, external_secrets_init, schemahero_databases_init,
  schemahero_schemas_init,
}
use learning_crossplane_e2e.Imports.K8s.{
  k8s_bindings, int_or_string_class, int_or_string_check, quantity_class, quantity_check,
}
use learning_crossplane_e2e.Imports.Custom.{
  cert_manager_bindings, series_bindings, external_secrets_bindings, schemahero_databases_bindings,
  schemahero_schemas_bindings,
}

-- A package: its name in jsii, its classes of API objects, its unions of a number and a text, and what
-- its init function registers.
pub record Package (P X : Type 0) : Type 0 where
  pub name : String
  pub bindings : List (Binding P X)
  pub values : List (ValueClass P X)
  pub init : List Registration

abbrev custom_package :
    {P X : Type 0} → String → List (Binding P X) → List Registration → Package P X
custom_package name bindings init = record {
  name = name;
  bindings = bindings;
  values = [];
  init = init;
}

abbrev pub packages : {P X : Type 0} → List (Package P X)
packages =
    record {
      name = "k8s";
      bindings = k8s_bindings;
      values = int_or_string_class int_or_string_check ∷ quantity_class quantity_check ∷ [];
      init = k8s_init;
    }
    ∷ custom_package "cert-managerio" cert_manager_bindings cert_manager_init
    ∷ custom_package "devopstoolkitseriescom" series_bindings series_init
    ∷ custom_package "external-secretsio" external_secrets_bindings external_secrets_init
    ∷ custom_package "databasesschemaheroio" schemahero_databases_bindings schemahero_databases_init
    ∷ custom_package "schemasschemaheroio" schemahero_schemas_bindings schemahero_schemas_init
    ∷ []

-- The names of the classes that an init function registers.
abbrev pub classes_in : List Registration → List String
classes_in [] = []
classes_in (register_class fqn type members proxy ∷ rest) = fqn ∷ classes_in rest
classes_in (register_struct fqn type ∷ rest) = classes_in rest
classes_in (register_enum fqn type values ∷ rest) = classes_in rest

abbrev pub registered_in : {P X : Type 0} → List (Package P X) → List String
registered_in [] = []
registered_in (p ∷ ps) = classes_in p.init ++ registered_in ps

abbrev pub registered_classes : List String
registered_classes = registered_in (packages {P = String} {X = String})

abbrev pub package_names : List String
package_names = map (λ p. p.name) (packages {P = String} {X = String})
