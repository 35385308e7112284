-- ===== src/Imports/K8s/Values.antt =====
-- The two unions of a number and a text: k8s_IntOrString.go and k8s_Quantity.go in
-- cdk8s/imports/k8s, with the files of their checks.
use learning_crossplane_e2e.Prelude.{String, Option, none}
use learning_crossplane_e2e.Imports.Template.{ValueClass, value_class, value_check}
use learning_crossplane_e2e.Imports.Initialize.{k8s_initialize}

abbrev pub int_or_string_class : {P X : Type 0} → (Option X → Option String) → ValueClass P X
int_or_string_class = value_class k8s_initialize "k8s.IntOrString" "IntOrString"

abbrev pub int_or_string_check : {X : Type 0} → Option X → Option String
int_or_string_check = value_check

abbrev pub int_or_string_no_check : {X : Type 0} → Option X → Option String
int_or_string_no_check v = none

abbrev pub quantity_class : {P X : Type 0} → (Option X → Option String) → ValueClass P X
quantity_class = value_class k8s_initialize "k8s.Quantity" "Quantity"

abbrev pub quantity_check : {X : Type 0} → Option X → Option String
quantity_check = value_check

abbrev pub quantity_no_check : {X : Type 0} → Option X → Option String
quantity_no_check v = none
