-- ===== src/Imports/Template/Validation.antt =====
-- The `validate…Parameters` functions of a class in cdk8s/imports, of the build with runtime type
-- checking and of the build without.
use learning_crossplane_e2e.Prelude.{◌⊕◌, String, Bool, true, false, Option, none, some}

-- `fmt.Errorf("parameter … is required, but nil was provided")`
abbrev pub missing_parameter : String → String
missing_parameter name = "parameter " ⊕ (name ⊕ " is required, but nil was provided")

-- `if x == nil { return fmt.Errorf(…) }`, and what follows where `x` is not nil.
abbrev pub required {ℓ} : {A : Type ℓ} → String → Option A → Option String → Option String
required name none rest = some (missing_parameter name)
required name (some a) rest = rest

-- The four `validate…Parameters` functions of a class; a text is the error.
pub record Checks (P X : Type 0) : Type 0 where
  pub is_construct : Option X → Option String
  pub manifest : Option P → Option String
  pub of : Option X → Option String
  pub new : Option X → Option String → Option P → Option String

-- The checks of a build with runtime type checking, for a class whose props may be nil and for one
-- whose props may not; `validate` is `_jsii_.ValidateStruct`.
abbrev pub optional_props_checks : {P X : Type 0} → (Option P → Option String) → Checks P X
optional_props_checks validate = record {
  is_construct = λ x. required "x" x none;
  manifest = validate;
  of = λ c. required "c" c none;
  new = λ scope id props. required "scope" scope (required "id" id (validate props));
}

abbrev pub required_props_checks : {P X : Type 0} → (Option P → Option String) → Checks P X
required_props_checks validate = record {
  is_construct = λ x. required "x" x none;
  manifest = λ props. required "props" props (validate props);
  of = λ c. required "c" c none;
  new = λ scope id props.
      required "scope" scope (required "id" id (required "props" props (validate props)));
}

-- The checks of a build with the tag `no_runtime_type_checking`.
abbrev pub nil_checks : {P X : Type 0} → Checks P X
nil_checks = record {
  is_construct = λ x. none;
  manifest = λ props. none;
  of = λ c. none;
  new = λ scope id props. none;
}

-- `//go:build`: the checks that a build has.
abbrev pub checks_of : {P X : Type 0} → Bool → Checks P X → Checks P X → Checks P X
checks_of true checks no_checks = checks
checks_of false checks no_checks = no_checks

-- The check of `IsApiObject`, which the two classes of external secrets have besides.
abbrev pub is_api_object_check : {X : Type 0} → Option X → Option String
is_api_object_check o = required "o" o none

-- The check of the two unions of a number and a text.
abbrev pub value_check : {X : Type 0} → Option X → Option String
value_check v = required "value" v none
