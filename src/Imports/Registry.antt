-- ===== src/Imports/Registry.antt =====
-- What the init functions of cdk8s/imports hand to the jsii runtime: `_jsii_.RegisterClass`,
-- `RegisterStruct` and `RegisterEnum`.
use learning_crossplane_e2e.Prelude.{String, List, [], ◌∷◌}

-- `_jsii_.MemberMethod` and `MemberProperty`, each with the name in jsii and in Go.
pub data Member : Type 0 where
  method : String → String → Member
  property : String → String → Member

-- The name in jsii and the Go type, and then: the members and the proxy type of a class, the keys
-- and the constants of an enum.
pub data Registration : Type 0 where
  register_class : String → String → List Member → String → Registration
  register_struct : String → String → Registration
  register_enum : String → String → List (String × String) → Registration

-- The members of every class of an API object.
abbrev pub api_object_members : List Member
api_object_members =
    method "addDependency" "AddDependency"
    ∷ method "addJsonPatch" "AddJsonPatch"
    ∷ property "apiGroup" "ApiGroup"
    ∷ property "apiVersion" "ApiVersion"
    ∷ property "chart" "Chart"
    ∷ property "kind" "Kind"
    ∷ property "metadata" "Metadata"
    ∷ property "name" "Name"
    ∷ property "node" "Node"
    ∷ method "toJson" "ToJson"
    ∷ method "toString" "ToString"
    ∷ []

abbrev pub value_members : List Member
value_members = property "value" "Value" ∷ []
