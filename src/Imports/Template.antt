-- ===== src/Imports/Template.antt =====
-- The template of the classes in cdk8s/imports. The files of the classes of API objects, such as
-- k8s_KubeDeployment.go, differ in nothing but names: `api_class` is what they have in common, and
-- Imports/K8s and Imports/Custom have one instance for each file.
pub mod Kernel
pub mod Validation
pub use Kernel.*
pub use Validation.*
use learning_crossplane_e2e.Prelude.{◌⊕◌, String, Option, none, some, List, [], ◌∷◌, ◌++◌}

-- `if err := validate…(…); err != nil { panic(err) }`
abbrev pub guarded_call : {R : Type 0} → Option String → R → Attempt R
guarded_call none request = asks request
guarded_call (some message) request = panics message

-- `for _, a := range … { args = append(args, a) }`
abbrev pub appended : {X : Type 0} → List X → List X → List X
appended args [] = args
appended args (a ∷ rest) = appended (args ++ a ∷ []) rest

-- The functions of the package for a class, in the order of its file: the getters, the constructors,
-- the static functions and the methods.
pub record ApiClass (P X : Type 0) : Type 0 where
  pub fqn : String
  pub go_type : String
  pub api_group : X → KernelCall P X
  pub api_version : X → KernelCall P X
  pub chart : X → KernelCall P X
  pub kind : X → KernelCall P X
  pub metadata : X → KernelCall P X
  pub name : X → KernelCall P X
  pub node : X → KernelCall P X
  pub new : Option X → Option String → Option P → Initialized (Attempt (Creation P X))
  pub new_override : X → Option X → Option String → Option P → Initialized (KernelCall P X)
  pub is_construct : Option X → Initialized (Attempt (KernelCall P X))
  pub manifest : Option P → Initialized (Attempt (KernelCall P X))
  pub of : Option X → Initialized (Attempt (KernelCall P X))
  pub gvk : Initialized (KernelCall P X)
  pub add_dependency : X → List X → KernelCall P X
  pub add_json_patch : X → List X → KernelCall P X
  pub to_json : X → KernelCall P X
  pub to_string : X → KernelCall P X

-- `_init_.Initialize()`, and what follows.
abbrev pub initialized : {R : Type 0} → List Load → R → Initialized R
initialized loads outcome = record { loads = loads; outcome = outcome }

-- The class as the calls that its functions ask for, with the given name in jsii, name in Go and checks, in the package with the given
-- `Initialize`.
abbrev pub api_class : {P X : Type 0} → List Load → String → String → Checks P X → ApiClass P X
api_class loads class type checks = record {
  fqn = class;
  go_type = type;
  api_group = λ object. get object "apiGroup";
  api_version = λ object. get object "apiVersion";
  chart = λ object. get object "chart";
  kind = λ object. get object "kind";
  metadata = λ object. get object "metadata";
  name = λ object. get object "name";
  node = λ object. get object "node";
  new = λ scope id props. initialized loads (
      guarded_call (checks.new scope id props) (record {
        class = class;
        proxy = "jsiiProxy_" ⊕ type;
        scope = scope;
        id = id;
        props = props;
      }));
  new_override =
      λ object scope id props. initialized loads (create_into object class scope id props);
  is_construct = λ x.
      initialized loads
        (guarded_call (checks.is_construct x) (static_invoke class "isConstruct" (of_value x)));
  manifest = λ props.
      initialized loads
        (guarded_call (checks.manifest props) (static_invoke class "manifest" (of_props props)));
  of = λ c. initialized loads (guarded_call (checks.of c) (static_invoke class "of" (of_value c)));
  gvk = initialized loads (static_get class "GVK");
  add_dependency = λ object dependencies. invoke object "addDependency" (appended [] dependencies);
  add_json_patch = λ object ops. invoke object "addJsonPatch" (appended [] ops);
  to_json = λ object. invoke object "toJson" [];
  to_string = λ object. invoke object "toString" [];
}

-- `IsApiObject`, which the two classes of external secrets have besides.
abbrev pub is_api_object :
    {P X : Type 0}
    → List Load
    → String
    → (Option X → Option String)
    → Option X
    → Initialized (Attempt (KernelCall P X))
is_api_object loads class check o =
    initialized loads (guarded_call (check o) (static_invoke class "isApiObject" (of_value o)))

-- The two unions of a number and a text, k8s_IntOrString.go and k8s_Quantity.go; an `X` is a number
-- or a text here.
pub record ValueClass (P X : Type 0) : Type 0 where
  pub fqn : String
  pub go_type : String
  pub value : X → KernelCall P X
  pub from_number : Option X → Initialized (Attempt (KernelCall P X))
  pub from_string : Option X → Initialized (Attempt (KernelCall P X))

abbrev pub value_class :
    {P X : Type 0} → List Load → String → String → (Option X → Option String) → ValueClass P X
value_class loads class type check = record {
  fqn = class;
  go_type = type;
  value = λ object. get object "value";
  from_number = λ v.
      initialized loads (guarded_call (check v) (static_invoke class "fromNumber" (of_value v)));
  from_string = λ v.
      initialized loads (guarded_call (check v) (static_invoke class "fromString" (of_value v)));
}

-- A class, and its checks in a build with runtime type checking and in one without.
pub record Binding (P X : Type 0) : Type 0 where
  pub class : Checks P X → ApiClass P X
  pub checks : (Option P → Option String) → Checks P X
  pub no_checks : Checks P X

abbrev pub binding :
    {P X : Type 0}
    → (Checks P X → ApiClass P X)
    → ((Option P → Option String) → Checks P X)
    → Checks P X
    → Binding P X
binding class checks no_checks = record { class = class; checks = checks; no_checks = no_checks }
