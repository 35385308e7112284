-- ===== src/Chart/Bindings.antt =====
-- How the chart creates objects: it calls the constructors in cdk8s/imports, of Imports/Template. Each
-- initializes its package, checks its parameters, panics where one of these fails, and has the jsii
-- runtime create the object.
pub mod Classes
use mathlib.Core.Option
use learning_crossplane_e2e.Prelude.{
  String, Bool, if◌then◌else◌, Option, none, some, List, [], ◌∷◌, ◌⊎◌,
}
use learning_crossplane_e2e.Imports.Template.{
  Creation, KernelCall, Attempt, panics, asks, Load, Initialized, Binding, checks_of,
}
use learning_crossplane_e2e.Imports.K8s.{
  quantity_class, quantity_check, quantity_no_check, int_or_string_class, int_or_string_check,
  int_or_string_no_check,
}
use learning_crossplane_e2e.Chart.K8s.Base.{Float64}
use learning_crossplane_e2e.Chart.App.{Resource}

-- What `_jsii_.Create` is given. A construct is known by its path.
pub record Created : Type 0 where
  pub class : String
  pub scope : Option String
  pub id : Option String
  pub props : Option Resource

-- What `Quantity_FromString` and `IntOrString_FromNumber` are given.
pub data Literal : Type 0 where
  text_literal : String → Literal
  number_literal : Float64 → Literal

-- The jsii runtime and the packages constructs and cdk8s. A text is the error with which the call
-- fails; what `create` does may depend on the objects that there are, the newest first. Whether the
-- parameters are checked is decided when the program is built.
pub record Runtime : Type 0 where
  pub type_checking : Bool
  pub load_library : Load → Option String
  pub new_construct : Option String → Option String → String ⊎ String
  pub node_of : String → Option String
  pub node_id : String → Option String
  pub validate_struct : Option Resource → Option String
  pub create : List Created → Created → Option String
  pub static_call : KernelCall (Unit {0}) Literal → Option String

-- A run of the chart's code: the objects created, the newest first.
pub data Built {ℓ} (A : Type ℓ) : Type ℓ where
  built : A → List Created → Built A
  panicked : String → List Created → Built A

abbrev pub B {ℓ} : Type ℓ → Type ℓ
B A = List Created → Built A

abbrev pub then_run {ℓ κ} : {A : Type ℓ} {C : Type κ} → (A → B C) → Built A → Built C
then_run f (built a kids) = f a kids
then_run f (panicked message kids) = panicked message kids

infixl 5 ◌>>=◌ ◌>>◌
abbrev pub ◌>>=◌ {ℓ κ} : {A : Type ℓ} {C : Type κ} → B A → (A → B C) → B C
◌>>=◌ m f kids = then_run f (m kids)

abbrev pub ◌>>◌ {κ} : {C : Type κ} → B (Unit {0}) → B C → B C
m >> k = m >>= λ _. k

abbrev pub skip : B (Unit {0})
skip kids = built tt kids

-- `if err := validate…(…); err != nil { panic(err) }`
abbrev pub checked : Option String → B (Unit {0})
checked none kids = built tt kids
checked (some message) kids = panicked message kids

-- `_jsii_.Create`
abbrev pub created : Option String → Created → B (Unit {0})
created none c kids = built tt (c ∷ kids)
created (some message) c kids = panicked message kids

unfoldable pub jsii_create : Runtime → Created → B (Unit {0})
jsii_create rt c kids = created (rt.create kids c) c kids

-- `Initialize` of a package, in the order of its calls.
abbrev pub initialize_all : Runtime → List Load → B (Unit {0})
initialize_all rt [] = skip
initialize_all rt (l ∷ loads) = checked (rt.load_library l) >> initialize_all rt loads

module _ {P : Type 0} (rt : Runtime) (embed : P → Resource) where
  abbrev pub perform : Attempt (Creation P String) → B (Unit {0})
  perform (panics message) kids = panicked message kids
  perform (asks c) kids =
      jsii_create rt
        (record { class = c.class; scope = c.scope; id = c.id; props = Option.map embed c.props })
        kids

  abbrev pub call_new : Initialized (Attempt (Creation P String)) → B (Unit {0})
  call_new called = initialize_all rt called.loads >> perform called.outcome

  -- `_jsii_.ValidateStruct`
  abbrev pub validate_props : Option P → Option String
  validate_props props = rt.validate_struct (Option.map embed props)

  -- The constructor of a class, in a build with or without the checks.
  unfoldable pub new_object :
      Binding P String → Option String → Option String → Option P → B (Unit {0})
  new_object b scope id props = call_new (
      (b.class (checks_of rt.type_checking (b.checks validate_props) b.no_checks)).new scope id
        props)

-- `Quantity_FromString` and `IntOrString_FromNumber`, in a build with or without the checks. Their
-- values are in the props.
module _ (rt : Runtime) where
  abbrev pub ask_static : Attempt (KernelCall (Unit {0}) Literal) → B (Unit {0})
  ask_static (panics message) kids = panicked message kids
  ask_static (asks c) kids = checked (rt.static_call c) kids

  abbrev pub call_static : Initialized (Attempt (KernelCall (Unit {0}) Literal)) → B (Unit {0})
  call_static called = initialize_all rt called.loads >> ask_static called.outcome

  unfoldable pub quantity_from_string : String → B (Unit {0})
  quantity_from_string s = call_static (
      (quantity_class (if rt.type_checking then quantity_check else quantity_no_check)).from_string
        (some (text_literal s)))

  unfoldable pub int_or_string_from_number : Float64 → B (Unit {0})
  int_or_string_from_number n = call_static (
      (int_or_string_class
          (if rt.type_checking then int_or_string_check else int_or_string_no_check)).from_number
        (some (number_literal n)))
