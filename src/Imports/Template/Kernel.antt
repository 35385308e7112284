-- ===== src/Imports/Template/Kernel.antt =====
-- What the generated Go of cdk8s/imports asks of the jsii kernel.
use learning_crossplane_e2e.Prelude.{String, Option, List}

-- The arguments of `_jsii_.Create`. `P` are the props of the class, `X` all other values, such as
-- constructs and patches; `proxy` is the Go type of the object that is filled in.
pub record Creation (P X : Type 0) : Type 0 where
  pub class : String
  pub proxy : String
  pub scope : Option X
  pub id : Option String
  pub props : Option P

-- An argument of a static method.
pub data Argument (P X : Type 0) : Type 0 where
  of_value : Option X → Argument P X
  of_props : Option P → Argument P X

-- The other calls of the jsii kernel: `Create` for an object of a caller, who chose its proxy,
-- `Get`, `Invoke` or `InvokeVoid`, `StaticInvoke`, `StaticGet`.
pub data KernelCall (P X : Type 0) : Type 0 where
  create_into : X → String → Option X → Option String → Option P → KernelCall P X
  get : X → String → KernelCall P X
  invoke : X → String → List X → KernelCall P X
  static_invoke : String → String → Argument P X → KernelCall P X
  static_get : String → String → KernelCall P X

-- The checks of a generated function panic, or the function calls the kernel once and returns what the
-- kernel answers. An error of the kernel is a panic too, of whoever performs the call.
pub data Attempt (R : Type 0) : Type 0 where
  panics : String → Attempt R
  asks : R → Attempt R

-- What `Initialize` of a package does: that of the packages it depends on, and `_jsii_.Load` with a
-- name and a version.
pub data Load : Type 0 where
  initialize : String → Load
  load : String → String → Load

-- A function that first calls `_init_.Initialize()`.
pub record Initialized (R : Type 0) : Type 0 where
  pub loads : List Load
  pub outcome : R
