-- ===== src/Imports/Guards.antt =====
-- When the checks of the classes in cdk8s/imports panic. The errors of the kernel, and of Initialize,
-- are left to who performs the call, as Chart/Bindings does. Each class is the template filled in with
-- what the class itself gives away, which settles all of them at once.
use learning_crossplane_e2e.Prelude.{
  String, Bool, true, false, ◌||◌, Option, none, some, List, [], ◌∷◌, ◌≡◌, refl, subst, map, All,
}
use learning_crossplane_e2e.Imports.Template.{
  Load, Attempt, panics, asks, required, optional_props_checks, required_props_checks, nil_checks,
  guarded_call, api_class, Binding, binding,
}
use learning_crossplane_e2e.Imports.Packages.{Package, packages}

abbrev is_nil {ℓ} : {A : Type ℓ} → Option A → Bool
is_nil none = true
is_nil (some a) = false

abbrev is_error : Option String → Bool
is_error none = false
is_error (some message) = true

-- What the kernel is asked, if the function does not panic.
abbrev passed : {R : Type 0} → Attempt R → Option R
passed (panics message) = none
passed (asks request) = some request

abbrev unless : {R : Type 0} → Bool → Option R → Option R
unless true request = none
unless false request = request

module _ {P X : Type 0} (validate : Option P → Option String) (x : Option X) (id : Option String)
    (props : Option P) (p : P) where
  -- A build with the checks asks what one without them asks unless an argument is nil or the props
  -- are not valid; and in that one no check panics.
  abbrev Guards : Binding P X → Type 0
  Guards b =
      let c = b.class (b.checks validate) in
      let u = b.class b.no_checks in
      (passed (c.new x id props).outcome
        ≡ unless (is_nil x || (is_nil id || is_nil (passed (c.manifest props).outcome)))
            (passed (u.new x id props).outcome))
      × (passed (c.manifest (some p)).outcome
          ≡ unless (is_error (validate (some p))) (passed (u.manifest (some p)).outcome))
      × (passed (c.is_construct x).outcome ≡ unless (is_nil x) (passed (u.is_construct x).outcome))
      × (passed (c.of x).outcome ≡ unless (is_nil x) (passed (u.of x).outcome))
      × (is_nil (passed (u.new x id props).outcome) ≡ false)
      × (is_nil (passed (u.manifest props).outcome) ≡ false)
      × (is_nil (passed (u.is_construct x).outcome) ≡ false)
      × (is_nil (passed (u.of x).outcome) ≡ false)

module _ {R : Type 0} (request : R) where
  passed-guarded_call :
      (error : Option String)
      → passed (guarded_call error request) ≡ unless (is_error error) (some request)
  passed-guarded_call none = refl
  passed-guarded_call (some message) = refl

  passed-required :
      {A : Type 0} (name : String) (a : Option A)
      → passed (guarded_call (required name a none) request) ≡ unless (is_nil a) (some request)
  passed-required name none = refl
  passed-required name (some a) = refl

  passed-scope_and_id :
      {X S : Type 0} (x : Option X) (id error : Option String) (other : S)
      → passed (guarded_call (required "scope" x (required "id" id error)) request)
        ≡ unless
            (is_nil x || (is_nil id || is_nil (passed (guarded_call error other))))
            (some request)
  passed-scope_and_id none id error other = refl
  passed-scope_and_id (some x) none error other = refl
  passed-scope_and_id (some x) (some id) none other = refl
  passed-scope_and_id (some x) (some id) (some message) other = refl

-- The class that has these names, and may or may not require props.
abbrev filled_in : {P X : Type 0} → Bool → List Load → String → String → Binding P X
filled_in true loads class type =
    binding (api_class loads class type) required_props_checks nil_checks
filled_in false loads class type =
    binding (api_class loads class type) optional_props_checks nil_checks

abbrev restored : {P X : Type 0} → Binding P X → Binding P X
restored b =
    let c = b.class b.no_checks in
    filled_in (is_error ((b.checks (λ props. none)).manifest none)) c.gvk.loads c.fqn c.go_type

module _ {P X : Type 0} (validate : Option P → Option String) (x : Option X) (id : Option String)
    (props : Option P) (p : P) where
  filled_in-Guards :
      (requires : Bool) (loads : List Load) (class type : String)
      → Guards validate x id props p (filled_in requires loads class type)
  filled_in-Guards true loads class type = (
    passed-scope_and_id _ x id (required "props" props (validate props)) _,
    passed-guarded_call _ (validate (some p)),
    passed-required _ "x" x,
    passed-required _ "c" x,
    refl,
    refl,
    refl,
    refl,
  )
  filled_in-Guards false loads class type = (
    passed-scope_and_id _ x id (validate props) _,
    passed-guarded_call _ (validate (some p)),
    passed-required _ "x" x,
    passed-required _ "c" x,
    refl,
    refl,
    refl,
    refl,
  )

  restored-Guards : (bs : List (Binding P X)) → All (Guards validate x id props p) (map restored bs)
  restored-Guards [] = tt
  restored-Guards (b ∷ bs) = (filled_in-Guards _ _ _ _, restored-Guards bs)

  abbrev pub GuardsAll : Package P X → Type 0
  GuardsAll q = All (Guards validate x id props p) q.bindings

  restorable-Guards :
      (qs : List (Package P X))
      → All (λ q. map restored q.bindings ≡ q.bindings) qs
      → All GuardsAll qs
  restorable-Guards [] _ = tt
  restorable-Guards (q ∷ qs) (same, rest) = (
    subst (All (Guards validate x id props p)) same (restored-Guards q.bindings),
    restorable-Guards qs rest,
  )

-- For each of the 126 classes of API objects in cdk8s/imports, in a build with runtime type
-- checking: the checks of New panic exactly where the scope or the id is nil or those of Manifest
-- panic for the same props; those of Manifest with props that are not nil, exactly where these are
-- not valid; those of IsConstruct and Of, exactly where the argument is nil. Where no check panics,
-- the function asks the kernel just what a build without the checks asks, in which no check panics.
pub packages-GuardsAll :
    {P X : Type 0} (validate : Option P → Option String) (x : Option X) (id : Option String)
    (props : Option P) (p : P)
    → All (GuardsAll validate x id props p) packages
packages-GuardsAll validate x id props p =
    restorable-Guards validate x id props p packages
      (refl, (refl, (refl, (refl, (refl, (refl, tt))))))
