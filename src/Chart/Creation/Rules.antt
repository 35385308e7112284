-- ===== src/Chart/Creation/Rules.antt =====
-- Proof rules for code that creates the constructs of a list, each with complete props and under an
-- id that is free in its scope.
use text.Mathlib.Text.{◌==◌ as str_eq}
use text.Mathlib.TextEquality.{eq_iff}
use learning_crossplane_e2e.Prelude.{
  String, Bool, true, false, not, ◌&&◌, ◌||◌, Option, none, some, List, [], ◌∷◌, ◌++◌, ◌≡◌, refl,
  sym, ap, ◌∙◌, arith, All, if◌then◌else◌,
}
use learning_crossplane_e2e.Imports.Template.{Load, initialize, load, static_invoke, of_value}
use learning_crossplane_e2e.Imports.Packages.{package_names, registered_classes}
use learning_crossplane_e2e.Chart.K8s.Base.{Float64}
use learning_crossplane_e2e.Chart.App.{
  Construct, Resource, deployment, service, ingress, certificate, helm, sql_claim, secret,
  external_secret, database, table,
}
use learning_crossplane_e2e.Chart.App.Complete.{resource_complete, IsComplete}
use learning_crossplane_e2e.Chart.App.Ids.{absent, distinct, ids}
use learning_crossplane_e2e.Chart.Bindings.{
  Created, Runtime, text_literal, number_literal, B, built, then_run, ◌>>◌, skip,
}

-- The class that app.go creates for a resource.
abbrev pub class_of : Resource → String
class_of (deployment p) = "k8s.KubeDeployment"
class_of (service p) = "k8s.KubeService"
class_of (ingress p) = "k8s.KubeIngress"
class_of (certificate p) = "cert-managerio.Certificate"
class_of (helm p) = "cdk8s.Helm"
class_of (sql_claim p) = "devopstoolkitseriescom.SqlClaim"
class_of (secret p) = "k8s.KubeSecret"
class_of (external_secret p) = "external-secretsio.ExternalSecret"
class_of (database p) = "databasesschemaheroio.Database"
class_of (table p) = "schemasschemaheroio.Table"

abbrev pub object : String → Construct → Created
object path c = record {
  class = class_of c.resource;
  scope = some path;
  id = some c.id;
  props = some c.resource;
}

-- The objects of a list of constructs on top of older ones, the newest first.
abbrev pub objects : String → List Construct → List Created → List Created
objects path [] kids = kids
objects path (c ∷ cs) kids = objects path cs (object path c ∷ kids)

abbrev is_some : String → Option String → Bool
is_some s none = false
is_some s (some t) = str_eq s t

-- The scope has an object of that id.
abbrev pub taken : String → String → List Created → Bool
taken path id [] = false
taken path id (kid ∷ kids) = is_some path kid.scope && is_some id kid.id || taken path id kids

-- jsii knows the class, since an init function of cdk8s/imports or of cdk8s itself registers it.
abbrev pub known : String → Bool
known class = str_eq class "cdk8s.Helm" || not (absent class registered_classes)

pub class_of-known : (r : Resource) → known (class_of r) ≡ true
class_of-known (deployment p) = refl
class_of-known (service p) = refl
class_of-known (ingress p) = refl
class_of-known (certificate p) = refl
class_of-known (helm p) = refl
class_of-known (sql_claim p) = refl
class_of-known (secret p) = refl
class_of-known (external_secret p) = refl
class_of-known (database p) = refl
class_of-known (table p) = refl

-- The packages on which those of cdk8s/imports depend, and the libraries that are embedded in these.
abbrev pub embedded : Load → Bool
embedded (initialize name) = not (absent name ("cdk8s" ∷ "constructs" ∷ []))
embedded (load name version) = str_eq version "0.0.0" && not (absent name package_names)

-- What the jsii runtime is relied on for: it validates complete props, creates each object of a class
-- that it knows under an id that is free, loads the embedded libraries, has a node for each construct,
-- and makes quantities of texts and ports of numbers.
pub record Accepts (rt : Runtime) : Type 0 where
  pub valid : (r : Resource) → resource_complete r ≡ true → rt.validate_struct (some r) ≡ none
  pub free :
      (kids : List Created) (c : Created) (path id : String)
      → c.scope ≡ some path
      → c.id ≡ some id
      → taken path id kids ≡ false
      → known c.class ≡ true
      → rt.create kids c ≡ none
  pub loadable : (l : Load) → embedded l ≡ true → rt.load_library l ≡ none
  pub has_node : (path : String) → rt.node_of path ≡ none
  pub quantities :
      (s : String)
      → rt.static_call
          (static_invoke "k8s.Quantity" "fromString" (of_value (some (text_literal s))))
        ≡ none
  pub numbers :
      (n : Float64)
      → rt.static_call
          (static_invoke "k8s.IntOrString" "fromNumber" (of_value (some (number_literal n))))
        ≡ none

-- Each construct can be created after those before it.
abbrev pub CanAdd : String → List Construct → List Created → Type 0
CanAdd path [] kids = Unit
CanAdd path (c ∷ cs) kids =
    IsComplete c × (taken path c.id kids ≡ false) × CanAdd path cs (object path c ∷ kids)

pub record Creates (path : String) (cs : List Construct) (m : B (Unit {0})) : Type 0 where
  pub run : (kids : List Created) → CanAdd path cs kids → m kids ≡ built tt (objects path cs kids)

pub skip-Creates : (path : String) → Creates path [] skip
skip-Creates path = record { run = λ kids h. refl }

module _ (path : String) where
  objects-append :
      (cs ds : List Construct) (kids : List Created)
      → objects path (cs ++ ds) kids ≡ objects path ds (objects path cs kids)
  objects-append [] ds kids = refl
  objects-append (c ∷ cs) ds kids = objects-append cs ds (object path c ∷ kids)

  first-CanAdd :
      (cs ds : List Construct) (kids : List Created)
      → CanAdd path (cs ++ ds) kids
      → CanAdd path cs kids
  first-CanAdd [] ds kids h = tt
  first-CanAdd (c ∷ cs) ds kids h = (h.0, h.1, first-CanAdd cs ds _ h.2)

  rest-CanAdd :
      (cs ds : List Construct) (kids : List Created)
      → CanAdd path (cs ++ ds) kids
      → CanAdd path ds (objects path cs kids)
  rest-CanAdd [] ds kids h = h
  rest-CanAdd (c ∷ cs) ds kids h = rest-CanAdd cs ds _ h.2

  pub both-Creates :
      (cs ds : List Construct) {m n : B (Unit {0})}
      → Creates path cs m
      → Creates path ds n
      → Creates path (cs ++ ds) (m >> n)
  both-Creates cs ds {m} {n} hm hn = record {
    run = λ kids h.
        ap (then_run (λ _. n)) (hm.run kids (first-CanAdd cs ds kids h))
        ∙ hn.run _ (rest-CanAdd cs ds kids h)
        ∙ ap (built tt) (sym (objects-append cs ds kids));
  }

  pub if-Creates :
      (b : Bool) (cs ds : List Construct) {m n : B (Unit {0})}
      → Creates path cs m
      → Creates path ds n
      → Creates path (if b then cs else ds) (if b then m else n)
  if-Creates true cs ds hm hn = hm
  if-Creates false cs ds hm hn = hn

  -- No construct of a list has the id of the one before it.
  free-next :
      (c : Construct) (cs : List Construct) (kids : List Created)
      → absent c.id (ids cs) ≡ true
      → All (λ (d : Construct). taken path d.id kids ≡ false) cs
      → All (λ (d : Construct). taken path d.id (object path c ∷ kids) ≡ false) cs
  free-next c [] kids h free = tt
  free-next c (d ∷ cs) kids h (f, free) =
      (ground (arith, eq_iff c.id d.id, eq_iff d.id c.id), free-next c cs kids (ground arith) free)

  CanAdd-distinct :
      (cs : List Construct) (kids : List Created)
      → All IsComplete cs
      → distinct (ids cs) ≡ true
      → All (λ (d : Construct). taken path d.id kids ≡ false) cs
      → CanAdd path cs kids
  CanAdd-distinct [] kids complete apart free = tt
  CanAdd-distinct (c ∷ cs) kids (p, complete) apart (f, free) =
      (p, f, CanAdd-distinct cs _ complete (ground arith) (free-next c cs kids (ground arith) free))

  other_ids : (cs : List Construct) → All (λ (d : Construct). taken path d.id [] ≡ false) cs
  other_ids [] = tt
  other_ids (c ∷ cs) = (refl, other_ids cs)

  -- In a new scope, complete constructs with distinct ids can be created.
  pub CanAdd-new :
      (cs : List Construct) → All IsComplete cs → distinct (ids cs) ≡ true → CanAdd path cs []
  CanAdd-new cs complete apart = CanAdd-distinct cs [] complete apart (other_ids cs)
