-- ===== src/Chart/Program/Tests.antt =====
-- The chart's program on a runtime that refuses incomplete props, ids that are taken, classes that
-- are not registered and libraries that are not embedded.
use learning_crossplane_e2e.Prelude.{
  ◌⊕◌, String, Bool, true, false, Option, none, some, List, [], ◌⊎◌, inl, inr, ◌≡◌, refl, ap, ◌∙◌,
  if◌then◌else◌,
}
use learning_crossplane_e2e.Imports.Template.{Load}
use learning_crossplane_e2e.Chart.App.{Construct, Resource, new_app}
use learning_crossplane_e2e.Chart.App.Complete.{resource_complete}
use learning_crossplane_e2e.Chart.Props.{AppProps}
use learning_crossplane_e2e.Chart.Main.{Library, zero_app_props}
use learning_crossplane_e2e.Chart.Bindings.{Created, Runtime, built}
use learning_crossplane_e2e.Chart.Creation.{create_app}
use learning_crossplane_e2e.Chart.Creation.Rules.{Accepts, objects, taken, known, embedded}
use learning_crossplane_e2e.Chart.Creation.Refines.{create_app-new_app}
use learning_crossplane_e2e.Chart.Program.{Cdk8s, main}
use learning_crossplane_e2e.Chart.Program.Synthesis.{Synthesizes, main-Synthesizes}

abbrev refuse_incomplete : Option Resource → Option String
refuse_incomplete none = none
refuse_incomplete (some r) = if resource_complete r then none else some "a field is required"

abbrev refuse_taken : Option String → Option String → List Created → Option String
refuse_taken (some path) (some id) kids =
    if taken path id kids then some "there is already a construct with that name" else none
refuse_taken (some path) none kids = some "an id is required"
refuse_taken none id kids = some "a scope is required"

abbrev refuse_unknown : Bool → Option String → Option String
refuse_unknown true rest = rest
refuse_unknown false rest = some "the type is not registered"

abbrev below : Option String → Option String → String ⊎ String
below (some path) (some id) = inl (path ⊕ ("/" ⊕ id))
below (some path) none = inr "an id is required"
below none id = inr "a scope is required"

abbrev runtime : Runtime
runtime = record {
  type_checking = true;
  load_library = λ l. if embedded l then none else some "there is no such library";
  new_construct = below;
  node_of = λ path. none;
  static_call = λ c. none;
  node_id = λ path. some path;
  validate_struct = refuse_incomplete;
  create = λ kids c. refuse_unknown (known c.class) (refuse_taken c.scope c.id kids);
}

runtime_valid :
    (r : Resource) → resource_complete r ≡ true → runtime.validate_struct (some r) ≡ none
runtime_valid r h = rw h

runtime_loadable : (l : Load) → embedded l ≡ true → runtime.load_library l ≡ none
runtime_loadable l h = ap (λ b. if b then none else some "there is no such library") h

runtime_free :
    (kids : List Created) (c : Created) (path id : String)
    → c.scope ≡ some path
    → c.id ≡ some id
    → taken path id kids ≡ false
    → known c.class ≡ true
    → runtime.create kids c ≡ none
runtime_free kids c path id e f h k =
    ap (λ b. refuse_unknown b (refuse_taken c.scope c.id kids)) k
    ∙ ap (λ scope. refuse_taken scope c.id kids) e
    ∙ ap (λ id. refuse_taken (some path) id kids) f
    ∙ (rw h)

runtime-Accepts : Accepts runtime
runtime-Accepts = record {
  valid = runtime_valid;
  free = runtime_free;
  loadable = runtime_loadable;
  has_node = λ path. refl;
  quantities = λ s. refl;
  numbers = λ n. refl;
}

abbrev aws_app : AppProps
aws_app = record zero_app_props {
  name = "cncf-demo";
  tls = record { enabled = true };
  db = record {
    id = "my-db";
    insecure = false;
    enabled = record {
      helm = false;
      crossplane = record { local = false; google = false; aws = true; azure = false };
    };
    size = "small";
  };
  schema_hero = record { enabled = true };
}

create_app-new_app_example :
    (cs : List Construct) × (new_app (some "app/demo") (some "demo") aws_app ≡ some cs)
    × (create_app runtime (some "app") (some "demo") aws_app []
        ≡ built "app/demo" (objects "app/demo" cs []))
create_app-new_app_example =
    create_app-new_app runtime (some "app") "app/demo" "demo" aws_app runtime-Accepts refl

abbrev cdk : Cdk8s
cdk = record {
  runtime = runtime;
  new_app = inl "app";
  synth = λ kids. none;
  new_chart = λ root id. inl (root ⊕ ("/" ⊕ id));
}

abbrev library : Library
library = record {
  getenv = λ name. "";
  read_file = λ file. ("name: cncf-demo", none);
  unmarshal = λ content app. inl aws_app;
  node_id = λ id. some id;
}

main-Synthesizes_example : Synthesizes cdk library "app/cncf-demo/cncf-demo" (main cdk library)
main-Synthesizes_example =
    main-Synthesizes cdk library "app" "app/cncf-demo" "app/cncf-demo/cncf-demo" runtime-Accepts
      (λ kids. refl) refl refl refl
