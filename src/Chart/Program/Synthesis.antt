-- ===== src/Chart/Program/Synthesis.antt =====
-- What main of cdk8s/main.go synthesizes.
use learning_crossplane_e2e.Prelude.{◌⊕◌, sym, subst, String, none, some, List, [], inl, ◌≡◌}
use learning_crossplane_e2e.Chart.App.{Construct, new_app}
use learning_crossplane_e2e.Chart.Main.{Library, Loaded, load_values}
use learning_crossplane_e2e.Chart.Main.Variant.{
  Decodes, Undecodable, Loads, decodes, refuses, load_values-Loads,
}
use learning_crossplane_e2e.Chart.Props.{AppProps}
use learning_crossplane_e2e.Chart.Bindings.{Created}
use learning_crossplane_e2e.Chart.Creation.Rules.{Accepts, objects}
use learning_crossplane_e2e.Chart.Creation.Refines.{create_app-new_app}
use learning_crossplane_e2e.Chart.Program.{
  Cdk8s, Program, synthesized, fatal_exit, in_chart, in_app, main,
}

-- The program ends with a decoding error of one of the files, or writes out the constructs that NewApp
-- makes from the values that the files decode to.
pub data Synthesizes (cdk : Cdk8s) (library : Library) (path : String) : Program → Type 0 where
  refused :
      {message : String}
      → Undecodable library message
      → Synthesizes cdk library path (fatal_exit ("Unmarshal: " ⊕ message))
  written :
      (app : AppProps) (cs : List Construct)
      → Decodes library app
      → new_app (cdk.runtime.node_id path) (some "cncf-demo") app ≡ some cs
      → Synthesizes cdk library path (synthesized (objects path cs []))

module _ (cdk : Cdk8s) (library : Library) (chart path : String) (accepts : Accepts cdk.runtime)
    (writes : (kids : List Created) → cdk.synth kids ≡ none)
    (scoped : cdk.runtime.new_construct (some chart) (some "cncf-demo") ≡ inl path) where
  in_chart-Synthesizes :
      (values : Loaded)
      → Loads library values
      → Synthesizes cdk library path (in_chart cdk values (inl chart))
  unfolding in_chart
  in_chart-Synthesizes _ (refuses u) = refused u
  in_chart-Synthesizes _ (decodes {app} d) =
      let (cs, made, run) =
        create_app-new_app cdk.runtime (some chart) path "cncf-demo" app accepts scoped in
      rw (run, writes (objects path cs [])) (written app cs d made)

-- Where cdk8s makes the app, and the chart and its construct are accepted under their ids, main never
-- panics: it ends with the decoder's error at app.yaml or at the file of the environment, or
-- synthesizes just the constructs of `new_app` for the values that these files decode to. Synth is
-- to write out any objects, and the jsii runtime to load the embedded libraries, to have a node for
-- each construct, to make quantities of texts and ports of numbers, and to accept each props with its
-- required fields set, and each object of a registered class whose id no other object of the scope
-- has.
pub main-Synthesizes :
    (cdk : Cdk8s) (library : Library) (root chart path : String)
    → Accepts cdk.runtime
    → ((kids : List Created) → cdk.synth kids ≡ none)
    → cdk.new_app ≡ inl root
    → cdk.new_chart root "cncf-demo" ≡ inl chart
    → cdk.runtime.new_construct (some chart) (some "cncf-demo") ≡ inl path
    → Synthesizes cdk library path (main cdk library)
unfolding main in_app
main-Synthesizes cdk library root chart path accepts writes made charted scoped =
    subst (λ r. Synthesizes cdk library path (in_app cdk library r)) (sym made)
      (subst (λ c. Synthesizes cdk library path (in_chart cdk (load_values library) c))
        (sym charted)
        (in_chart-Synthesizes cdk library chart path accepts writes scoped _
          (load_values-Loads library)))
