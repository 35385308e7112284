-- ===== src/Chart/Program.antt =====
-- main of cdk8s/main.go: the app, the chart in it, the objects of the chart, and the synthesis.
pub mod Synthesis
pub mod Tests
use learning_crossplane_e2e.Prelude.{
  String, Option, none, some, List, [], ◌∷◌, ◌⊎◌, inl, inr, ◌≡◌, refl, ap, ◌∙◌,
}
use learning_crossplane_e2e.Chart.App.{Construct, Resource, new_app}
use learning_crossplane_e2e.Chart.App.Complete.{resource_complete}
use learning_crossplane_e2e.Chart.Main.{Library, Loaded, loaded, fatal, load_values}
use learning_crossplane_e2e.Chart.Bindings.{Created, Runtime, Built, built, panicked}
use learning_crossplane_e2e.Chart.Creation.{create_app}

-- `cdk8s.NewApp` gives the root, `cdk8s.NewChart` a path under it, each of them or an error; so may
-- `Synth` fail.
pub record Cdk8s : Type 0 where
  pub runtime : Runtime
  pub new_app : String ⊎ String
  pub new_chart : String → String → String ⊎ String
  pub synth : List Created → Option String

-- `Synth` writes the objects out; `log.Fatalf` and a panic end the process before it.
pub data Program : Type 0 where
  synthesized : List Created → Program
  fatal_exit : String → Program
  crashed : String → Program

-- `app.Synth()`
abbrev pub synth_or_crash : Option String → List Created → Program
synth_or_crash none kids = synthesized kids
synth_or_crash (some message) kids = crashed message

module _ (cdk : Cdk8s) where
  -- What follows NewApp of app.go.
  abbrev pub synth : Built String → Program
  synth (built path kids) = synth_or_crash (cdk.synth kids) kids
  synth (panicked message kids) = crashed message

  -- What follows `cdk8s.NewChart`.
  unfoldable pub in_chart : Loaded → String ⊎ String → Program
  in_chart (fatal message) chart = fatal_exit message
  in_chart (loaded app log) (inl chart) =
      synth (create_app cdk.runtime (some chart) (some "cncf-demo") app [])
  in_chart (loaded app log) (inr message) = crashed message

  -- What follows `cdk8s.NewApp`.
  unfoldable pub in_app : Library → String ⊎ String → Program
  unfolding in_chart
  in_app library (inl root) = in_chart (load_values library) (cdk.new_chart root "cncf-demo")
  in_app library (inr message) = crashed message

  unfoldable pub main : Library → Program
  unfolding in_app
  main library = in_app library cdk.new_app
