-- ===== src/Chart/Tests.antt =====
-- The chart's theorems at work on the values of a small application.
use text.Mathlib.Text.{◌==◌ as str_eq}
use learning_crossplane_e2e.Prelude.{
  String, Bool, true, false, none, some, List, ◌≡◌, ◌↔◌, inl, refl, is_empty, if◌then◌else◌, All,
}
use learning_crossplane_e2e.Chart.Props.{AppProps, DbCrossplane}
use learning_crossplane_e2e.Chart.DbEnv.{db_env}
use learning_crossplane_e2e.Chart.DbResources.{claim_provider, claim_version}
use learning_crossplane_e2e.Chart.Schema.{database_connection}
use learning_crossplane_e2e.Chart.App.{Construct, new_app}
use learning_crossplane_e2e.Chart.App.Build.{name_labels, constructs, new_app-constructs}
use learning_crossplane_e2e.Chart.App.Complete.{IsComplete, new_app-IsComplete}
use learning_crossplane_e2e.Chart.App.Wiring.{IsWired, new_app-IsWired}
use learning_crossplane_e2e.Chart.App.Ids.{distinct, ids, new_app-ids-distinct}
use learning_crossplane_e2e.Chart.App.Targeted.{IsTargeted, new_app-IsTargeted}
use learning_crossplane_e2e.Chart.App.Migrated.{IsMigrated, new_app-IsMigrated}
use learning_crossplane_e2e.Chart.App.Supplied.{IsSupplied, new_app-IsSupplied}
use learning_crossplane_e2e.Chart.App.Secured.{IsSecured, new_app-IsSecured}
use learning_crossplane_e2e.Chart.Providers.{claim_version-claim_provider}
use learning_crossplane_e2e.Chart.Agreement.{host_source, env_lookup, db_env-helm_and_local}
use learning_crossplane_e2e.Chart.Main.{Library, zero_app_props, new_cncf_demo_chart}
use learning_crossplane_e2e.Chart.Main.Variant.{base_chart, new_cncf_demo_chart_without_variant}

-- An application with TLS and SchemaHero, and a database by the given means.
abbrev app_with : Bool → DbCrossplane → AppProps
app_with helm crossplane = record zero_app_props {
  name = "cncf-demo";
  image = record { repository = "silly-demo"; tag = "1.0.0" };
  ingress = record { host = "example.com"; class_name = "nginx" };
  tls = record { enabled = true };
  db = record {
    id = "my-db";
    insecure = false;
    enabled = record { helm = helm; crossplane = crossplane };
    size = "small";
  };
  schema_hero = record { enabled = true };
}

abbrev nowhere : DbCrossplane
nowhere = record { local = false; google = false; aws = false; azure = false }

abbrev helm_app : AppProps
helm_app = app_with true nowhere

abbrev aws_app : AppProps
aws_app = app_with false (record nowhere { aws = true })

abbrev both_app : AppProps
both_app = app_with true (record nowhere { local = true })

new_app-IsComplete_example :
    (cs : List Construct) × (new_app (some "cncf-demo") (some "cncf-demo") aws_app ≡ some cs)
    × All IsComplete cs
new_app-IsComplete_example = new_app-IsComplete (some "cncf-demo") "cncf-demo" aws_app

abbrev aws_constructs : List Construct
aws_constructs = constructs (some "cncf-demo") "cncf-demo" aws_app

aws_made : new_app (some "cncf-demo") (some "cncf-demo") aws_app ≡ some aws_constructs
aws_made = new_app-constructs (some "cncf-demo") "cncf-demo" aws_app

new_app-IsWired_example : IsWired (name_labels (some "cncf-demo")) aws_constructs
new_app-IsWired_example =
    new_app-IsWired (some "cncf-demo") "cncf-demo" aws_app aws_constructs aws_made

new_app-IsTargeted_example :
    (cs : List Construct) × (new_app (some "cncf-demo") (some "cncf-demo") aws_app ≡ some cs)
    × IsTargeted "cncf-demo" aws_app cs
new_app-IsTargeted_example = new_app-IsTargeted (some "cncf-demo") "cncf-demo" aws_app refl

new_app-IsSecured_example :
    (cs : List Construct) × (new_app (some "cncf-demo") (some "cncf-demo") aws_app ≡ some cs)
    × IsSecured cs
new_app-IsSecured_example = new_app-IsSecured (some "cncf-demo") "cncf-demo" aws_app refl

new_app-ids-distinct_example : distinct (ids aws_constructs) ≡ true
new_app-ids-distinct_example =
    new_app-ids-distinct (some "cncf-demo") "cncf-demo" aws_app aws_constructs aws_made

new_app-IsSupplied_example :
    (cs : List Construct) × (new_app (some "cncf-demo") (some "cncf-demo") aws_app ≡ some cs)
    × IsSupplied aws_app cs
new_app-IsSupplied_example =
    new_app-IsSupplied (some "cncf-demo") "cncf-demo" aws_app refl refl refl refl

claim_version-claim_provider_example :
    (claim_version aws_app ≡ "16.5") ↔ (claim_provider aws_app ≡ "aws")
claim_version-claim_provider_example = claim_version-claim_provider aws_app refl

new_app-IsMigrated_example :
    (cs : List Construct) × (new_app (some "cncf-demo") (some "cncf-demo") helm_app ≡ some cs)
    × IsMigrated cs
new_app-IsMigrated_example =
    new_app-IsMigrated (some "cncf-demo") "cncf-demo" helm_app refl refl refl refl

db_env-helm_and_local_example :
    (host_source (database_connection both_app) ≡ env_lookup "DB_ENDPOINT" (db_env both_app))
    ↔ (◌≡◌ {A = String} "my-db" "cncf-demo")
db_env-helm_and_local_example = db_env-helm_and_local both_app refl refl

-- A directory with app.yaml and no variant, which the environment asks for.
abbrev library : Library
library = record {
  getenv = λ name. if str_eq name "ENVIRONMENT" then "dev" else "";
  read_file = λ file.
      if str_eq file "app.yaml"
      then ("name: cncf-demo", none)
      else ("", some "no such file or directory");
  unmarshal = λ content app. if is_empty content then inl app else inl aws_app;
  node_id = λ id. some id;
}

new_cncf_demo_chart_without_variant_example :
    new_cncf_demo_chart library "cncf-demo" ≡ base_chart library "cncf-demo"
new_cncf_demo_chart_without_variant_example =
    new_cncf_demo_chart_without_variant library "cncf-demo" "no such file or directory"
      (λ app. refl) refl
