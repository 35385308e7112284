-- ===== src/Chart/Main.antt =====
-- cdk8s/main.go: the values are read from app.yaml and from the variant of the environment, and the
-- chart is built from them.
pub mod Variant
use Prim.Native.String
use learning_crossplane_e2e.Prelude.{
  ◌⊕◌, ◌⊎◌, inl, inr, String, false, Option, none, some, List, [], ◌∷◌, is_empty, if◌then◌else◌,
}
use learning_crossplane_e2e.Chart.Props.{AppProps}
use learning_crossplane_e2e.Chart.App.{Construct, new_app}

-- Values and what was printed so far, or the message with which `log.Fatalf` ends the process.
pub data Loaded : Type 0 where
  loaded : AppProps → List String → Loaded
  fatal : String → Loaded

-- What the code calls. A file gives its content and an error, since Go's ReadFile returns both; the
-- decoder starts from the values so far and gives new ones or an error; `node_id` is the identifier
-- of a construct's node.
pub record Library : Type 0 where
  pub getenv : String → String
  pub read_file : String → String × Option String
  pub unmarshal : String → AppProps → AppProps ⊎ String
  pub node_id : String → Option String

-- `&AppProps{}`
abbrev pub zero_app_props : AppProps
zero_app_props = record {
  name = "";
  image = record { repository = ""; tag = "" };
  replicas = record { bits = 0 };
  ingress = record { host = ""; class_name = "" };
  tls = record { enabled = false };
  db = record {
    id = "";
    insecure = false;
    enabled = record {
      helm = false;
      crossplane = record { local = false; google = false; aws = false; azure = false };
    };
    size = "";
  };
  schema_hero = record { enabled = false };
  otel = record { enabled = false; jaeger_addr = "" };
  logging = record { enabled = false };
}

-- An error of reading is printed, and the content is decoded all the same.
abbrev pub printed : Option String → List String → List String
printed none log = log
printed (some message) log = ("yamlFile.Get err   #" ⊕ (message ⊕ " ")) ∷ log

abbrev pub decoded : AppProps ⊎ String → List String → Loaded
decoded (inl app) log = loaded app log
decoded (inr message) log = fatal ("Unmarshal: " ⊕ message)

module _ (library : Library) where
  unfoldable pub set_values : String → Loaded → Loaded
  set_values file (fatal message) = fatal message
  set_values file (loaded app log) =
      let (content, error) = library.read_file file in
      decoded (library.unmarshal content app) (printed error log)

  abbrev pub variant_file : String → String
  variant_file env = "app-" ⊕ (env ⊕ ".yaml")

  -- The values that the chart is built from.
  unfoldable pub load_values : Loaded
  unfolding set_values
  load_values =
      let base = set_values "app.yaml" (loaded zero_app_props []) in
      if is_empty (library.getenv "ENVIRONMENT")
      then base
      else set_values (variant_file (library.getenv "ENVIRONMENT")) base

  -- The constructs of the chart, where the process does not end first.
  abbrev pub charted : String → Loaded → Option (List Construct) ⊎ String
  charted id (loaded app log) = inl (new_app (library.node_id id) (some id) app)
  charted id (fatal message) = inr message

  unfoldable pub new_cncf_demo_chart : String → Option (List Construct) ⊎ String
  unfolding load_values
  new_cncf_demo_chart id = charted id load_values
