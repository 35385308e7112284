-- ===== src/Deployment/Tests.antt =====
-- The deployment of a small application whose database runs in the cluster.
use learning_crossplane_e2e.Prelude.{String, true, false, [], ◌∷◌, none, some, ◌≡◌, refl, ap, subst}
use learning_crossplane_e2e.Server.State.{Services, ok, done, run}
use learning_crossplane_e2e.Server.Database.{db_options}
use learning_crossplane_e2e.Server.Videos.{videos_get_handler, video_post_handler}
use learning_crossplane_e2e.Server.Responses.Post.{video_of}
use learning_crossplane_e2e.Server.Catalog.{Holds}
use learning_crossplane_e2e.Server.Catalog.RoundTrip.{Shows}
use learning_crossplane_e2e.Server.Catalog.Tests.{
  inserted, inserted-Holds, videos_or, intro, stored,
}
use learning_crossplane_e2e.Server.Startup.{Platform, Server, file, jaeger, start}
use learning_crossplane_e2e.Server.Serving.{initial, here, routes}
use learning_crossplane_e2e.Chart.Props.{AppProps}
use learning_crossplane_e2e.Chart.DbEnv.{set_db_env}
use learning_crossplane_e2e.Chart.Schema.{database_connection}
use learning_crossplane_e2e.Chart.Agreement.{env_lookup}
use learning_crossplane_e2e.Chart.Main.{zero_app_props}
use learning_crossplane_e2e.Deployment.{resolved, env_of, Deployed, Connects}
use learning_crossplane_e2e.Deployment.Connection.{get_db-Connects}
use learning_crossplane_e2e.Deployment.Catalog.{Deployed-Shows}
use learning_crossplane_e2e.Deployment.Probes.{IsProbed}
use learning_crossplane_e2e.Deployment.Probes.Reached.{start-IsProbed}
use learning_crossplane_e2e.Chart.App.Build.{constructs, new_app-constructs}
use learning_crossplane_e2e.Chart.Workload.{main_container}

abbrev local_app : AppProps
local_app = record zero_app_props {
  name = "cncf-demo";
  db = record {
    id = "my-db";
    insecure = false;
    enabled = record {
      helm = false;
      crossplane = record { local = true; google = false; aws = false; azure = false };
    };
    size = "small";
  };
}

abbrev passwords : String → String → String
passwords name key = "postgres"

abbrev cluster : Services
cluster = record {
  getenv = λ name.
      resolved passwords
        (env_lookup name (env_of (set_db_env local_app (main_container local_app))));
  quote = λ s. s;
  new_sdk_client = λ configuration. ok configuration;
  check = λ past client body. ok (some true);
  select = λ past db. ok (inserted past);
  insert = λ past db video. ok tt;
  inject = λ context headers. ("traceparent", context) ∷ headers;
  extra_stack = 0;
  get = λ past headers url. ok "pong";
}

cluster-Deployed : Deployed cluster.getenv passwords local_app (main_container local_app)
cluster-Deployed = record { given = λ name v. refl }

get_db-Connects_example : Connects cluster passwords (database_connection local_app) initial
get_db-Connects_example =
    get_db-Connects cluster passwords local_app (main_container local_app) initial cluster-Deployed
      (λ name key. refl) refl refl refl refl refl refl

posted_intro : video_post_handler cluster intro initial ≡ done tt (stored cluster)
unfolding run video_post_handler set_db_env
posted_intro = refl

Deployed-Shows_example : Shows (video_of intro) (videos_get_handler cluster intro (stored cluster))
Deployed-Shows_example =
    Deployed-Shows cluster passwords local_app intro intro initial (stored cluster) (stored cluster)
      cluster-Deployed (λ name key. refl) refl refl refl (λ past. (inserted past, refl))
      (λ past videos v a e.
        subst (Holds v) (ap (videos_or []) e)
          (inserted-Holds cluster (db_options cluster) v past a))
      here posted_intro refl here

abbrev node : Platform
node = record {
  getenv = cluster.getenv;
  create_file = λ name. ok tt;
  new_stdout_exporter = λ name. ok (file name);
  new_jaeger_exporter = λ url. ok (jaeger url);
}

abbrev default_server : Server
default_server = record {
  debug = false;
  service_name = "cncf-demo";
  provider = record { exporter = file "traces.json"; always_sample = true; service_name = none };
  middleware = "cncf-demo";
  routes = routes;
  address = ":8080";
}

node_starts : start node ≡ ok default_server
unfolding start set_db_env
node_starts = refl

start-IsProbed_example :
    IsProbed default_server (constructs (some "cncf-demo") "cncf-demo" local_app)
start-IsProbed_example =
    start-IsProbed node passwords default_server (some "cncf-demo") "cncf-demo" local_app
      (constructs (some "cncf-demo") "cncf-demo" local_app) cluster-Deployed node_starts
      (new_app-constructs (some "cncf-demo") "cncf-demo" local_app)
