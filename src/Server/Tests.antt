-- ===== src/Server/Tests.antt =====
-- The server's theorems at work on a small configuration: an authorization server that lets only
-- "ana" in, and a database that accepts everything.
use text.Mathlib.Text.{◌==◌ as str_eq}
use learning_crossplane_e2e.Prelude.{
  ◌-◌, inr, String, true, none, some, List, [], ◌∷◌, ◌≡◌, refl, arith, if◌then◌else◌,
}
use learning_crossplane_e2e.Strconv.{word_mod, itoa, atoi, decimal}
use learning_crossplane_e2e.Server.State.{
  State, done, Services, Request, DbOptions, ok, run, span_end, text_response, debug, db_connect,
  db_add_query_hook,
}
use learning_crossplane_e2e.Server.Openfga.{check_request}
use learning_crossplane_e2e.Server.Database.{db_options, open_db, get_db}
use learning_crossplane_e2e.Server.Videos.{videos_get_handler, video_post_handler}
use learning_crossplane_e2e.Server.Pages.{
  root_handler, ping_handler, root_message, root_versioned, root_html,
}
use learning_crossplane_e2e.Server.Pages.Answer.{handlers-AnswersOnce}
use learning_crossplane_e2e.Server.Fibonacci.{stack_depth, calculate_fibonacci, fibonacci_handler}
use learning_crossplane_e2e.Server.Fibonacci.Value.{fib, Computed, calculate_fibonacci-Computed}
use learning_crossplane_e2e.Server.Fibonacci.Answer.{
  Answers, fibonacci_handler-Answers, fibonacci_handler_negative, fibonacci_handler-AnswersOnce,
}
use learning_crossplane_e2e.Server.Authorization.Check.{
  GrantsFirst, videos_get_handler-GrantsFirst, video_post_handler-GrantsFirst,
}
use learning_crossplane_e2e.Server.Spans.{EndsSpans, handlers-EndsSpans}
use learning_crossplane_e2e.Server.Responses.{
  AnswersOnce, AnsweredOnce, videos_get_handler-AnsweredOnce,
}
use learning_crossplane_e2e.Server.Responses.Post.{
  AnsweredOrStored, video_post_handler-AnsweredOrStored,
}
use learning_crossplane_e2e.Server.Serving.{root, handle, initial, returned, Reaches, here, next}
use learning_crossplane_e2e.Server.Serving.Session.{Reaches-no_session, Reaches-get_db_connects}
use learning_crossplane_e2e.Server.Fibonacci.Bounds.{Costs, calculate_fibonacci-Costs}
use learning_crossplane_e2e.Server.Process.{World, comes_back, main_run}
use learning_crossplane_e2e.Server.Process.Shutdown.{Runs, main_run-Runs}
use learning_crossplane_e2e.Server.Startup.{file, jaeger, Platform, Server, start}
use learning_crossplane_e2e.Server.Startup.Options.{IsConsistent, start-IsConsistent}

-- The value of the first pair with the given name.
abbrev lookup : List (String × String) → String → String
lookup [] name = ""
lookup (p ∷ ps) name = if str_eq p.0 name then p.1 else lookup ps name

abbrev demo : Services
demo = record {
  getenv = lookup (
      ("FGA_API_URL", "http://openfga:8080")
      ∷ ("FGA_STORE_ID", "store")
      ∷ ("FGA_MODEL_ID", "model")
      ∷ ("DB_ENDPOINT", "db")
      ∷ ("DB_PORT", "5432")
      ∷ ("DB_USER", "postgres")
      ∷ ("DB_PASS", "secret")
      ∷ ("DB_NAME", "videos")
      ∷ []);
  quote = λ s. s;
  new_sdk_client = λ configuration. ok configuration;
  check = λ past client body. ok (some (str_eq body.user "user:ana"));
  select = λ past db. ok [];
  insert = λ past db video. ok tt;
  inject = λ context headers. ("traceparent", context) ∷ headers;
  extra_stack = 0;
  get = λ past headers url. ok "pong";
}

abbrev request : List (String × String) → Request
request fields = record { query = lookup fields; request_uri = "/"; trace_context = "00-1-1-01" }

abbrev ana : Request
ana = request (("user", "ana") ∷ ("id", "1") ∷ ("title", "Intro") ∷ [])

videos_get_handler-GrantsFirst_example :
    GrantsFirst demo (check_request "ana" "reader") initial (videos_get_handler demo ana initial)
videos_get_handler-GrantsFirst_example = videos_get_handler-GrantsFirst demo ana initial

video_post_handler-GrantsFirst_example :
    GrantsFirst demo (check_request "ana" "writer") initial (video_post_handler demo ana initial)
video_post_handler-GrantsFirst_example = video_post_handler-GrantsFirst demo ana initial

videos_get_handler-AnsweredOnce_example : AnsweredOnce 0 (videos_get_handler demo ana initial)
videos_get_handler-AnsweredOnce_example = videos_get_handler-AnsweredOnce demo ana initial

video_post_handler-AnsweredOrStored_example :
    AnsweredOrStored demo ana 0 (λ trace. span_end ∷ trace) (video_post_handler demo ana initial)
video_post_handler-AnsweredOrStored_example = video_post_handler-AnsweredOrStored demo ana initial

handlers-EndsSpans_example :
    EndsSpans (fibonacci_handler demo ana)
    × EndsSpans (videos_get_handler demo ana)
    × EndsSpans (video_post_handler demo ana)
    × EndsSpans (root_handler demo ana)
handlers-EndsSpans_example = handlers-EndsSpans demo ana

calculate_fibonacci-Computed_example : Computed 10 initial (calculate_fibonacci 11 10 initial)
calculate_fibonacci-Computed_example =
    calculate_fibonacci-Computed 11 10 initial (omega arith) (omega arith)

abbrev tenth : Request
tenth = request (("number", "10") ∷ [])

abbrev minus_two : Request
minus_two = request (("number", "-2") ∷ [])

tenth_asks : tenth.query "number" ≡ itoa 10
unfolding itoa decimal
tenth_asks = refl

minus_two_asks : minus_two.query "number" ≡ itoa (word_mod - 2)
unfolding itoa decimal
minus_two_asks = refl

fibonacci_handler-Answers_example : Answers (itoa (fib 10)) (fibonacci_handler demo tenth initial)
fibonacci_handler-Answers_example =
    fibonacci_handler-Answers demo tenth initial 10 (omega arith) tenth_asks

fibonacci_handler_negative_example : Answers "-2" (fibonacci_handler demo minus_two initial)
fibonacci_handler_negative_example =
    fibonacci_handler_negative demo minus_two initial (word_mod - 2) (omega arith) (omega arith)
      minus_two_asks

fibonacci_handler-AnswersOnce_example : AnswersOnce initial (fibonacci_handler demo tenth initial)
unfolding stack_depth atoi
fibonacci_handler-AnswersOnce_example =
    fibonacci_handler-AnswersOnce demo tenth initial (inr (omega arith))

handlers-AnswersOnce_example :
    AnswersOnce initial (root_handler demo ana initial)
    × AnswersOnce initial (ping_handler demo ana initial)
handlers-AnswersOnce_example = handlers-AnswersOnce demo ana initial

-- The state after one request of the root page.
abbrev visited : State
visited = record {
  trace = text_response 200 "This is a silly demo\n" ∷ debug "Handling request" "/" ∷ [];
  db_session = none;
}

root_visit : Reaches demo initial visited
unfolding handle root_handler root_message root_versioned root_html run
root_visit = next here (returned root ana refl)

Reaches-no_session_example : visited.db_session ≡ none
Reaches-no_session_example = Reaches-no_session root_visit

-- The options and the state of a first connection.
abbrev demo_db : DbOptions
demo_db = record {
  addr = "db:5432";
  user = "postgres";
  password = "secret";
  database = "videos";
  insecure_skip_verify = true;
}

abbrev connected : State
connected = record {
  trace = db_add_query_hook demo_db ∷ db_connect demo_db ∷ visited.trace;
  db_session = none;
}

visit_connects : get_db demo visited ≡ done (some demo_db) connected
unfolding get_db open_db run
visit_connects = refl

Reaches-get_db_connects_example :
    (demo_db ≡ db_options demo)
    × (connected.trace ≡ db_add_query_hook demo_db ∷ db_connect demo_db ∷ visited.trace)
Reaches-get_db_connects_example =
    Reaches-get_db_connects demo visited connected demo_db root_visit visit_connects

abbrev platform : Platform
platform = record {
  getenv = lookup (("JAEGER_ENDPOINT", "http://jaeger:14268") ∷ ("PORT", "9090") ∷ []);
  create_file = λ name. ok tt;
  new_stdout_exporter = λ name. ok (file name);
  new_jaeger_exporter = λ url. ok (jaeger url);
}

start-IsConsistent_example :
    (server : Server) × (start platform ≡ ok server) × IsConsistent platform server
start-IsConsistent_example =
    start-IsConsistent platform (file "traces.json") (jaeger "http://jaeger:14268") refl refl refl

calculate_fibonacci-Costs_example : Costs 10 initial (calculate_fibonacci 11 10 initial)
calculate_fibonacci-Costs_example =
    calculate_fibonacci-Costs 11 10 initial (omega arith) (omega arith)

-- A server that stops, and a provider that shuts down.
abbrev world : World
world = record {
  platform = platform;
  run_router = λ server. comes_back;
  shutdown = λ provider. none;
}

main_run-Runs_example : Runs world (main_run world)
main_run-Runs_example = main_run-Runs world
