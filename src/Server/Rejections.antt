-- ===== src/Server/Rejections.antt =====
-- The errors with which the handlers of video.go answer, each with its cause.
pub mod Denied
pub mod Refused
pub mod Unstored
pub mod Tests
use learning_crossplane_e2e.Prelude.{
  ℕ, String, Bool, true, false, Option, none, some, List, [], ◌∷◌, ◌≡◌, is_empty,
}
use learning_crossplane_e2e.Server.State.{
  State, Event, Services, Request, Outcome, done, Result, ok, err, ClientConfiguration,
  ClientCheckRequest, DbOptions, text_response, json_response, db_connect, db_select, db_insert,
}
use learning_crossplane_e2e.Server.Errors.{
  status_bad_request, status_unauthorized, status_internal_server_error,
}
use learning_crossplane_e2e.Server.Database.{first_set, db_options}
use learning_crossplane_e2e.Server.Responses.Post.{video_of}
use learning_crossplane_e2e.Server.Catalog.{visible, Allows, configuration_of}

-- The run returns, and what can be seen of its trace is `event` after `events`.
pub record Adds (event : Event) (events : List Event) (o : Outcome (Unit {0})) : Type 0 where
  pub final : State
  pub returns : o ≡ done tt final
  pub added : visible final.trace ≡ event ∷ events

-- Why the authorization server does not let a user in.
pub data Refusal (svc : Services) (body : ClientCheckRequest) : ℕ → String → Type 0 where
  store_missing :
      is_empty (svc.getenv "FGA_API_URL") ≡ false
      → is_empty (svc.getenv "FGA_STORE_ID") ≡ true
      → Refusal svc body status_internal_server_error "FGA_STORE_ID env. var. is missing"
  model_missing :
      is_empty (svc.getenv "FGA_API_URL") ≡ false
      → is_empty (svc.getenv "FGA_STORE_ID") ≡ false
      → is_empty (svc.getenv "FGA_MODEL_ID") ≡ true
      → Refusal svc body status_internal_server_error "FGA_MODEL_ID env. var. is missing"
  check_failed :
      (client : ClientConfiguration) (message : String)
      → is_empty (svc.getenv "FGA_API_URL") ≡ false
      → is_empty (svc.getenv "FGA_STORE_ID") ≡ false
      → is_empty (svc.getenv "FGA_MODEL_ID") ≡ false
      → svc.new_sdk_client (configuration_of svc) ≡ ok client
      → ((past : List Event) → svc.check past client body ≡ err message)
      → Refusal svc body status_internal_server_error message
  denied :
      (client : ClientConfiguration)
      → is_empty (svc.getenv "FGA_API_URL") ≡ false
      → is_empty (svc.getenv "FGA_STORE_ID") ≡ false
      → is_empty (svc.getenv "FGA_MODEL_ID") ≡ false
      → svc.new_sdk_client (configuration_of svc) ≡ ok client
      → ((past : List Event) → svc.check past client body ≡ ok (some false))
      → Refusal svc body status_unauthorized "not allowed"

-- The first variable that getDB misses.
pub data Missing (svc : Services) : String → Type 0 where
  no_endpoint :
      is_empty (svc.getenv "DB_ENDPOINT") ≡ true
      → Missing svc "Environment variable `DB_ENDPOINT` is empty"
  no_port :
      is_empty (svc.getenv "DB_ENDPOINT") ≡ false
      → is_empty (svc.getenv "DB_PORT") ≡ true
      → Missing svc "Environment variable `DB_PORT` is empty"
  no_user :
      is_empty (svc.getenv "DB_ENDPOINT") ≡ false
      → is_empty (svc.getenv "DB_PORT") ≡ false
      → is_empty (first_set svc "DB_USER" "DB_USERNAME") ≡ true
      → Missing svc "Environment variables `DB_USER` and `DB_USERNAME` are empty"
  no_pass :
      is_empty (svc.getenv "DB_ENDPOINT") ≡ false
      → is_empty (svc.getenv "DB_PORT") ≡ false
      → is_empty (first_set svc "DB_USER" "DB_USERNAME") ≡ false
      → is_empty (first_set svc "DB_PASS" "DB_PASSWORD") ≡ true
      → Missing svc "Environment variables `DB_PASS` and `DB_PASSWORD are empty"
  no_name :
      is_empty (svc.getenv "DB_ENDPOINT") ≡ false
      → is_empty (svc.getenv "DB_PORT") ≡ false
      → is_empty (first_set svc "DB_USER" "DB_USERNAME") ≡ false
      → is_empty (first_set svc "DB_PASS" "DB_PASSWORD") ≡ false
      → is_empty (svc.getenv "DB_NAME") ≡ true
      → Missing svc "Environment variable `DB_NAME` is empty"

-- Why a request does not come to the database.
pub data Rejection (svc : Services) (body : ClientCheckRequest) (session : Option DbOptions)
    : ℕ → String → Type 0 where
  refused :
      {status : ℕ} {message : String}
      → Refusal svc body status message
      → Rejection svc body session status message
  unconfigured :
      {message : String}
      → Allows svc body
      → session ≡ none
      → Missing svc message
      → Rejection svc body session status_bad_request message

-- Why a video is not stored, with what was asked of the database for it.
pub data Failure (svc : Services) (req : Request) : ℕ → String → List Event → Type 0 where
  id_empty : is_empty (req.query "id") ≡ true → Failure svc req status_bad_request "id is empty" []
  title_empty :
      is_empty (req.query "id") ≡ false
      → is_empty (req.query "title") ≡ true
      → Failure svc req status_bad_request "title is empty" []
  insert_failed :
      (message : String)
      → is_empty (req.query "id") ≡ false
      → is_empty (req.query "title") ≡ false
      → ((past : List Event) → svc.insert past (db_options svc) (video_of req) ≡ err message)
      → Failure svc req status_internal_server_error message
          (db_insert (db_options svc) (video_of req) ∷ [])
