-- ===== src/Server/State.antt =====
-- What a request handler reads and writes, and the monad in which the handlers are written.
use learning_crossplane_e2e.Prelude.{if◌then◌else◌, ℕ, String, List, ◌∷◌, Option, Bool}

-- Type Video of video.go.
pub record Video : Type 0 where
  pub id : String
  pub title : String

-- The fields that the code gives to `client.ClientConfiguration` and `client.ClientCheckRequest`.
pub record ClientConfiguration : Type 0 where
  pub api_url : String
  pub store_id : String
  pub authorization_model_id : String

pub record ClientCheckRequest : Type 0 where
  pub user : String
  pub relation : String
  pub object : String

-- The fields that the code gives to `pg.Options`; a `*pg.DB` is known by the options behind it.
pub record DbOptions : Type 0 where
  pub addr : String
  pub user : String
  pub password : String
  pub database : String
  pub insecure_skip_verify : Bool

-- The headers of an outgoing request.
abbrev pub Headers : Type 0
Headers = List (String × String)

-- What a handler does that can be seen from outside, one constructor for each library call.
pub data Event : Type 0 where
  span_start : String → Event
  span_attribute : String → String → Event
  span_event : String → Event
  span_error : String → Event
  span_status_error : String → Event
  span_end : Event
  log : String → Event
  debug : String → String → Event
  text_response : ℕ → String → Event
  json_response : ℕ → List Video → Event
  fga_client : ClientConfiguration → Event
  fga_request : ClientCheckRequest → Event
  db_connect : DbOptions → Event
  db_add_query_hook : DbOptions → Event
  db_select : DbOptions → Event
  db_insert : DbOptions → Video → Event
  ping_request : Headers → String → Event

-- `trace` has the newest event first; `db_session` is the package variable of video.go.
pub record State : Type 0 where
  pub trace : List Event
  pub db_session : Option DbOptions

-- A pair `(value, err)`; an error is known by its text.
pub data Result {ℓ} (A : Type ℓ) : Type ℓ where
  ok : A → Result A
  err : String → Result A

-- What is not under the repository. The answers of a service may depend on all that happened.
-- `inject` is what the global propagator makes of headers, from the context of the request. The stack
-- of a goroutine holds ten thousand calls of calculateFibonacci, and `extra_stack` more.
pub record Services : Type 0 where
  pub getenv : String → String
  pub quote : String → String
  pub new_sdk_client : ClientConfiguration → Result ClientConfiguration
  pub check : List Event → ClientConfiguration → ClientCheckRequest → Result (Option Bool)
  pub select : List Event → DbOptions → Result (List Video)
  pub insert : List Event → DbOptions → Video → Result (Unit {0})
  pub inject : String → Headers → Headers
  pub get : List Event → Headers → String → Result String
  pub extra_stack : ℕ

-- `trace_context` stands for what the context of the request holds for the propagator.
pub record Request : Type 0 where
  pub query : String → String
  pub request_uri : String
  pub trace_context : String

-- `panic` is a Go panic, `exit` is `log.Fatal`. With `unfinished` the fuel ran out: the stack cannot
-- hold one more call, and the process is killed.
pub data Outcome {ℓ} (A : Type ℓ) : Type ℓ where
  done : A → State → Outcome A
  panic : State → Outcome A
  exit : State → Outcome A
  unfinished : State → Outcome A

abbrev pub M {ℓ} : Type ℓ → Type ℓ
M A = State → Outcome A

unfoldable pub pure {ℓ} : {A : Type ℓ} → A → M A
pure a s = done a s

-- What follows an outcome: only a return goes on.
abbrev pub after {ℓ κ} : {A : Type ℓ} {B : Type κ} → (A → M B) → Outcome A → Outcome B
after f (done a s) = f a s
after f (panic s) = panic s
after f (exit s) = exit s
after f (unfinished s) = unfinished s

infixl 5 ◌>>=◌ ◌>>◌
unfoldable pub ◌>>=◌ {ℓ κ} : {A : Type ℓ} {B : Type κ} → M A → (A → M B) → M B
◌>>=◌ m f s = after f (m s)

abbrev pub ◌>>◌ {κ} : {B : Type κ} → M (Unit {0}) → M B → M B
m >> k = m >>= λ _. k

abbrev pub record_event : Event → State → State
record_event e s = record s { trace = e ∷ s.trace }

unfoldable pub emit : Event → M (Unit {0})
emit e s = done tt (record_event e s)

-- A call of a service: the event, and the service's answer in the history so far.
unfoldable pub call {ℓ} : {A : Type ℓ} → Event → (List Event → A) → M A
call e answer s = done (answer s.trace) (record_event e s)

-- `defer span.End()`: it runs on a return and on a panic, and not on `os.Exit`.
abbrev pub ended {ℓ} : {A : Type ℓ} → Outcome A → Outcome A
ended (done a s) = done a (record_event span_end s)
ended (panic s) = panic (record_event span_end s)
ended (exit s) = exit s
ended (unfinished s) = unfinished s

unfoldable pub defer_end {ℓ} : {A : Type ℓ} → M A → M A
defer_end m s = ended (m s)

-- `_, span := tracer.Start(ctx, name); defer span.End(); body`
unfoldable pub with_span {ℓ} : {A : Type ℓ} → String → M A → M A
with_span name body = do emit (span_start name); defer_end body

-- `if` between two computations.
infix 1 when◌then◌else◌
unfoldable pub when◌then◌else◌ {ℓ} : {A : Type ℓ} → Bool → M A → M A → M A
(when b then m else n) s = if b then m s else n s

-- A computation from a state; to unfold it is to unfold the monad.
unfoldable pub run {ℓ} : {A : Type ℓ} → M A → State → Outcome A
unfolding pure ◌>>=◌ emit call when◌then◌else◌ defer_end with_span
run m s = m s
