-- ===== src/Server/Pages/Relay.antt =====
-- What pingHandler of ping.go asks of another server, and what it answers.
use learning_crossplane_e2e.Prelude.{
  ◌⊕◌, ℕ, String, true, false, ap, ◌∙◌, if◌then◌else◌, List, [], ◌∷◌, ◌++◌, ◌≡◌, refl, is_empty,
}
use learning_crossplane_e2e.Server.State.{
  State, Event, Headers, ended, Services, Request, Outcome, done, ok, err, run, record_event,
  span_error, span_status_error, span_end, log, text_response, ping_request,
}
use learning_crossplane_e2e.Server.Errors.{
  status_ok, status_bad_request, http_error, http_error_bad_request,
}
use learning_crossplane_e2e.Server.Pages.{relay, ping_url, ping_handler}
use learning_crossplane_e2e.Server.Catalog.{visible}

-- The requests sent to other servers.
abbrev pub pings : List Event → List Event
pings [] = []
pings (ping_request headers url ∷ past) = ping_request headers url ∷ pings past
pings (_ ∷ past) = pings past

-- The URL of a ping: that of the query, else that of the environment.
pub data Target (svc : Services) (req : Request) : String → Type 0 where
  in_query : is_empty (req.query "url") ≡ false → Target svc req (req.query "url")
  in_environment :
      is_empty (req.query "url") ≡ true
      → is_empty (svc.getenv "PING_URL") ≡ false
      → Target svc req (svc.getenv "PING_URL")

-- The content type, and what the propagator adds from the context of the request.
abbrev pub traced : Services → Request → Headers
traced svc req = svc.inject req.trace_context (("Content-Type", "application/text") ∷ [])

-- How a ping goes: the status, the body, and what is sent.
pub data Ping (svc : Services) (req : Request) : ℕ → String → List Event → Type 0 where
  no_url :
      is_empty (req.query "url") ≡ true
      → is_empty (svc.getenv "PING_URL") ≡ true
      → Ping svc req 400 "url is empty" []
  unreachable :
      {url : String} (message : String)
      → Target svc req url
      → ((past : List Event) → svc.get past (traced svc req) url ≡ err message)
      → Ping svc req 400 message (ping_request (traced svc req) url ∷ [])
  reached :
      {url : String} (body : String)
      → Target svc req url
      → ((past : List Event) → svc.get past (traced svc req) url ≡ ok body)
      → Ping svc req 200 body (ping_request (traced svc req) url ∷ [])

pub record Pings (response : Event) (sent : List Event) (s : State) (o : Outcome (Unit {0}))
    : Type 0 where
  pub final : State
  pub returns : o ≡ done tt final
  pub answered : visible final.trace ≡ response ∷ visible s.trace
  pub asked : pings final.trace ≡ sent ++ pings s.trace

-- The events of httpError.
errored : String → State → State
errored message s = record_event (text_response status_bad_request message) (
    record_event (span_status_error message)
      (record_event (span_error message) (record_event (log message) s)))

abbrev asking : String → State → State
asking url s = record_event (log ("Sending a ping to " ⊕ url)) s

abbrev pinged : Services → Request → String → State → State
pinged svc req url s = record_event (ping_request (traced svc req) url) (asking url s)

Target-ping_url :
    (svc : Services) (req : Request) (url : String)
    → Target svc req url
    → (ping_url svc req ≡ url) × (is_empty url ≡ false)
Target-ping_url svc req _ (in_query given) =
    (ap (λ b. if b then svc.getenv "PING_URL" else req.query "url") given, given)
Target-ping_url svc req _ (in_environment none_given set) =
    (ap (λ b. if b then svc.getenv "PING_URL" else req.query "url") none_given, set)

-- What is sent, and what follows it.
abbrev sending : Services → Request → State → String → Outcome (Unit {0})
sending svc req s url =
    ended (relay svc (svc.get (asking url s).trace (traced svc req) url) (pinged svc req url s))

sent_to_url :
    (svc : Services) (req : Request) (s : State)
    → is_empty (ping_url svc req) ≡ false
    → ping_handler svc req s ≡ sending svc req s (ping_url svc req)
unfolding ping_handler run
sent_to_url svc req s given = rw given refl

sent_to :
    (svc : Services) (req : Request) (url : String) (s : State)
    → Target svc req url
    → ping_handler svc req s ≡ sending svc req s url
sent_to svc req url s target =
    let (same, given) = Target-ping_url svc req url target in
    sent_to_url svc req s (ap is_empty same ∙ given) ∙ ap (sending svc req s) same

-- pingHandler returns with just one response, where what the other server answers does not depend
-- on the calls before. With a URL neither in the request nor in PING_URL, the response is an error
-- with status 400 and nothing is sent; else one request is sent, to the URL of the request or,
-- without one, to that of PING_URL, with the content type and what the propagator adds from the
-- context of the request. The response is the error of that request with status 400, or its body
-- with status 200.
pub ping_handler-Pings :
    (svc : Services) (req : Request) (s : State) (status : ℕ) (body : String) (sent : List Event)
    → Ping svc req status body sent
    → Pings (text_response status body) sent s (ping_handler svc req s)
unfolding ping_handler relay http_error_bad_request http_error run errored
ping_handler-Pings svc req s _ _ _ (no_url none_given unset) = record {
  final = record_event span_end (errored "url is empty" s);
  returns = rw (none_given, unset) refl;
  answered = refl;
  asked = refl;
}
ping_handler-Pings svc req s _ _ _ (unreachable {url} message target fails) = record {
  final = record_event span_end (errored message (pinged svc req url s));
  returns =
      sent_to svc req url s target
      ∙ ap (λ r. ended (relay svc r (pinged svc req url s))) (fails (asking url s).trace);
  answered = refl;
  asked = refl;
}
ping_handler-Pings svc req s _ _ _ (reached {url} body target answers) = record {
  final = record_event span_end (
      record_event (text_response status_ok body) (record_event (log body) (pinged svc req url s)));
  returns =
      sent_to svc req url s target
      ∙ ap (λ r. ended (relay svc r (pinged svc req url s))) (answers (asking url s).trace);
  answered = refl;
  asked = refl;
}
