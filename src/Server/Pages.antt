-- ===== src/Server/Pages.antt =====
-- rootHandler of root.go and pingHandler of ping.go.
pub mod Answer
pub mod Relay
use Prim.Native.String
use learning_crossplane_e2e.Prelude.{[], ◌∷◌, ◌⊕◌, String, is_empty, if◌then◌else◌}
use learning_crossplane_e2e.Server.Errors.{
  status_ok, status_internal_server_error, http_error_bad_request,
}
use learning_crossplane_e2e.Server.State.{
  Headers, when◌then◌else◌, Request, M, ◌>>=◌, ◌>>◌, emit, call, defer_end, Result, ok, err,
  Services, log, debug, text_response, ping_request,
}

module _ (svc : Services) where
  -- The steps of `output` in rootHandler.
  unfoldable pub root_message : String
  root_message =
      if is_empty (svc.getenv "MESSAGE") then "This is a silly demo" else svc.getenv "MESSAGE"

  unfoldable pub root_versioned : String → String
  root_versioned output =
      if is_empty (svc.getenv "VERSION")
      then output
      else output ⊕ " version " ⊕ svc.getenv "VERSION"

  unfoldable pub root_html : Request → String → String
  root_html req output = if is_empty (req.query "html") then output else "<h1>" ⊕ output ⊕ "</h1>"

  unfoldable pub root_handler : Request → M (Unit {0})
  unfolding root_message root_versioned root_html
  root_handler req =
      when is_empty (req.query "fail")
      then emit (debug "Handling request" req.request_uri)
        >> emit (text_response status_ok (root_html req (root_versioned root_message) ⊕ "\n"))
      else emit (text_response status_internal_server_error "Something terrible happened")

  -- What follows `req.Get(url)`.
  unfoldable pub relay : Result String → M (Unit {0})
  unfolding http_error_bad_request
  relay (err message) = http_error_bad_request message
  relay (ok body) = do emit (log body); emit (text_response status_ok body)

  abbrev pub ping_url : Request → String
  ping_url req = if is_empty (req.query "url") then svc.getenv "PING_URL" else req.query "url"

  -- The headers that are set and injected before the request is sent.
  abbrev pub ping_headers : Request → Headers
  ping_headers req = svc.inject req.trace_context (("Content-Type", "application/text") ∷ [])

  unfoldable pub ping_body : Request → M (Unit {0})
  unfolding http_error_bad_request relay
  ping_body req =
      when is_empty (ping_url req)
      then http_error_bad_request "url is empty"
      else emit (log ("Sending a ping to " ⊕ ping_url req))
        >> (call (ping_request (ping_headers req) (ping_url req))
              (λ past. svc.get past (ping_headers req) (ping_url req))
            >>= relay)

  unfoldable pub ping_handler : Request → M (Unit {0})
  unfolding ping_body
  ping_handler req = defer_end (ping_body req)
