-- ===== src/Server/Startup/Options.antt =====
-- Whether the parts that main starts are given the same names.
use learning_crossplane_e2e.Prelude.{
  [], ◌∷◌, ◌⊕◌, String, Bool, true, false, Option, none, some, ◌≡◌, refl, inl, inr, sym, ap,
  is_empty, Bool-cases, arith, if◌then◌else◌,
}
use learning_crossplane_e2e.Server.State.{Result, ok, err}
use learning_crossplane_e2e.Server.Serving.{
  get, post, fibonacci, video_post, videos_get, ping, root, routes,
}
use learning_crossplane_e2e.Server.Startup.{
  Exporter, TracerProvider, Platform, Server, provider_of, init_file_tracer, init_jaeger_tracer,
  init_tracer, with_file, service_of, port_of, server_of, start,
}

with_default {ℓ} : {A : Type ℓ} → A → Result A → A
with_default a (ok b) = b
with_default a (err m) = a

ok_inj {ℓ} : {A : Type ℓ} {a b : A} → ok a ≡ ok b → a ≡ b
unfolding with_default
ok_inj {a} h = ap (with_default a) h

-- The traces go to a local file, all of them, or to a Jaeger collector under the service's name.
pub data Traced (platform : Platform) (service : String) (provider : TracerProvider) : Type 0 where
  to_file :
      (exporter : Exporter)
      → is_empty (platform.getenv "JAEGER_ENDPOINT") ≡ true
      → platform.new_stdout_exporter "traces.json" ≡ ok exporter
      → provider ≡ record { exporter = exporter; always_sample = true; service_name = none }
      → Traced platform service provider
  to_jaeger :
      (exporter : Exporter)
      → is_empty (platform.getenv "JAEGER_ENDPOINT") ≡ false
      → platform.new_jaeger_exporter (platform.getenv "JAEGER_ENDPOINT") ≡ ok exporter
      → provider
        ≡ record { exporter = exporter; always_sample = false; service_name = some service }
      → Traced platform service provider

pub record IsConsistent (platform : Platform) (server : Server) : Type 0 where
  pub traced : Traced platform server.middleware server.provider
  pub one_name : server.middleware ≡ server.service_name
  pub named : is_empty server.service_name ≡ false
  pub port : String
  pub listens : server.address ≡ ":" ⊕ port
  pub ported : is_empty port ≡ false
  pub routed :
      server.routes
      ≡ (get, "/fibonacci", fibonacci)
        ∷ (post, "/video", video_post)
        ∷ (get, "/videos", videos_get)
        ∷ (get, "/ping", ping)
        ∷ (get, "/", root)
        ∷ []

provider_of-ok :
    (always : Bool) (service : Option String) (r : Result Exporter) (p : TracerProvider)
    → provider_of always service r ≡ ok p
    → (e : Exporter) × (r ≡ ok e)
      × (p ≡ record { exporter = e; always_sample = always; service_name = service })
unfolding provider_of
provider_of-ok always service (ok e) p h = (e, refl, ground (arith, h))
provider_of-ok always service (err m) p h = absurd (ground (arith, h))

with_file-Traced :
    (platform : Platform) (service : String) (r : Result (Unit {0})) (p : TracerProvider)
    → is_empty (platform.getenv "JAEGER_ENDPOINT") ≡ true
    → with_file platform r ≡ ok p
    → Traced platform service p
unfolding with_file
with_file-Traced platform service (err message) p b h = absurd (ground (arith, h))
with_file-Traced platform service (ok _) p b h =
    let (e, made, same) = provider_of-ok _ _ _ p h in to_file e b made same

init_tracer-Traced :
    (platform : Platform) (service : String) (p : TracerProvider)
    → init_tracer platform service ≡ ok p
    → Traced platform service p
unfolding init_tracer init_file_tracer init_jaeger_tracer
init_tracer-Traced platform service p h =
    elim (Bool-cases (is_empty (platform.getenv "JAEGER_ENDPOINT"))) [
      | inl b ↦ with_file-Traced platform service _ p b (rw b at h)
      | inr b ↦ let (e, made, same) = provider_of-ok _ _ _ p (rw b at h) in to_jaeger e b made same
    ]

or_default_given :
    (s t : String) → is_empty t ≡ false → is_empty (if is_empty s then t else s) ≡ false
or_default_given s t h = ground (arith, h)

server_of-IsConsistent :
    (platform : Platform) (r : Result TracerProvider) (server : Server)
    → ((p : TracerProvider) → r ≡ ok p → Traced platform (service_of platform) p)
    → server_of platform r ≡ ok server
    → IsConsistent platform server
unfolding server_of service_of port_of
server_of-IsConsistent platform (err m) server traced h = absurd (ground (arith, h))
server_of-IsConsistent platform (ok p) server traced h =
    let same = sym (ok_inj h) in
    rw same (record {
      traced = traced p refl;
      one_name = refl;
      named = or_default_given (platform.getenv "SERVICE_NAME") "cncf-demo" refl;
      port = _;
      listens = refl;
      ported = or_default_given (platform.getenv "PORT") "8080" refl;
      routed = refl;
    })

server_of-listens :
    (platform : Platform) (r : Result TracerProvider) (server : Server)
    → server_of platform r ≡ ok server
    → (server.address ≡ ":" ⊕ port_of platform) × (server.routes ≡ routes)
unfolding server_of
server_of-listens platform (err m) server h = absurd (ground (arith, h))
server_of-listens platform (ok p) server h =
    let same = sym (ok_inj h) in
    (ap (λ (s : Server). s.address) same, ap (λ (s : Server). s.routes) same)

-- A server that could start.
pub start-listens :
    (platform : Platform) (server : Server)
    → start platform ≡ ok server
    → (server.address ≡ ":" ⊕ port_of platform) × (server.routes ≡ routes)
unfolding start
start-listens platform server h = server_of-listens platform _ server h

started-IsConsistent :
    (platform : Platform) (server : Server)
    → start platform ≡ ok server
    → IsConsistent platform server
unfolding start
started-IsConsistent platform server h =
    server_of-IsConsistent platform _ server (init_tracer-Traced platform (service_of platform)) h

provided :
    (platform : Platform) (service : String) (f j : Exporter)
    → platform.create_file "traces.json" ≡ ok tt
    → platform.new_stdout_exporter "traces.json" ≡ ok f
    → platform.new_jaeger_exporter (platform.getenv "JAEGER_ENDPOINT") ≡ ok j
    → (p : TracerProvider) × (init_tracer platform service ≡ ok p)
unfolding init_tracer init_file_tracer init_jaeger_tracer with_file provider_of
provided platform service f j created filed traced =
    elim (Bool-cases (is_empty (platform.getenv "JAEGER_ENDPOINT"))) [
      | inl b ↦ (
        record { exporter = f; always_sample = true; service_name = none },
        rw (b, created, filed),
      )
      | inr b ↦ (
        record { exporter = j; always_sample = false; service_name = some service },
        rw (b, traced),
      )
    ]

server_starts :
    (platform : Platform) (p : TracerProvider)
    → init_tracer platform (service_of platform) ≡ ok p
    → (server : Server) × (start platform ≡ ok server)
unfolding start server_of
server_starts platform p e = (_, ap (server_of platform) e)

-- If the file and both exporters can be made, the server starts. Its traces go to the Jaeger
-- collector that is configured, under the name that the middleware gives to its spans, or, if none
-- is configured, to traces.json; the name and the port that it listens on are not empty, and it has
-- the routes GET /fibonacci, POST /video, GET /videos, GET /ping and GET /, each with its handler.
pub start-IsConsistent :
    (platform : Platform) (f j : Exporter)
    → platform.create_file "traces.json" ≡ ok tt
    → platform.new_stdout_exporter "traces.json" ≡ ok f
    → platform.new_jaeger_exporter (platform.getenv "JAEGER_ENDPOINT") ≡ ok j
    → (server : Server) × (start platform ≡ ok server) × IsConsistent platform server
start-IsConsistent platform f j created filed traced =
    let (p, e) = provided platform (service_of platform) f j created filed traced in
    let (server, starts) = server_starts platform p e in
    (server, starts, started-IsConsistent platform server starts)
