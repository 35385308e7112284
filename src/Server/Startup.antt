-- ===== src/Server/Startup.antt =====
-- main and opentelemetry.go: what the process is started with. An exporter is known by how it was
-- made, a tracer provider by the options it was given.
pub mod Options
use Prim.Native.String
use text.Mathlib.Text.{◌==◌ as str_eq}
use learning_crossplane_e2e.Prelude.{
  ◌⊕◌, String, Bool, true, false, Option, none, some, List, is_empty, if◌then◌else◌,
}
use learning_crossplane_e2e.Server.State.{Result, ok, err}
use learning_crossplane_e2e.Server.Serving.{Method, Handler, routes}

pub data Exporter : Type 0 where
  file : String → Exporter
  jaeger : String → Exporter

-- `service_name` is the attribute of the provider's resource, where it is given one.
pub record TracerProvider : Type 0 where
  pub exporter : Exporter
  pub always_sample : Bool
  pub service_name : Option String

-- What main asks of the packages it calls: a file, and the two exporters.
pub record Platform : Type 0 where
  pub getenv : String → String
  pub create_file : String → Result (Unit {0})
  pub new_stdout_exporter : String → Result Exporter
  pub new_jaeger_exporter : String → Result Exporter

-- The process before `router.Run`: its level of logging, provider, middleware, routes and address.
pub record Server : Type 0 where
  pub debug : Bool
  pub service_name : String
  pub provider : TracerProvider
  pub middleware : String
  pub routes : List (Method × String × Handler)
  pub address : String

-- What follows the making of an exporter: the first error is returned.
unfoldable pub provider_of : Bool → Option String → Result Exporter → Result TracerProvider
provider_of always service (err message) = err message
provider_of always service (ok exporter) =
    ok (record { exporter = exporter; always_sample = always; service_name = service })

module _ (platform : Platform) where
  -- What follows `os.Create`.
  unfoldable pub with_file : Result (Unit {0}) → Result TracerProvider
  unfolding provider_of
  with_file (err message) = err message
  with_file (ok _) = provider_of true none (platform.new_stdout_exporter "traces.json")

  unfoldable pub init_file_tracer : Result TracerProvider
  unfolding with_file
  init_file_tracer = with_file (platform.create_file "traces.json")

  unfoldable pub init_jaeger_tracer : String → String → Result TracerProvider
  unfolding provider_of
  init_jaeger_tracer service url =
      provider_of false (some service) (platform.new_jaeger_exporter url)

  -- `service` is the package variable `serviceName`.
  unfoldable pub init_tracer : String → Result TracerProvider
  unfolding init_file_tracer init_jaeger_tracer
  init_tracer service =
      if is_empty (platform.getenv "JAEGER_ENDPOINT")
      then init_file_tracer
      else init_jaeger_tracer service (platform.getenv "JAEGER_ENDPOINT")

  unfoldable pub service_of : String
  service_of =
      if is_empty (platform.getenv "SERVICE_NAME")
      then "cncf-demo"
      else platform.getenv "SERVICE_NAME"

  unfoldable pub port_of : String
  port_of = if is_empty (platform.getenv "PORT") then "8080" else platform.getenv "PORT"

  -- What follows `initTracer`: an error is the message of `log.Fatal`.
  unfoldable pub server_of : Result TracerProvider → Result Server
  unfolding service_of port_of
  server_of (err message) = err message
  server_of (ok provider) = ok (record {
    debug = str_eq (platform.getenv "DEBUG") "true";
    service_name = service_of;
    provider = provider;
    middleware = service_of;
    routes = routes;
    address = ":" ⊕ port_of;
  })

  unfoldable pub start : Result Server
  unfolding init_tracer server_of
  start = server_of (init_tracer service_of)
