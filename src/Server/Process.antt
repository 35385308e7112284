-- ===== src/Server/Process.antt =====
-- main of main.go from its first call to its last: what it logs, what it sets for the whole process,
-- and when it shuts the tracer provider down.
pub mod Shutdown
use Prim.Native.String
use text.Mathlib.Text.{◌==◌ as str_eq}
use learning_crossplane_e2e.Prelude.{
  ◌⊕◌, String, Option, none, some, List, [], ◌∷◌, ◌++◌, is_empty, if◌then◌else◌,
}
use learning_crossplane_e2e.Server.State.{Result, ok, err}
use learning_crossplane_e2e.Server.Startup.{Platform, TracerProvider, Server, start}

-- What main does to the process besides its own variables, in order: `log.SetOutput(os.Stderr)`,
-- `slog.SetLogLoggerLevel(slog.LevelDebug)`, the lines of package log, `otel.SetTracerProvider`,
-- `otel.SetTextMapPropagator`, `router.Run`, and `tp.Shutdown`.
pub data Step : Type 0 where
  set_log_output : Step
  set_debug_level : Step
  log_line : String → Step
  set_tracer_provider : TracerProvider → Step
  set_propagator : Step
  listen : Server → Step
  shut_down : TracerProvider → Step

-- `router.Run` goes on for ever, or comes back; main does not look at its error.
pub data Running : Type 0 where
  for_ever comes_back : Running

pub record World : Type 0 where
  pub platform : Platform
  pub run_router : Server → Running
  pub shutdown : TracerProvider → Option String

-- Main exits by `log.Fatal`, returns, or is still serving.
pub data End : Type 0 where
  exited returned serving : End

abbrev shutdown_log : Option String → List Step
shutdown_log none = []
shutdown_log (some message) = log_line ("Error shutting down tracer provider: " ⊕ message) ∷ []

module _ (world : World) where
  -- The first line of initFileTracer or of initJaegerTracer.
  unfoldable pub tracer_line : String
  tracer_line =
      if is_empty (world.platform.getenv "JAEGER_ENDPOINT")
      then "Initializing tracing to traces.json"
      else "Initializing tracing to jaeger at " ⊕ (world.platform.getenv "JAEGER_ENDPOINT" ⊕ "\n")

  -- The deferred function.
  unfoldable pub shutdown_steps : TracerProvider → List Step
  shutdown_steps provider = shut_down provider ∷ shutdown_log (world.shutdown provider)

  -- What follows `router.Run`.
  unfoldable pub served : Server → Running → List Step × End
  unfolding shutdown_steps
  served server for_ever = ([], serving)
  served server comes_back = (shutdown_steps server.provider, returned)

  -- What follows `initTracer`; the deferred function is registered only where it succeeds.
  unfoldable pub after_init : Result Server → List Step × End
  unfolding served
  after_init (err message) = (log_line message ∷ [], exited)
  after_init (ok server) =
      let (rest, end) = served server (world.run_router server) in
      (
        set_tracer_provider server.provider
            ∷ set_propagator
            ∷ log_line "Starting server..."
            ∷ listen server
            ∷ rest,
        end,
      )

  -- `if os.Getenv("DEBUG") == "true"`
  unfoldable pub level_steps : List Step
  level_steps = if str_eq (world.platform.getenv "DEBUG") "true" then set_debug_level ∷ [] else []

  unfoldable pub main_run : List Step × End
  unfolding after_init tracer_line level_steps
  main_run =
      let (rest, end) = after_init (start world.platform) in
      (set_log_output ∷ (level_steps ++ log_line tracer_line ∷ rest), end)
