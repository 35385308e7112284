-- ===== src/Server/Process/Shutdown.antt =====
-- The order in which main of main.go sets up, uses and shuts down the tracer provider.
use learning_crossplane_e2e.Prelude.{
  String, Bool, true, false, Option, none, some, List, [], ◌∷◌, ◌++◌, ◌≡◌, refl, if◌then◌else◌,
}
use learning_crossplane_e2e.Server.State.{Result, ok, err}
use learning_crossplane_e2e.Server.Startup.{TracerProvider, Server, start}
use learning_crossplane_e2e.Server.Process.{
  Step, set_log_output, set_debug_level, log_line, set_tracer_provider, set_propagator, listen,
  shut_down, Running, for_ever, comes_back, World, End, exited, returned, serving, served,
  after_init, level_steps, main_run, shutdown_steps, shutdown_log,
}

-- How far the tracing of the process is: not set up, the provider set, the propagator set too, a
-- server listening with both, and the provider shut down.
pub data Phase : Type 0 where
  untraced : Phase
  provided : TracerProvider → Phase
  propagating : TracerProvider → Phase
  listening : Server → Phase
  closed : Phase

-- The steps that each phase allows: a server listens only with its own provider and the propagator
-- set, and that provider is shut down only after the server.
pub data Follows : Phase → List Step → Phase → Type 0 where
  ended : {phase : Phase} → Follows phase [] phase
  redirects :
      {phase last : Phase} {steps : List Step}
      → Follows phase steps last
      → Follows phase (set_log_output ∷ steps) last
  debugs :
      {phase last : Phase} {steps : List Step}
      → Follows phase steps last
      → Follows phase (set_debug_level ∷ steps) last
  logs :
      {phase last : Phase} {steps : List Step} {message : String}
      → Follows phase steps last
      → Follows phase (log_line message ∷ steps) last
  provides :
      {last : Phase} {steps : List Step} {provider : TracerProvider}
      → Follows (provided provider) steps last
      → Follows untraced (set_tracer_provider provider ∷ steps) last
  propagates :
      {last : Phase} {steps : List Step} {provider : TracerProvider}
      → Follows (propagating provider) steps last
      → Follows (provided provider) (set_propagator ∷ steps) last
  listens :
      {last : Phase} {steps : List Step} {server : Server}
      → Follows (listening server) steps last
      → Follows (propagating server.provider) (listen server ∷ steps) last
  shuts_down :
      {last : Phase} {steps : List Step} {server : Server}
      → Follows closed steps last
      → Follows (listening server) (shut_down server.provider ∷ steps) last

-- How main ends in each phase, by what the calls before gave.
pub data Ends (world : World) : End → Phase → Type 0 where
  not_started : {message : String} → start world.platform ≡ err message → Ends world exited untraced
  stays :
      {server : Server}
      → start world.platform ≡ ok server
      → world.run_router server ≡ for_ever
      → Ends world serving (listening server)
  stops :
      {server : Server}
      → start world.platform ≡ ok server
      → world.run_router server ≡ comes_back
      → Ends world returned closed

-- The steps go from the first phase to one in which main ends in this way.
pub record Runs (world : World) (run : List Step × End) : Type 0 where
  pub phase : Phase
  pub follows : Follows untraced run.0 phase
  pub ends : Ends world run.1 phase

logged : (o : Option String) → Follows closed (shutdown_log o) closed
logged none = ended
logged (some message) = logs ended

served-Follows :
    (world : World) (server : Server) (running : Running)
    → start world.platform ≡ ok server
    → world.run_router server ≡ running
    → (phase : Phase) × Follows (listening server) (served world server running).0 phase
      × Ends world (served world server running).1 phase
unfolding served shutdown_steps
served-Follows world server for_ever e r = (listening server, ended, stays e r)
served-Follows world server comes_back e r =
    (closed, shuts_down (logged (world.shutdown server.provider)), stops e r)

after_init-Runs :
    (world : World) (r : Result Server) → start world.platform ≡ r → Runs world (after_init world r)
unfolding after_init
after_init-Runs world (err message) e = record {
  phase = untraced;
  follows = logs ended;
  ends = not_started e;
}
after_init-Runs world (ok server) e =
    let (phase, follows, ends) = served-Follows world server _ e refl in
    record { phase = phase; follows = provides (propagates (logs (listens follows))); ends = ends }

level_steps-Follows :
    (world : World) {steps : List Step} {last : Phase}
    → Follows untraced steps last
    → Follows untraced (level_steps world ++ steps) last
unfolding level_steps
level_steps-Follows world {steps} {last} follows = go _
  where
    go :
        (debug : Bool)
        → Follows untraced ((if debug then set_debug_level ∷ [] else []) ++ steps) last
    go true = debugs follows
    go false = follows

-- Main sets the tracer provider, then the propagator, and only then listens, with the server that
-- has this provider; it shuts this provider down once, after the server has stopped and before it
-- returns. Where it cannot start it exits without any of these; otherwise it listens, and returns
-- exactly where `router.Run` comes back.
pub main_run-Runs : (world : World) → Runs world (main_run world)
unfolding main_run
main_run-Runs world =
    let run = after_init-Runs world _ refl in
    record {
      phase = run.phase;
      follows = redirects (level_steps-Follows world (logs run.follows));
      ends = run.ends;
    }
