-- ===== src/Server/Concurrent.antt =====
-- Requests that the server of main.go answers at the same time. Gin runs each handler in a goroutine
-- of its own, so the events of the requests mix: what a service answers depends on what all of the
-- requests did before.
pub mod Moments
pub mod Shared
pub mod RoundTrip
pub mod Authorization
pub mod Tests
use learning_crossplane_e2e.Prelude.{
  ℕ, zero, suc, Bool, List, [], ◌∷◌, ◌≡◌, ◌&&◌, ◌==◌, if◌then◌else◌,
}
use learning_crossplane_e2e.Server.State.{State, Event, Services, Request, Outcome, done}
use learning_crossplane_e2e.Server.Serving.{Handler, handle, initial}

-- The history of the server, the newest event first, each event with the number of its request.
abbrev pub History : Type 0
History = List (ℕ × Event)

abbrev pub all : History → List Event
all [] = []
all (p ∷ past) = p.1 ∷ all past

-- The events of one request, and how many they are.
abbrev pub local : ℕ → History → List Event
local i [] = []
local i (p ∷ past) = if p.0 == i then p.1 ∷ local i past else local i past

abbrev pub count : List Event → ℕ
count [] = 0
count (e ∷ past) = suc (count past)

-- The history before the event of request `i` that comes after `n` others of it.
abbrev pub moment : ℕ → ℕ → History → History
moment i n [] = []
moment i n (p ∷ past) = if (p.0 == i) && (count (local i past) == n) then past else moment i n past

-- The services as request `i` finds them: what they answer after the request's own events is what
-- they answer after all that had happened at that time.
abbrev pub view : Services → History → ℕ → Services
view svc history i = record svc {
  check = λ past. svc.check (all (moment i (count past) history));
  select = λ past. svc.select (all (moment i (count past) history));
  insert = λ past. svc.insert (all (moment i (count past) history));
  get = λ past. svc.get (all (moment i (count past) history));
}

-- Request `i` ran to its end: its events in the history are those of its handler's run. It starts
-- without a session: getDB assigns to a local variable, so `dbSession` is shared but never written.
pub record Ran (svc : Services) (history : History) (i : ℕ) (h : Handler) (req : Request)
    : Type 0 where
  pub final : State
  pub returns : handle (view svc history i) h req initial ≡ done tt final
  pub events : local i history ≡ final.trace
