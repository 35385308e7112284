-- ===== src/Server/Serving.antt =====
-- main.go: the start of the process, the routes, and the requests that the server answers in turn.
pub mod Runs
pub mod Session
use Prim.Native.String
use text.Mathlib.Text.{◌==◌ as str_eq}
use learning_crossplane_e2e.Prelude.{
  String, Bool, true, false, Option, none, some, List, [], ◌∷◌, ◌≡◌, ◌&&◌, is_empty, if◌then◌else◌,
}
use learning_crossplane_e2e.Server.State.{State, Services, Request, Outcome, done, panic, M}
use learning_crossplane_e2e.Server.Fibonacci.{fibonacci_handler}
use learning_crossplane_e2e.Server.Videos.{videos_get_handler, video_post_handler}
use learning_crossplane_e2e.Server.Pages.{root_handler, ping_handler}

pub data Method : Type 0 where
  get post : Method

pub data Handler : Type 0 where
  fibonacci video_post videos_get ping root : Handler

-- The routes that main registers, in order.
abbrev pub routes : List (Method × String × Handler)
routes =
    (get, "/fibonacci", fibonacci)
    ∷ (post, "/video", video_post)
    ∷ (get, "/videos", videos_get)
    ∷ (get, "/ping", ping)
    ∷ (get, "/", root)
    ∷ []

unfoldable pub handle : Services → Handler → Request → M (Unit {0})
handle svc fibonacci req = fibonacci_handler svc req
handle svc video_post req = video_post_handler svc req
handle svc videos_get req = videos_get_handler svc req
handle svc ping req = ping_handler svc req
handle svc root req = root_handler svc req

-- `var dbSession *pg.DB = nil`
abbrev pub initial : State
initial = record { trace = []; db_session = none }

-- One request: the handler returns, or panics and net/http drops the connection.
pub data Serves (svc : Services) : State → State → Type 0 where
  returned :
      {s t : State} (h : Handler) (req : Request) → handle svc h req s ≡ done tt t → Serves svc s t
  panicked :
      {s t : State} (h : Handler) (req : Request) → handle svc h req s ≡ panic t → Serves svc s t

pub data Reaches (svc : Services) : State → State → Type 0 where
  here : {s : State} → Reaches svc s s
  next : {s t u : State} → Reaches svc s t → Serves svc t u → Reaches svc s u
