-- ===== src/Server/Rejections/Refused.antt =====
-- The handlers of video.go where the user is refused or the database is not configured.
use learning_crossplane_e2e.Prelude.{arith, ℕ, String, Option, none, List, ◌∷◌, ◌≡◌, refl, ap, ◌∙◌}
use learning_crossplane_e2e.Server.State.{
  State, Event, Services, Request, Outcome, done, M, run, ended, after, record_event, log,
  text_response, DbOptions,
}
use learning_crossplane_e2e.Server.Errors.{status_bad_request}
use learning_crossplane_e2e.Server.Openfga.{check_request, fga_check}
use learning_crossplane_e2e.Server.Database.{open_db, session_or, get_db}
use learning_crossplane_e2e.Server.Videos.{
  guarded, with_db, list_videos, list_behind, insert_video, insert_behind, videos_get_handler,
  video_post_handler,
}
use learning_crossplane_e2e.Server.Serving.{Handler, handle}
use learning_crossplane_e2e.Server.Concurrent.Authorization.{Asks, reading, writing}
use learning_crossplane_e2e.Server.Catalog.{visible}
use learning_crossplane_e2e.Server.Catalog.Stages.{
  getting, posting, get_connecting, post_connecting,
}
use learning_crossplane_e2e.Server.Catalog.Allowed.{fga_check-Passes}
use learning_crossplane_e2e.Server.Rejections.{
  Adds, Missing, no_endpoint, no_port, no_user, no_pass, no_name, Rejection, refused, unconfigured,
}
use learning_crossplane_e2e.Server.Rejections.Denied.{fga_check-Refuses, refused-Adds, passed-Adds}

-- getDB returns nil behind one response.
record Misses (message : String) (events : List Event) (o : Outcome (Option DbOptions))
    : Type 0 where
  pub final : State
  pub returns : o ≡ done none final
  pub added : visible final.trace ≡ text_response status_bad_request message ∷ events

missed : String → State → State
missed message s =
    record_event (text_response status_bad_request message) (record_event (log message) s)

open_db-missed :
    (svc : Services) (message : String) (s : State)
    → Missing svc message
    → open_db svc s ≡ done none (missed message s)
unfolding open_db run missed
open_db-missed svc _ s (no_endpoint a) = rw a
open_db-missed svc _ s (no_port a b) = rw (a, b)
open_db-missed svc _ s (no_user a b c) = ground (arith, a, b, c)
open_db-missed svc _ s (no_pass a b c d) = ground (arith, a, b, c, d)
open_db-missed svc _ s (no_name a b c d e) = ground (arith, a, b, c, d, e)

get_db-Misses :
    (svc : Services) (message : String) (s : State)
    → s.db_session ≡ none
    → Missing svc message
    → Misses message (visible s.trace) (get_db svc s)
unfolding get_db missed
get_db-Misses svc message s none_kept m = record {
  final = missed message s;
  returns =
      ap (λ session. session_or session (open_db svc) s) none_kept ∙ open_db-missed svc message s m;
  added = refl;
}

missed-Adds :
    (f : DbOptions → M (Unit {0})) (message : String) (events : List Event)
    (o : Outcome (Option DbOptions))
    → Misses message events o
    → Adds (text_response status_bad_request message) events (after (with_db f) o)
unfolding with_db run
missed-Adds f message events o m = record {
  final = m.final;
  returns = ap (after (with_db f)) m.returns;
  added = m.added;
}

-- A handler behind the check, of which `misses` is known.
module _ (svc : Services) (next : M (Unit {0}))
    (misses : (t : State) (message : String)
      → t.db_session ≡ none
      → Missing svc message
      → Adds (text_response status_bad_request message) (visible t.trace) (next t)) where
  checked-Rejects :
      (user relation : String) (s : State) (status : ℕ) (message : String)
      → Rejection svc (check_request user relation) s.db_session status message
      → Adds
          (text_response status message)
          (visible s.trace)
          (ended (after (guarded next) (fga_check svc user relation s)))
  checked-Rejects user relation s status message (refused r) =
      refused-Adds next s _ status message (fga_check-Refuses svc user relation s status message r)
  checked-Rejects user relation s _ message (unconfigured allowed none_kept m) =
      passed-Adds svc next _ (λ l. l) s _ (fga_check-Passes svc user relation s allowed)
        (λ t same. misses t message (same ∙ none_kept) m)

list_behind-misses :
    (svc : Services) (t : State) (message : String)
    → t.db_session ≡ none
    → Missing svc message
    → Adds (text_response status_bad_request message) (visible t.trace) (list_behind svc t)
unfolding list_behind run
list_behind-misses svc t message none_kept m =
    missed-Adds (list_videos svc) message _ _
      (get_db-Misses svc message (get_connecting t) none_kept m)

insert_behind-misses :
    (svc : Services) (req : Request) (t : State) (message : String)
    → t.db_session ≡ none
    → Missing svc message
    → Adds (text_response status_bad_request message) (visible t.trace) (insert_behind svc req t)
unfolding insert_behind run
insert_behind-misses svc req t message none_kept m =
    missed-Adds (insert_video svc req) message _ _
      (get_db-Misses svc message (post_connecting t) none_kept m)

videos_get_handler-Rejects :
    (svc : Services) (req : Request) (s : State) (status : ℕ) (message : String)
    → Rejection svc (check_request (req.query "user") "reader") s.db_session status message
    → Adds (text_response status message) (visible s.trace) (videos_get_handler svc req s)
unfolding videos_get_handler run
videos_get_handler-Rejects svc req s status message rejection =
    checked-Rejects svc (list_behind svc) (list_behind-misses svc) _ _ (getting s) status message
      rejection

video_post_handler-Rejects :
    (svc : Services) (req : Request) (s : State) (status : ℕ) (message : String)
    → Rejection svc (check_request (req.query "user") "writer") s.db_session status message
    → Adds (text_response status message) (visible s.trace) (video_post_handler svc req s)
unfolding video_post_handler run
video_post_handler-Rejects svc req s status message rejection =
    checked-Rejects svc (insert_behind svc req) (insert_behind-misses svc req) _ _ (posting s)
      status message rejection

-- Where the authorization server does not let the user of a request of /videos or /video read or
-- write, or where it does, no session is kept and a variable of the database is missing, the handler
-- returns with one response, which has the status and the message of that cause, and asks nothing of
-- the database.
pub handle-Rejects :
    (svc : Services) (h : Handler) (relation : String) (req : Request) (s : State) (status : ℕ)
    (message : String)
    → Asks h relation
    → Rejection svc (check_request (req.query "user") relation) s.db_session status message
    → Adds (text_response status message) (visible s.trace) (handle svc h req s)
unfolding handle
handle-Rejects svc _ _ req s status message reading rejection =
    videos_get_handler-Rejects svc req s status message rejection
handle-Rejects svc _ _ req s status message writing rejection =
    video_post_handler-Rejects svc req s status message rejection
