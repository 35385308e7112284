-- ===== src/Server/Catalog/RoundTrip.antt =====
-- A video that was posted, in what the server lists later.
use learning_crossplane_e2e.Prelude.{List, ◌∷◌, ◌≡◌}
use learning_crossplane_e2e.Server.State.{
  State, Event, Video, Services, Request, DbOptions, Outcome, done, ok, span_end, json_response,
}
use learning_crossplane_e2e.Server.Errors.{status_ok}
use learning_crossplane_e2e.Server.Openfga.{check_request}
use learning_crossplane_e2e.Server.Database.{db_options}
use learning_crossplane_e2e.Server.Database.Opens.{IsConfigured}
use learning_crossplane_e2e.Server.Videos.{videos_get_handler, video_post_handler}
use learning_crossplane_e2e.Server.Parts.{IsKept}
use learning_crossplane_e2e.Server.Handlers.{IsSpanned}
use learning_crossplane_e2e.Server.Responses.Post.{video_of}
use learning_crossplane_e2e.Server.Serving.{
  initial, Reaches, here, next, returned, video_post, handle,
}
use learning_crossplane_e2e.Server.Serving.Runs.{Reaches-Relates, Reaches-trans}
use learning_crossplane_e2e.Server.Serving.Session.{Reaches-no_session}
use learning_crossplane_e2e.Server.Catalog.{Holds, Accepted, later, Allows}
use learning_crossplane_e2e.Server.Catalog.Posted.{video_post_handler-Accepted}
use learning_crossplane_e2e.Server.Responses.{responses}
use learning_crossplane_e2e.Server.Catalog.Listed.{videos_get_handler-Lists}

-- The run returns, and the last thing before its span ends is a list with the video, under status 200.
pub record Shows (v : Video) (o : Outcome (Unit {0})) : Type 0 where
  pub final : State
  pub videos : List Video
  pub past : List Event
  pub returns : o ≡ done tt final
  pub newest : final.trace ≡ span_end ∷ json_response status_ok videos ∷ past
  pub holds : Holds v videos

-- What was accepted before is accepted after.
abbrev StillAccepts : Services → State → State → Type 0
StillAccepts svc s t =
    (db : DbOptions) (v : Video) → Accepted svc db v s.trace → Accepted svc db v t.trace

kept : (svc : Services) → IsKept (StillAccepts svc)
kept svc = record {
  same = λ s db v a. a;
  trans = λ s t u h k db v a. k db v (h db v a);
  event = λ e s h db v a. later e a;
}

spanned : (svc : Services) → IsSpanned (StillAccepts svc) (StillAccepts svc)
spanned svc = record {
  kept = kept svc;
  leave = λ s t h. h;
  leave_trans = λ s t u h k db v a. k db v (h db v a);
  span = λ name s t h db v a. later _ (h db v (later _ a));
  span_left = λ name s t h db v a. h db v (later _ a);
}

Reaches-StillAccepts : (svc : Services) (s t : State) → Reaches svc s t → StillAccepts svc s t
Reaches-StillAccepts svc s t r =
    Reaches-Relates (StillAccepts svc) (spanned svc) (λ s t h db v a. later _ (h db v a)) r

posted :
    (svc : Services) (poster : Request) (s t : State)
    → video_post_handler svc poster s ≡ done tt t
    → Reaches svc s t
unfolding handle
posted svc poster s t e = next here (returned video_post poster e)

-- Where the database is configured and both users are allowed, and a POST has returned without a
-- response, its video is listed with status 200 by each later request of the reader, whatever the
-- server was asked in between. The database is to answer every SELECT without an error, and with
-- all the videos that it has accepted.
pub videos_get_handler-Shows :
    (svc : Services) (poster reader : Request) (s t u : State)
    → IsConfigured svc
    → Allows svc (check_request (poster.query "user") "writer")
    → Allows svc (check_request (reader.query "user") "reader")
    → ((past : List Event) → (videos : List Video) × (svc.select past (db_options svc) ≡ ok videos))
    → ((past : List Event) (videos : List Video) (v : Video)
        → Accepted svc (db_options svc) v past
        → svc.select past (db_options svc) ≡ ok videos
        → Holds v videos)
    → Reaches svc initial s
    → video_post_handler svc poster s ≡ done tt t
    → responses t.trace ≡ responses s.trace
    → Reaches svc t u
    → Shows (video_of poster) (videos_get_handler svc reader u)
videos_get_handler-Shows svc poster reader s t u configured writes read reads keeps before post
      silent after =
    let accepted = Reaches-StillAccepts svc t u after (db_options svc) (video_of poster) (
      video_post_handler-Accepted svc poster s t configured writes (Reaches-no_session before) post
        silent) in
    let session =
      Reaches-no_session
        (Reaches-trans (Reaches-trans before (posted svc poster s t post)) after) in
    let lists = videos_get_handler-Lists svc reads reader u configured read session in
    record {
      final = lists.final;
      videos = lists.videos;
      past = _;
      returns = lists.returns;
      newest = lists.newest;
      holds =
          keeps lists.past lists.videos (video_of poster) (lists.kept _ accepted) lists.selected;
    }
