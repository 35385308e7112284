-- ===== src/Deployment/Catalog.antt =====
-- The round trip of a posted video in the container of the chart.
use learning_crossplane_e2e.Prelude.{String, true, false, ◌||◌, List, ◌≡◌, ap, is_empty}
use learning_crossplane_e2e.Server.State.{State, Event, Video, Services, Request, done, ok}
use learning_crossplane_e2e.Server.Database.{db_options}
use learning_crossplane_e2e.Server.Videos.{videos_get_handler, video_post_handler}
use learning_crossplane_e2e.Server.Responses.{responses}
use learning_crossplane_e2e.Server.Responses.Post.{video_of}
use learning_crossplane_e2e.Server.Serving.{initial, Reaches}
use learning_crossplane_e2e.Server.Catalog.{Holds, Accepted, unchecked}
use learning_crossplane_e2e.Server.Catalog.RoundTrip.{Shows, videos_get_handler-Shows}
use learning_crossplane_e2e.Chart.Props.{AppProps, any_crossplane}
use learning_crossplane_e2e.Chart.Workload.{main_container}
use learning_crossplane_e2e.Deployment.{fga_api_url, Deployed}
use learning_crossplane_e2e.Deployment.LeftOut.{getenv_left_out}
use learning_crossplane_e2e.Deployment.Connection.{deployed-IsConfigured}

-- The server in the container of the chart, where the chart gives it a database, no secret and
-- neither the name nor the id is empty: if a POST of anyone has returned without a response, its
-- video is listed with status 200 by each later request of anyone, whatever the server was asked in
-- between. The database is to answer every SELECT without an error, and with all the videos that it
-- has accepted.
pub Deployed-Shows :
    (svc : Services) (secret : String → String → String) (app : AppProps) (poster reader : Request)
    (s t u : State)
    → Deployed svc.getenv secret app (main_container app)
    → ((name key : String) → is_empty (secret name key) ≡ false)
    → (app.db.enabled.helm || any_crossplane app) ≡ true
    → is_empty app.name ≡ false
    → is_empty app.db.id ≡ false
    → ((past : List Event) → (videos : List Video) × (svc.select past (db_options svc) ≡ ok videos))
    → ((past : List Event) (videos : List Video) (v : Video)
        → Accepted svc (db_options svc) v past
        → svc.select past (db_options svc) ≡ ok videos
        → Holds v videos)
    → Reaches svc initial s
    → video_post_handler svc poster s ≡ done tt t
    → responses t.trace ≡ responses s.trace
    → Reaches svc t u
    → Shows (video_of poster) (videos_get_handler svc reader u)
Deployed-Shows svc secret app poster reader s t u deployed filled used named identified reads keeps
      before post silent after =
    let open_to_all : is_empty (svc.getenv "FGA_API_URL") ≡ true =
      ap is_empty (getenv_left_out svc.getenv secret app "FGA_API_URL" deployed fga_api_url) in
    videos_get_handler-Shows svc poster reader s t u
      (deployed-IsConfigured svc secret app (main_container app) deployed filled used named
        identified)
      (unchecked open_to_all) (unchecked open_to_all) reads keeps before post silent after
