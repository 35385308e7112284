-- ===== src/Server/Concurrent/RoundTrip.antt =====
-- A video that was posted, in what the server lists later, while it serves other requests.
use learning_crossplane_e2e.Prelude.{arith, ℕ, List, [], ◌∷◌, ◌++◌, ◌≡◌, refl, ap, sym, subst, ◌∙◌}
use learning_crossplane_e2e.Server.State.{
  State, Event, Video, Services, Request, ClientCheckRequest, ok, span_end, json_response,
}
use learning_crossplane_e2e.Server.Errors.{status_ok}
use learning_crossplane_e2e.Server.Openfga.{check_request}
use learning_crossplane_e2e.Server.Database.{db_options}
use learning_crossplane_e2e.Server.Database.Opens.{IsConfigured}
use learning_crossplane_e2e.Server.Responses.Post.{video_of}
use learning_crossplane_e2e.Server.Serving.{initial, video_post, videos_get, handle}
use learning_crossplane_e2e.Server.Catalog.{Holds, Accepted, Allows, unchecked, asked}
use learning_crossplane_e2e.Server.Catalog.Posted.{state_or, video_post_handler-Accepted}
use learning_crossplane_e2e.Server.Responses.{responses}
use learning_crossplane_e2e.Server.Catalog.Listed.{videos_get_handler-Lists}
use learning_crossplane_e2e.Server.Concurrent.{History, all, local, count, view, Ran}
use learning_crossplane_e2e.Server.Concurrent.Moments.{local-append, moment-newer}
use learning_crossplane_e2e.Server.Concurrent.Shared.{local-Accepted, all-Accepted}

-- The last events of the request are a list with the video, under status 200, and the end of the
-- span.
pub record Answered (v : Video) (events : List Event) : Type 0 where
  pub videos : List Video
  pub past : List Event
  pub newest : events ≡ span_end ∷ json_response status_ok videos ∷ past
  pub holds : Holds v videos

view-Allows :
    (svc : Services) (history : History) (i : ℕ) (body : ClientCheckRequest)
    → Allows svc body
    → Allows (view svc history i) body
view-Allows svc history i body (unchecked e) = unchecked e
view-Allows svc history i body (asked client url store model made allowed) =
    asked client url store model made (λ past. allowed _)

view-IsConfigured :
    (svc : Services) (history : History) (i : ℕ)
    → IsConfigured svc
    → IsConfigured (view svc history i)
view-IsConfigured svc history i c = record {
  endpoint = c.endpoint;
  port = c.port;
  user = c.user;
  pass = c.pass;
  name = c.name;
}

module _ (svc : Services) (newer older : History) (configured : IsConfigured svc) where
  -- A POST that ended before `newer`, without a response.
  posted-Accepted :
      (i : ℕ) (poster : Request)
      → Allows svc (check_request (poster.query "user") "writer")
      → Ran svc (newer ++ older) i video_post poster
      → local i newer ≡ []
      → responses (local i older) ≡ 0
      → Accepted svc (db_options svc) (video_of poster) (all older)
  unfolding handle
  posted-Accepted i poster writes ran ended silent =
      let history = newer ++ older in
      let mine : local i older ≡ ran.final.trace =
        sym (local-append i newer older ∙ ap (λ l. l ++ local i older) ended) ∙ ran.events in
      local-Accepted svc (db_options svc) (video_of poster) i history newer older refl (
        subst (Accepted (view svc history i) (db_options svc) (video_of poster)) (sym mine) (
          video_post_handler-Accepted (view svc history i) poster initial ran.final
            (view-IsConfigured svc history i configured) (view-Allows svc history i _ writes) refl
            ran.returns (ap responses (sym mine) ∙ silent)))

  -- A GET that began after `older`.
  listed-Answered :
      (j : ℕ) (reader : Request) (v : Video)
      → Allows svc (check_request (reader.query "user") "reader")
      → ((past : List Event)
          → (videos : List Video) × (svc.select past (db_options svc) ≡ ok videos))
      → ((past : List Event) (videos : List Video)
          → Accepted svc (db_options svc) v past
          → svc.select past (db_options svc) ≡ ok videos
          → Holds v videos)
      → Ran svc (newer ++ older) j videos_get reader
      → local j older ≡ []
      → Accepted svc (db_options svc) v (all older)
      → Answered v (local j (newer ++ older))
  unfolding handle
  listed-Answered j reader v allowed reads keeps ran begun accepted =
      let history = newer ++ older in
      let lists =
        videos_get_handler-Lists (view svc history j) (λ past. reads _) reader initial
          (view-IsConfigured svc history j configured) (view-Allows svc history j _ allowed) refl in
      let same : lists.final ≡ ran.final =
        ap (state_or initial) (sym lists.returns ∙ ran.returns) in
      let mine = ran.events ∙ ap (λ (s : State). s.trace) (sym same) ∙ lists.newest in
      let (between, here) =
        moment-newer j (count lists.past) newer older begun (omega (arith, ap count mine)) in
      record {
        videos = lists.videos;
        past = _;
        newest = mine;
        holds =
            keeps _ lists.videos
              (subst (λ h. Accepted svc (db_options svc) v (all h)) (sym here)
                (all-Accepted svc (db_options svc) v between older accepted))
              lists.selected;
      }

-- While the server serves any requests at the same time: where the database is configured and both
-- users are allowed, and a POST has ended without a response, its video is listed with status 200
-- by each request of the reader that begins after this end and returns. The database is to answer
-- every SELECT without an error, and with all the videos that it has accepted.
pub Ran-Answered :
    (svc : Services) (newer older : History) (i j : ℕ) (poster reader : Request)
    → IsConfigured svc
    → Allows svc (check_request (poster.query "user") "writer")
    → Allows svc (check_request (reader.query "user") "reader")
    → ((past : List Event) → (videos : List Video) × (svc.select past (db_options svc) ≡ ok videos))
    → ((past : List Event) (videos : List Video) (v : Video)
        → Accepted svc (db_options svc) v past
        → svc.select past (db_options svc) ≡ ok videos
        → Holds v videos)
    → Ran svc (newer ++ older) i video_post poster
    → local i newer ≡ []
    → responses (local i older) ≡ 0
    → Ran svc (newer ++ older) j videos_get reader
    → local j older ≡ []
    → Answered (video_of poster) (local j (newer ++ older))
Ran-Answered svc newer older i j poster reader configured writes allowed reads keeps post ended
      silent get begun =
    listed-Answered svc newer older configured j reader (video_of poster) allowed reads
      (λ past videos a e. keeps past videos (video_of poster) a e) get begun
      (posted-Accepted svc newer older configured i poster writes post ended silent)
