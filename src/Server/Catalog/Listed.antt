-- ===== src/Server/Catalog/Listed.antt =====
-- videosGetHandler of video.go for an allowed user, with a database that can be read.
use learning_crossplane_e2e.Prelude.{Bool, none, List, ◌∷◌, ◌≡◌, refl, ap, ◌∙◌}
use learning_crossplane_e2e.Server.State.{
  State, Event, Video, Services, Request, Outcome, done, Result, ok, run, ended, after,
  record_event, span_end, db_select, json_response,
}
use learning_crossplane_e2e.Server.Errors.{status_ok}
use learning_crossplane_e2e.Server.Openfga.{check_request}
use learning_crossplane_e2e.Server.Database.{db_options}
use learning_crossplane_e2e.Server.Database.Opens.{connected, IsConfigured, get_db_given}
use learning_crossplane_e2e.Server.Videos.{
  guarded, with_db, list_videos, list_behind, videos_get_handler,
}
use learning_crossplane_e2e.Server.Catalog.{Accepted, later, Allows}
use learning_crossplane_e2e.Server.Catalog.Stages.{getting, get_connecting}
use learning_crossplane_e2e.Server.Catalog.Allowed.{Passes, fga_check-Passes}

-- The run returns, and what it answered under `above` is what the database gave when it was asked
-- after all of `past`, in which all that it had accepted before is accepted.
pub record Lists (svc : Services) (above : List Event → List Event) (s : State)
    (o : Outcome (Unit {0})) : Type 0 where
  pub final : State
  pub videos : List Video
  pub past : List Event
  pub returns : o ≡ done tt final
  pub newest :
      final.trace ≡ above (json_response status_ok videos ∷ db_select (db_options svc) ∷ past)
  pub selected : svc.select past (db_options svc) ≡ ok videos
  pub kept :
      (v : Video) → Accepted svc (db_options svc) v s.trace → Accepted svc (db_options svc) v past

abbrev pub body_only : List Event → List Event
body_only trace = trace

abbrev pub in_span : List Event → List Event
in_span trace = span_end ∷ trace

module _ (svc : Services)
    (reads : (past : List Event)
      → (videos : List Video) × (svc.select past (db_options svc) ≡ ok videos)) where
  list_videos_lem :
      (s : State)
      → list_videos svc (db_options svc) s
        ≡ done tt (
            record_event
              (json_response status_ok (reads s.trace).0)
              (record_event (db_select (db_options svc)) s))
  unfolding list_videos run
  list_videos_lem s = rw (reads s.trace).1

  list_behind-Lists :
      (s : State)
      → IsConfigured svc
      → s.db_session ≡ none
      → Lists svc body_only s (list_behind svc s)
  unfolding list_behind run
  list_behind-Lists s configured session = record {
    final = _;
    videos = (reads (connected svc (get_connecting s)).trace).0;
    past = (connected svc (get_connecting s)).trace;
    returns =
        ap (after (with_db (list_videos svc)))
          (get_db_given svc (get_connecting s) configured session)
        ∙ list_videos_lem (connected svc (get_connecting s));
    newest = refl;
    selected = (reads (connected svc (get_connecting s)).trace).1;
    kept = λ v a. later _ (later _ (later _ a));
  }

  checked-Lists :
      (s : State) (o : Outcome (Result Bool))
      → IsConfigured svc
      → s.db_session ≡ none
      → Passes svc s o
      → Lists svc in_span s (ended (after (guarded (list_behind svc)) o))
  unfolding guarded
  checked-Lists s o configured session p =
      let lists = list_behind-Lists p.final configured (p.session ∙ session) in
      record {
        final = record_event span_end lists.final;
        videos = lists.videos;
        past = lists.past;
        returns =
            ap (λ o. ended (after (guarded (list_behind svc)) o)) p.returns
            ∙ ap ended lists.returns;
        newest = ap in_span lists.newest;
        selected = lists.selected;
        kept = λ v a. lists.kept v (p.kept _ v a);
      }

  pub videos_get_handler-Lists :
      (req : Request) (s : State)
      → IsConfigured svc
      → Allows svc (check_request (req.query "user") "reader")
      → s.db_session ≡ none
      → Lists svc in_span s (videos_get_handler svc req s)
  unfolding videos_get_handler run
  videos_get_handler-Lists req s configured allowed session =
      let lists =
        checked-Lists (getting s) _ configured session
          (fga_check-Passes svc (req.query "user") "reader" (getting s) allowed) in
      record {
        final = lists.final;
        videos = lists.videos;
        past = lists.past;
        returns = lists.returns;
        newest = lists.newest;
        selected = lists.selected;
        kept = λ v a. lists.kept v (later _ (later _ a));
      }
