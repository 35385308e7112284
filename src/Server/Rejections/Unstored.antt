-- ===== src/Server/Rejections/Unstored.antt =====
-- videoPostHandler of video.go for a request that is let in, where the video is not stored.
use learning_crossplane_e2e.Prelude.{ℕ, String, none, List, ◌∷◌, ◌++◌, ◌≡◌, refl, ap, ◌∙◌}
use learning_crossplane_e2e.Server.State.{
  State, Event, Services, Request, run, after, record_event, span_error, span_status_error, log,
  text_response, db_connect, db_insert,
}
use learning_crossplane_e2e.Server.Errors.{
  http_error, http_error_bad_request, http_error_internal_server_error,
}
use learning_crossplane_e2e.Server.Openfga.{check_request}
use learning_crossplane_e2e.Server.Database.{db_options}
use learning_crossplane_e2e.Server.Database.Opens.{connected, IsConfigured, get_db_given}
use learning_crossplane_e2e.Server.Videos.{with_db, insert_video, insert_behind, video_post_handler}
use learning_crossplane_e2e.Server.Responses.Post.{video_of}
use learning_crossplane_e2e.Server.Catalog.{visible, Allows}
use learning_crossplane_e2e.Server.Catalog.Stages.{posting, post_connecting, retrieving, inserting}
use learning_crossplane_e2e.Server.Catalog.Allowed.{fga_check-Passes}
use learning_crossplane_e2e.Server.Rejections.{Adds, Failure, id_empty, title_empty, insert_failed}
use learning_crossplane_e2e.Server.Rejections.Denied.{passed-Adds}

-- httpError in a state.
errored : ℕ → String → State → State
errored status message s = record_event (text_response status message) (
    record_event (span_status_error message)
      (record_event (span_error message) (record_event (log message) s)))

insert_video-Adds :
    (svc : Services) (req : Request) (s : State) (status : ℕ) (message : String) (used : List Event)
    → Failure svc req status message used
    → Adds
        (text_response status message)
        (used ++ visible s.trace)
        (insert_video svc req (db_options svc) s)
unfolding insert_video http_error_bad_request http_error_internal_server_error http_error run
    errored
insert_video-Adds svc req s status message _ (id_empty id) = record {
  final = errored status message (retrieving s);
  returns = rw id;
  added = refl;
}
insert_video-Adds svc req s status message _ (title_empty id title) = record {
  final = errored status message (retrieving s);
  returns = rw (id, title);
  added = refl;
}
insert_video-Adds svc req s status _ _ (insert_failed message id title fails) = record {
  final =
      errored status message
        (record_event (db_insert (db_options svc) (video_of req)) (inserting s));
  returns = rw (id, title, fails (inserting s).trace);
  added = refl;
}

insert_behind-Adds :
    (svc : Services) (req : Request) (s : State) (status : ℕ) (message : String) (used : List Event)
    → IsConfigured svc
    → s.db_session ≡ none
    → Failure svc req status message used
    → Adds
        (text_response status message)
        (used ++ db_connect (db_options svc) ∷ visible s.trace)
        (insert_behind svc req s)
unfolding insert_behind with_db run
insert_behind-Adds svc req s status message used configured none_kept failure =
    let asked = post_connecting s in
    let inner = insert_video-Adds svc req (connected svc asked) status message used failure in
    record {
      final = inner.final;
      returns =
          ap (after (with_db (insert_video svc req))) (get_db_given svc asked configured none_kept)
          ∙ inner.returns;
      added = inner.added;
    }

-- Where the database is configured, the user may write and no session is kept, a request without an
-- id or a title, and one whose video the database does not accept, is answered with just one
-- response, which has the status and the message of that cause; a video without an id or a title is
-- not given to the database.
pub video_post_handler-Reports :
    (svc : Services) (req : Request) (s : State) (status : ℕ) (message : String) (used : List Event)
    → IsConfigured svc
    → Allows svc (check_request (req.query "user") "writer")
    → s.db_session ≡ none
    → Failure svc req status message used
    → Adds
        (text_response status message)
        (used ++ db_connect (db_options svc) ∷ visible s.trace)
        (video_post_handler svc req s)
unfolding video_post_handler run
video_post_handler-Reports svc req s status message used configured allowed none_kept failure =
    passed-Adds svc (insert_behind svc req) _ (λ l. used ++ db_connect (db_options svc) ∷ l)
      (posting s) _ (fga_check-Passes svc _ _ (posting s) allowed)
      (λ t same.
        insert_behind-Adds svc req t status message used configured (same ∙ none_kept) failure)
