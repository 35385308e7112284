-- ===== src/Server/Catalog/Stored.antt =====
-- videoPostHandler of video.go for an allowed user, with a database that accepts the video.
use learning_crossplane_e2e.Prelude.{Bool, false, none, List, ◌≡◌, refl, ap, ◌∙◌, is_empty}
use learning_crossplane_e2e.Server.State.{
  State, Event, Video, Services, Request, Outcome, done, Result, ok, run, ended, after,
  record_event, span_end, db_insert,
}
use learning_crossplane_e2e.Server.Openfga.{check_request}
use learning_crossplane_e2e.Server.Database.{db_options}
use learning_crossplane_e2e.Server.Database.Opens.{connected, IsConfigured, get_db_given}
use learning_crossplane_e2e.Server.Videos.{
  guarded, with_db, insert_video, insert_behind, video_post_handler,
}
use learning_crossplane_e2e.Server.Responses.Post.{video_of}
use learning_crossplane_e2e.Server.Catalog.{Accepted, now, later, Allows, insertions, inserted_in}
use learning_crossplane_e2e.Server.Catalog.Stages.{posting, post_connecting, inserting}
use learning_crossplane_e2e.Server.Catalog.Allowed.{Passes, fga_check-Passes}

-- The run returns, and the database has accepted the video of the request.
pub record Stores (svc : Services) (req : Request) (s : State) (o : Outcome (Unit {0}))
    : Type 0 where
  pub final : State
  pub returns : o ≡ done tt final
  pub accepted : Accepted svc (db_options svc) (video_of req) final.trace
  pub session : final.db_session ≡ s.db_session

module _ (svc : Services) (req : Request) (id_given : is_empty (req.query "id") ≡ false)
    (title_given : is_empty (req.query "title") ≡ false) (before : List Video)
    (accepts : (past : List Event)
      → inserted_in past ≡ before
      → svc.insert past (db_options svc) (video_of req) ≡ ok tt) where
  insert_video_stored :
      (s : State)
      → inserted_in s.trace ≡ before
      → insert_video svc req (db_options svc) s
        ≡ done tt (record_event (db_insert (db_options svc) (video_of req)) (inserting s))
  unfolding insert_video run
  insert_video_stored s same = rw (id_given, title_given, accepts (inserting s).trace same)

  insert_behind-Stores :
      (s : State)
      → IsConfigured svc
      → s.db_session ≡ none
      → inserted_in s.trace ≡ before
      → Stores svc req s (insert_behind svc req s)
  unfolding insert_behind run
  insert_behind-Stores s configured session same = record {
    final = _;
    returns =
        ap (after (with_db (insert_video svc req)))
          (get_db_given svc (post_connecting s) configured session)
        ∙ insert_video_stored (connected svc (post_connecting s)) same;
    accepted = now (accepts _ same);
    session = refl;
  }

  -- What the handler does from the check on.
  checked-Stores :
      (s : State) (o : Outcome (Result Bool))
      → IsConfigured svc
      → s.db_session ≡ none
      → inserted_in s.trace ≡ before
      → Passes svc s o
      → Stores svc req s (ended (after (guarded (insert_behind svc req)) o))
  unfolding guarded
  checked-Stores s o configured session same p =
      let stores =
        insert_behind-Stores p.final configured (p.session ∙ session)
          (ap insertions p.unseen ∙ same) in
      record {
        final = record_event span_end stores.final;
        returns =
            ap (λ o. ended (after (guarded (insert_behind svc req)) o)) p.returns
            ∙ ap ended stores.returns;
        accepted = later span_end stores.accepted;
        session = stores.session ∙ p.session;
      }

-- A user who is allowed to write, with an id and a title, a configured database that accepts the video
-- after the insertions that were made before, and no session: the handler returns, and the video is
-- accepted.
pub video_post_handler-Stores :
    (svc : Services) (req : Request) (s : State)
    → is_empty (req.query "id") ≡ false
    → is_empty (req.query "title") ≡ false
    → ((past : List Event)
        → inserted_in past ≡ inserted_in s.trace
        → svc.insert past (db_options svc) (video_of req) ≡ ok tt)
    → IsConfigured svc
    → Allows svc (check_request (req.query "user") "writer")
    → s.db_session ≡ none
    → Stores svc req s (video_post_handler svc req s)
unfolding video_post_handler run
video_post_handler-Stores svc req s id title accepts configured allowed session =
    let stores =
      checked-Stores svc req id title (inserted_in s.trace) accepts (posting s) _ configured session
        refl (fga_check-Passes svc (req.query "user") "writer" (posting s) allowed) in
    record {
      final = stores.final;
      returns = stores.returns;
      accepted = stores.accepted;
      session = stores.session;
    }
