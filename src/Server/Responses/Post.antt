-- ===== src/Server/Responses/Post.antt =====
-- When videoPostHandler of video.go answers.
use learning_crossplane_e2e.Prelude.{
  ℕ, suc, Bool, true, false, Option, none, some, List, ◌∷◌, ◌≡◌, refl, ap, ◌⊎◌, inl, inr, is_empty,
  Bool-cases,
}
use learning_crossplane_e2e.Server.State.{
  State, Event, Outcome, done, panic, exit, unfinished, Services, Request, DbOptions, Video, Result,
  ok, err, after, run, ended, record_event, span_end, db_insert,
}
use learning_crossplane_e2e.Server.Videos.{
  guarded, with_db, done_or_error, insert_video, insert_behind, video_post_handler,
}
use learning_crossplane_e2e.Server.Responses.{
  responses, Silent, AnsweredUnless, fga_check-Silent, session_or-AnsweredUnless,
}

abbrev pub video_of : Request → Video
video_of req = record { id = req.query "id"; title = req.query "title" }

module _ (svc : Services) (req : Request) (n : ℕ) where
  -- The newest event is an insertion of the request's video that the database accepted; nothing
  -- has been answered.
  pub record IsStored (trace : List Event) : Type 0 where
    pub past : List Event
    pub db : DbOptions
    pub newest : trace ≡ db_insert db (video_of req) ∷ past
    pub accepted : svc.insert past db (video_of req) ≡ ok tt
    pub silent : responses past ≡ n
    pub id_given : is_empty (req.query "id") ≡ false
    pub title_given : is_empty (req.query "title") ≡ false

  -- `top` is what the trace has above the body's events.
  abbrev pub AnsweredOrStored : (List Event → List Event) → Outcome (Unit {0}) → Type 0
  AnsweredOrStored top (done a t) =
      (responses t.trace ≡ suc n) ⊎ ((trace : List Event) × (t.trace ≡ top trace) × IsStored trace)
  AnsweredOrStored top (panic t) = responses t.trace ≡ n
  AnsweredOrStored top (exit t) = responses t.trace ≡ n
  AnsweredOrStored top (unfinished t) = ⊥

  abbrev body_only : List Event → List Event
  body_only trace = trace

  stored :
      (db : DbOptions) (t : State) (r : Result (Unit {0}))
      → svc.insert t.trace db (video_of req) ≡ r
      → responses t.trace ≡ n
      → is_empty (req.query "id") ≡ false
      → is_empty (req.query "title") ≡ false
      → AnsweredOrStored body_only (done_or_error r (record_event (db_insert db (video_of req)) t))
  unfolding done_or_error run
  stored db t (err message) e h i k = inl (ap suc h)
  stored db t (ok x) e h i k = inr (
    _,
    refl,
    record {
      past = t.trace;
      db = db;
      newest = refl;
      accepted = e;
      silent = h;
      id_given = i;
      title_given = k;
    },
  )

  insert_video-AnsweredOrStored :
      (db : DbOptions) (t : State)
      → responses t.trace ≡ n
      → AnsweredOrStored body_only (insert_video svc req db t)
  unfolding insert_video run
  insert_video-AnsweredOrStored db t h = elim (Bool-cases (is_empty (req.query "id"))) [
    | inl no_id ↦ rw no_id (inl (ap suc h))
    | inr id ↦ elim (Bool-cases (is_empty (req.query "title"))) [
      | inl no_title ↦ rw (id, no_title) (inl (ap suc h))
      | inr title ↦ rw (id, title) (stored db _ _ refl h id title)
    ]
  ]

  after_db-AnsweredOrStored :
      (o : Outcome (Option DbOptions))
      → AnsweredUnless n o
      → AnsweredOrStored body_only (after (with_db (insert_video svc req)) o)
  unfolding with_db run
  after_db-AnsweredOrStored (done none t) h = inl h
  after_db-AnsweredOrStored (done (some db) t) h = insert_video-AnsweredOrStored db t h
  after_db-AnsweredOrStored (panic t) h = absurd h
  after_db-AnsweredOrStored (exit t) h = absurd h
  after_db-AnsweredOrStored (unfinished t) h = absurd h

  insert_behind-AnsweredOrStored :
      (s : State) → responses s.trace ≡ n → AnsweredOrStored body_only (insert_behind svc req s)
  unfolding insert_behind run
  insert_behind-AnsweredOrStored s h =
      after_db-AnsweredOrStored _ (rw (← h) (session_or-AnsweredUnless svc s.db_session _))

  after-guarded-AnsweredOrStored :
      (o : Outcome (Result Bool))
      → Silent n o
      → AnsweredOrStored body_only (after (guarded (insert_behind svc req)) o)
  unfolding guarded run
  after-guarded-AnsweredOrStored (done (ok true) t) h = insert_behind-AnsweredOrStored t h
  after-guarded-AnsweredOrStored (done (ok false) t) h = inl (ap suc h)
  after-guarded-AnsweredOrStored (done (err message) t) h = inl (ap suc h)
  after-guarded-AnsweredOrStored (panic t) h = h
  after-guarded-AnsweredOrStored (exit t) h = h
  after-guarded-AnsweredOrStored (unfinished t) h = absurd h

  ended-AnsweredOrStored :
      (o : Outcome (Unit {0}))
      → AnsweredOrStored body_only o
      → AnsweredOrStored (λ trace. span_end ∷ trace) (ended o)
  ended-AnsweredOrStored (done a t) (inl h) = inl h
  ended-AnsweredOrStored (done a t) (inr (trace, e, h)) = inr (trace, ap (λ x. span_end ∷ x) e, h)
  ended-AnsweredOrStored (panic t) h = h
  ended-AnsweredOrStored (exit t) h = h
  ended-AnsweredOrStored (unfinished t) h = h

-- videoPostHandler always ends: it returns after exactly one response, or it panics or the process
-- exits before any response, or it returns with no response at all, and then the database has
-- accepted a video with the id and the title of the request, neither of them empty.
pub video_post_handler-AnsweredOrStored :
    (svc : Services) (req : Request) (s : State)
    → AnsweredOrStored svc req
        (responses s.trace)
        (λ trace. span_end ∷ trace)
        (video_post_handler svc req s)
unfolding video_post_handler run
video_post_handler-AnsweredOrStored svc req s =
    ended-AnsweredOrStored svc req _ _
      (after-guarded-AnsweredOrStored svc req _ _ (fga_check-Silent svc _ _ _))
