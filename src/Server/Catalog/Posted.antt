-- ===== src/Server/Catalog/Posted.antt =====
-- videoPostHandler of video.go for an allowed user, with a database that may refuse the video.
use learning_crossplane_e2e.Prelude.{
  arith, suc, Bool, false, none, List, [], ◌∷◌, ◌≡◌, refl, ap, sym, ◌∙◌, ◌⊎◌, inl, inr, is_empty,
  subst,
}
use learning_crossplane_e2e.Server.State.{
  State, Event, Services, Request, Outcome, done, panic, exit, unfinished, Result, ok, err, run,
  ended, after, record_event, span_start, span_attribute, span_event, span_error, span_status_error,
  span_end, log, debug, text_response, json_response, fga_client, fga_request, db_connect,
  db_add_query_hook, db_select, db_insert, ping_request,
}
use learning_crossplane_e2e.Server.Openfga.{check_request}
use learning_crossplane_e2e.Server.Database.{db_options}
use learning_crossplane_e2e.Server.Database.Opens.{connected, IsConfigured, get_db_given}
use learning_crossplane_e2e.Server.Videos.{
  guarded, with_db, done_or_error, insert_video, insert_behind, video_post_handler,
}
use learning_crossplane_e2e.Server.Responses.{responses}
use learning_crossplane_e2e.Server.Responses.Post.{
  video_of, IsStored, AnsweredOrStored, video_post_handler-AnsweredOrStored,
}
use learning_crossplane_e2e.Server.Catalog.{Accepted, now, later, Allows, visible}
use learning_crossplane_e2e.Server.Catalog.Stages.{posting, post_connecting, inserting}
use learning_crossplane_e2e.Server.Catalog.Allowed.{Passes, fga_check-Passes}

-- The run returns, and the database has accepted the video of the request, or the request was
-- answered.
pub record Posts (svc : Services) (req : Request) (s : State) (o : Outcome (Unit {0}))
    : Type 0 where
  pub final : State
  pub returns : o ≡ done tt final
  pub fate :
      Accepted svc (db_options svc) (video_of req) final.trace
      ⊎ (responses final.trace ≡ suc (responses s.trace))

responses-visible : (past : List Event) → responses (visible past) ≡ responses past
responses-visible [] = refl
responses-visible (text_response _ _ ∷ past) = ap suc (responses-visible past)
responses-visible (json_response _ _ ∷ past) = ap suc (responses-visible past)
responses-visible (span_start _ ∷ past) = responses-visible past
responses-visible (span_attribute _ _ ∷ past) = responses-visible past
responses-visible (span_event _ ∷ past) = responses-visible past
responses-visible (span_error _ ∷ past) = responses-visible past
responses-visible (span_status_error _ ∷ past) = responses-visible past
responses-visible (span_end ∷ past) = responses-visible past
responses-visible (log _ ∷ past) = responses-visible past
responses-visible (debug _ _ ∷ past) = responses-visible past
responses-visible (fga_client _ ∷ past) = responses-visible past
responses-visible (fga_request _ ∷ past) = responses-visible past
responses-visible (db_connect _ ∷ past) = responses-visible past
responses-visible (db_add_query_hook _ ∷ past) = responses-visible past
responses-visible (db_select _ ∷ past) = responses-visible past
responses-visible (db_insert _ _ ∷ past) = responses-visible past
responses-visible (ping_request _ _ ∷ past) = responses-visible past

module _ (svc : Services) (req : Request) (id_given : is_empty (req.query "id") ≡ false)
    (title_given : is_empty (req.query "title") ≡ false) where
  inserted-Posts :
      (s : State) (r : Result (Unit {0}))
      → svc.insert s.trace (db_options svc) (video_of req) ≡ r
      → Posts svc req s
          (done_or_error r (record_event (db_insert (db_options svc) (video_of req)) s))
  unfolding done_or_error run
  inserted-Posts s (ok _) e = record { final = _; returns = refl; fate = inl (now e) }
  inserted-Posts s (err message) e = record { final = _; returns = refl; fate = inr refl }

  insert_video-Posts : (s : State) → Posts svc req s (insert_video svc req (db_options svc) s)
  unfolding insert_video run
  insert_video-Posts s =
      let posts = inserted-Posts (inserting s) _ refl in
      rw (id_given, title_given)
        (record { final = posts.final; returns = posts.returns; fate = posts.fate })

  insert_behind-Posts :
      (s : State)
      → IsConfigured svc
      → s.db_session ≡ none
      → Posts svc req s (insert_behind svc req s)
  unfolding insert_behind run
  insert_behind-Posts s configured session =
      let posts = insert_video-Posts (connected svc (post_connecting s)) in
      record {
        final = posts.final;
        returns =
            ap (after (with_db (insert_video svc req)))
              (get_db_given svc (post_connecting s) configured session)
            ∙ posts.returns;
        fate = posts.fate;
      }

  ended_fate :
      (s t u : State)
      → responses t.trace ≡ responses s.trace
      → Accepted svc (db_options svc) (video_of req) u.trace
        ⊎ (responses u.trace ≡ suc (responses t.trace))
      → Accepted svc (db_options svc) (video_of req) (span_end ∷ u.trace)
        ⊎ (responses u.trace ≡ suc (responses s.trace))
  ended_fate s t u same (inl a) = inl (later span_end a)
  ended_fate s t u same (inr e) = inr (e ∙ ap suc same)

  -- What the handler does from the check on.
  checked-Posts :
      (s : State) (o : Outcome (Result Bool))
      → IsConfigured svc
      → s.db_session ≡ none
      → Passes svc s o
      → Posts svc req s (ended (after (guarded (insert_behind svc req)) o))
  unfolding guarded
  checked-Posts s o configured session p =
      let posts = insert_behind-Posts p.final configured (p.session ∙ session) in
      record {
        final = record_event span_end posts.final;
        returns =
            ap (λ o. ended (after (guarded (insert_behind svc req)) o)) p.returns
            ∙ ap ended posts.returns;
        fate =
            ended_fate s p.final posts.final
              (sym (responses-visible p.final.trace)
                ∙ (ap responses p.unseen ∙ responses-visible s.trace))
              posts.fate;
      }

-- A user who is allowed to write, with an id and a title, a configured database, and no session: the
-- handler returns, and the video is accepted or the request answered.
video_post_handler-Posts :
    (svc : Services) (req : Request) (s : State)
    → is_empty (req.query "id") ≡ false
    → is_empty (req.query "title") ≡ false
    → IsConfigured svc
    → Allows svc (check_request (req.query "user") "writer")
    → s.db_session ≡ none
    → Posts svc req s (video_post_handler svc req s)
unfolding video_post_handler run
video_post_handler-Posts svc req s id title configured allowed session =
    let posts =
      checked-Posts svc req id title (posting s) _ configured session
        (fga_check-Passes svc (req.query "user") "writer" (posting s) allowed) in
    record { final = posts.final; returns = posts.returns; fate = posts.fate }

module _ (svc : Services) (req : Request) (s t : State)
    (silent : responses t.trace ≡ responses s.trace) where
  answered : responses t.trace ≡ suc (responses s.trace) → ⊥
  answered once = omega (arith, silent, once)

  unanswered-IsStored :
      AnsweredOrStored svc req (responses s.trace) (λ trace. span_end ∷ trace) (done tt t)
      → (trace : List Event) × IsStored svc req (responses s.trace) trace
  unanswered-IsStored (inl once) = absurd (answered once)
  unanswered-IsStored (inr (trace, _, stored)) = (trace, stored)

  unanswered-Accepted :
      Accepted svc (db_options svc) (video_of req) t.trace
        ⊎ (responses t.trace ≡ suc (responses s.trace))
      → Accepted svc (db_options svc) (video_of req) t.trace
  unanswered-Accepted (inl a) = a
  unanswered-Accepted (inr once) = absurd (answered once)

-- The state after a run that returns.
abbrev pub state_or : State → Outcome (Unit {0}) → State
state_or s (done _ t) = t
state_or s (panic t) = s
state_or s (exit t) = s
state_or s (unfinished t) = s

-- A user who is allowed to write, a configured database, and no session: where the handler returns
-- without a response, the database has accepted the video of the request.
pub video_post_handler-Accepted :
    (svc : Services) (req : Request) (s t : State)
    → IsConfigured svc
    → Allows svc (check_request (req.query "user") "writer")
    → s.db_session ≡ none
    → video_post_handler svc req s ≡ done tt t
    → responses t.trace ≡ responses s.trace
    → Accepted svc (db_options svc) (video_of req) t.trace
video_post_handler-Accepted svc req s t configured allowed session post silent =
    let (_, stored) = unanswered-IsStored svc req s t silent (
      subst (AnsweredOrStored svc req (responses s.trace) (λ trace. span_end ∷ trace)) post
        (video_post_handler-AnsweredOrStored svc req s)) in
    let posts =
      video_post_handler-Posts svc req s stored.id_given stored.title_given configured allowed
        session in
    let same : posts.final ≡ t = ap (state_or s) (sym posts.returns ∙ post) in
    unanswered-Accepted svc req s t silent (
      subst
        (λ (x : State).
          Accepted svc (db_options svc) (video_of req) x.trace
          ⊎ (responses x.trace ≡ suc (responses s.trace)))
        same posts.fate)
