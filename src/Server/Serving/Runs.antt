-- ===== src/Server/Serving/Runs.antt =====
-- A relation between states that every event keeps, along the requests that the server answers.
use learning_crossplane_e2e.Prelude.{subst}
use learning_crossplane_e2e.Server.State.{
  State, Services, Request, Outcome, done, panic, exit, unfinished, run, ended, record_event,
  span_end,
}
use learning_crossplane_e2e.Server.Relate.{Relates, Ensures}
use learning_crossplane_e2e.Server.Parts.{ping_body-Keeps}
use learning_crossplane_e2e.Server.Handlers.{
  IsSpanned, fibonacci_handler-Ensures, videos_get_handler-Ensures, video_post_handler-Ensures,
  root_page-Ensures,
}
use learning_crossplane_e2e.Server.Pages.{ping_handler}
use learning_crossplane_e2e.Server.Serving.{
  Handler, fibonacci, video_post, videos_get, ping, root, handle, Serves, returned, panicked,
  Reaches, here, next,
}

-- pingHandler ends a span that it did not start, so the relation must allow for that, too.
module _ (R : State → State → Type 0) (k : IsSpanned R R)
    (ends : (s t : State) → R s t → R s (record_event span_end t)) where
  ended-Relates : (s : State) (o : Outcome (Unit {0})) → Relates R R s o → Relates R R s (ended o)
  ended-Relates s (done a t) h = ends s t h
  ended-Relates s (panic t) h = ends s t h
  ended-Relates s (exit t) h = h
  ended-Relates s (unfinished t) h = h

  ping_handler-Ensures : (svc : Services) (req : Request) → Ensures R R (ping_handler svc req)
  unfolding ping_handler run
  ping_handler-Ensures svc req = record {
    holds = λ s. ended-Relates s _ ((ping_body-Keeps R k.kept svc req).holds s);
  }

  pub handle-Ensures :
      (svc : Services) (h : Handler) (req : Request) → Ensures R R (handle svc h req)
  unfolding handle
  handle-Ensures svc fibonacci req = fibonacci_handler-Ensures _ _ k svc req
  handle-Ensures svc video_post req = video_post_handler-Ensures _ _ k svc req
  handle-Ensures svc videos_get req = videos_get_handler-Ensures _ _ k svc req
  handle-Ensures svc ping req = ping_handler-Ensures svc req
  handle-Ensures svc root req = root_page-Ensures _ _ k svc req

  pub Serves-Relates : {svc : Services} {s t : State} → Serves svc s t → R s t
  Serves-Relates {svc} {s} (returned h req e) =
      subst (λ o. Relates R R s o) e ((handle-Ensures svc h req).holds s)
  Serves-Relates {svc} {s} (panicked h req e) =
      subst (λ o. Relates R R s o) e ((handle-Ensures svc h req).holds s)

  pub Reaches-Relates : {svc : Services} {s t : State} → Reaches svc s t → R s t
  Reaches-Relates here = k.kept.same _
  Reaches-Relates (next r st) = k.kept.trans _ _ _ (Reaches-Relates r) (Serves-Relates st)

pub Reaches-trans :
    {svc : Services} {s t u : State} → Reaches svc s t → Reaches svc t u → Reaches svc s u
Reaches-trans r here = r
Reaches-trans r (next q st) = next (Reaches-trans r q) st
