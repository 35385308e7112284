-- ===== src/Server/Pages/Answer.antt =====
-- How often the root page and the ping answer.
use learning_crossplane_e2e.Prelude.{String, ◌≡◌, refl, ◌∙◌, ap, suc, is_empty}
use learning_crossplane_e2e.Server.State.{
  State, Outcome, Services, Request, Result, ok, err, ◌>>=◌, emit, pure, call, ended, run,
  record_event, span_end,
}
use learning_crossplane_e2e.Server.Errors.{http_error, http_error_bad_request}
use learning_crossplane_e2e.Server.Responses.{responses, AnswersOnce, when_cases}
use learning_crossplane_e2e.Server.Pages.{relay, ping_url, ping_body, ping_handler, root_handler}

relay-AnswersOnce : (svc : Services) (r : Result String) (s : State) → AnswersOnce s (relay svc r s)
unfolding relay http_error_bad_request http_error run
relay-AnswersOnce svc (ok body) s = record { final = _; returns = refl; once = refl }
relay-AnswersOnce svc (err message) s = record { final = _; returns = refl; once = refl }

-- An event that is no response may come first.
after_silent :
    (s t : State) (o : Outcome (Unit {0}))
    → responses t.trace ≡ responses s.trace
    → AnswersOnce t o
    → AnswersOnce s o
after_silent s t o silent h = record {
  final = h.final;
  returns = h.returns;
  once = h.once ∙ ap suc silent;
}

ping_body-AnswersOnce :
    (svc : Services) (req : Request) (s : State) → AnswersOnce s (ping_body svc req s)
unfolding ping_body http_error_bad_request http_error ◌>>=◌ emit pure call
ping_body-AnswersOnce svc req s =
    when_cases (AnswersOnce s) (is_empty (ping_url svc req)) _ _ s
      (record { final = _; returns = refl; once = refl })
      (after_silent s _ _ refl (relay-AnswersOnce svc _ _))

ended-AnswersOnce : (s : State) (o : Outcome (Unit {0})) → AnswersOnce s o → AnswersOnce s (ended o)
ended-AnswersOnce s o h = record {
  final = record_event span_end h.final;
  returns = ap ended h.returns;
  once = h.once;
}

root_page-AnswersOnce :
    (svc : Services) (req : Request) (s : State) → AnswersOnce s (root_handler svc req s)
unfolding root_handler ◌>>=◌ emit pure call
root_page-AnswersOnce svc req s =
    when_cases (AnswersOnce s) (is_empty (req.query "fail")) _ _ s
      (record { final = _; returns = refl; once = refl })
      (record { final = _; returns = refl; once = refl })

-- Whatever the query, and whatever the server that is pinged answers, rootHandler and pingHandler
-- return with exactly one response.
pub handlers-AnswersOnce :
    (svc : Services) (req : Request) (s : State)
    → AnswersOnce s (root_handler svc req s) × AnswersOnce s (ping_handler svc req s)
unfolding ping_handler run
handlers-AnswersOnce svc req s =
    (root_page-AnswersOnce svc req s, ended-AnswersOnce s _ (ping_body-AnswersOnce svc req s))
