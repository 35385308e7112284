-- ===== src/Server/Serving/Session.antt =====
-- The package variable `dbSession` of video.go, as requests are served.
use learning_crossplane_e2e.Prelude.{Option, none, some, ◌∷◌, ◌≡◌, refl, ◌∙◌, arith}
use learning_crossplane_e2e.Server.State.{
  State, Services, DbOptions, done, run, db_connect, db_add_query_hook,
}
use learning_crossplane_e2e.Server.Parts.{IsKept}
use learning_crossplane_e2e.Server.Handlers.{IsSpanned}
use learning_crossplane_e2e.Server.Serving.Runs.{Reaches-Relates}
use learning_crossplane_e2e.Server.Database.{session_or, open_db, db_options, get_db}
use learning_crossplane_e2e.Server.Serving.{initial, Reaches}

abbrev SameSession : State → State → Type 0
SameSession s t = t.db_session ≡ s.db_session

kept : IsKept SameSession
kept = record { same = λ s. refl; trans = λ s t u h k. k ∙ h; event = λ e s h. refl }

spanned : IsSpanned SameSession SameSession
spanned = record {
  kept = kept;
  leave = λ s t h. h;
  leave_trans = λ s t u h k. k ∙ h;
  span = λ name s t h. h;
  span_left = λ name s t h. h;
}

-- However many requests the server has answered, the package variable `dbSession` is still nil.
pub Reaches-no_session : {svc : Services} {t : State} → Reaches svc initial t → t.db_session ≡ none
Reaches-no_session r = Reaches-Relates SameSession spanned (λ s t h. h) r

session_or-none :
    (svc : Services) (s : State) (session : Option DbOptions)
    → session ≡ none
    → open_db svc s ≡ session_or session (open_db svc) s
session_or-none svc s none e = refl
session_or-none svc s (some db) e = cc

open_db_connects :
    (svc : Services) (s t : State) (db : DbOptions)
    → open_db svc s ≡ done (some db) t
    → (db ≡ db_options svc) × (t.trace ≡ db_add_query_hook db ∷ db_connect db ∷ s.trace)
unfolding open_db run
open_db_connects svc s t db e = ground arith

-- In every state that the server reaches, a getDB that gives a database opens a new connection pool,
-- with the options of the environment.
pub Reaches-get_db_connects :
    (svc : Services) (s t : State) (db : DbOptions)
    → Reaches svc initial s
    → get_db svc s ≡ done (some db) t
    → (db ≡ db_options svc) × (t.trace ≡ db_add_query_hook db ∷ db_connect db ∷ s.trace)
unfolding get_db
Reaches-get_db_connects svc s t db r e =
    open_db_connects svc s t db (session_or-none svc s s.db_session (Reaches-no_session r) ∙ e)
