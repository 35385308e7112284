-- ===== src/Server/Database/Opens.antt =====
-- getDB of video.go where its five variables are set and no session is kept.
use learning_crossplane_e2e.Prelude.{arith, false, none, some, ◌≡◌, ap, ◌∙◌, is_empty}
use learning_crossplane_e2e.Server.State.{
  State, Services, done, run, record_event, db_connect, db_add_query_hook,
}
use learning_crossplane_e2e.Server.Database.{first_set, db_options, open_db, session_or, get_db}

-- The state after a connection.
abbrev pub connected : Services → State → State
connected svc s =
    record_event (db_add_query_hook (db_options svc)) (record_event (db_connect (db_options svc)) s)

-- Each of the variables that getDB reads is set.
pub record IsConfigured (svc : Services) : Type 0 where
  pub endpoint : is_empty (svc.getenv "DB_ENDPOINT") ≡ false
  pub port : is_empty (svc.getenv "DB_PORT") ≡ false
  pub user : is_empty (first_set svc "DB_USER" "DB_USERNAME") ≡ false
  pub pass : is_empty (first_set svc "DB_PASS" "DB_PASSWORD") ≡ false
  pub name : is_empty (svc.getenv "DB_NAME") ≡ false

open_db_given :
    (svc : Services) (s : State)
    → IsConfigured svc
    → open_db svc s ≡ done (some (db_options svc)) (connected svc s)
unfolding open_db run
open_db_given svc s c = ground (arith, c.endpoint, c.port, c.user, c.pass, c.name)

-- The connection, from each state without a session.
pub get_db_given :
    (svc : Services) (s : State)
    → IsConfigured svc
    → s.db_session ≡ none
    → get_db svc s ≡ done (some (db_options svc)) (connected svc s)
unfolding get_db
get_db_given svc s c none_kept =
    ap (λ session. session_or session (open_db svc) s) none_kept ∙ open_db_given svc s c
