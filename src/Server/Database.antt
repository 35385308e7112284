-- ===== src/Server/Database.antt =====
-- getDB of video.go: the options come from the environment, each variable checked in turn.
pub mod Opens
use learning_crossplane_e2e.Prelude.{◌⊕◌, String, true, Option, none, some, is_empty, if◌then◌else◌}
use learning_crossplane_e2e.Server.Errors.{status_bad_request}
use learning_crossplane_e2e.Server.State.{
  when◌then◌else◌, DbOptions, done, M, pure, ◌>>◌, emit, Services, log, text_response, db_connect,
  db_add_query_hook,
}

-- A missing variable is logged and answered with status 400; the caller gets nil.
unfoldable pub missing : String → M (Option DbOptions)
missing message = do emit (log message); emit (text_response status_bad_request message); pure none

-- `dbSession := pg.Connect(…)`: this `dbSession` is a local variable, so the state keeps its own.
unfoldable pub connect : DbOptions → M (Option DbOptions)
connect options = do
  emit (db_connect options)
  emit (db_add_query_hook options)
  pure (some options)

-- `if dbSession != nil { return dbSession }`
abbrev pub session_or : Option DbOptions → M (Option DbOptions) → M (Option DbOptions)
session_or (some db) m s = done (some db) s
session_or none m s = m s

module _ (svc : Services) where
  -- A variable and, where it is empty, another one.
  abbrev pub first_set : String → String → String
  first_set name other = if is_empty (svc.getenv name) then svc.getenv other else svc.getenv name

  abbrev pub db_options : DbOptions
  db_options = record {
    addr = svc.getenv "DB_ENDPOINT" ⊕ (":" ⊕ svc.getenv "DB_PORT");
    user = first_set "DB_USER" "DB_USERNAME";
    password = first_set "DB_PASS" "DB_PASSWORD";
    database = svc.getenv "DB_NAME";
    insecure_skip_verify = true;
  }

  unfoldable pub open_db : M (Option DbOptions)
  unfolding missing connect
  open_db =
      when is_empty (svc.getenv "DB_ENDPOINT")
      then missing "Environment variable `DB_ENDPOINT` is empty"
      else when is_empty (svc.getenv "DB_PORT")
      then missing "Environment variable `DB_PORT` is empty"
      else when is_empty (first_set "DB_USER" "DB_USERNAME")
      then missing "Environment variables `DB_USER` and `DB_USERNAME` are empty"
      else when is_empty (first_set "DB_PASS" "DB_PASSWORD")
      then missing "Environment variables `DB_PASS` and `DB_PASSWORD are empty"
      else when is_empty (svc.getenv "DB_NAME")
      then missing "Environment variable `DB_NAME` is empty"
      else connect db_options

  unfoldable pub get_db : M (Option DbOptions)
  unfolding open_db
  get_db s = session_or s.db_session open_db s
