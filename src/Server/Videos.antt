-- ===== src/Server/Videos.antt =====
-- The two handlers of video.go.
use learning_crossplane_e2e.Prelude.{
  List, Bool, true, false, Option, none, some, is_empty, if◌then◌else◌,
}
use learning_crossplane_e2e.Server.Errors.{
  status_ok, http_error_bad_request, http_error_internal_server_error, http_status_unauthorized,
}
use learning_crossplane_e2e.Server.Openfga.{fga_check}
use learning_crossplane_e2e.Server.Database.{get_db}
use learning_crossplane_e2e.Server.State.{
  when◌then◌else◌, Video, DbOptions, Request, M, pure, ◌>>=◌, ◌>>◌, emit, call, with_span, Result,
  ok, err, Services, span_event, json_response, db_select, db_insert,
}

-- The guard that both handlers begin with: `next` runs only for an allowed user.
unfoldable pub guarded : M (Unit {0}) → Result Bool → M (Unit {0})
unfolding http_error_internal_server_error http_status_unauthorized
guarded next (err message) = http_error_internal_server_error message
guarded next (ok true) = next
guarded next (ok false) = http_status_unauthorized "not allowed"

-- `if db == nil { return }`
unfoldable pub with_db : (DbOptions → M (Unit {0})) → Option DbOptions → M (Unit {0})
with_db next none = pure tt
with_db next (some db) = next db

-- What follows `Select`.
unfoldable pub list_or_error : Result (List Video) → M (Unit {0})
unfolding http_error_internal_server_error
list_or_error (err message) = http_error_internal_server_error message
list_or_error (ok videos) = emit (json_response status_ok videos)

-- What follows `Insert`: nothing is written on success.
unfoldable pub done_or_error : Result (Unit {0}) → M (Unit {0})
unfolding http_error_internal_server_error
done_or_error (err message) = http_error_internal_server_error message
done_or_error (ok _) = pure tt

module _ (svc : Services) where
  unfoldable pub list_videos : DbOptions → M (Unit {0})
  unfolding list_or_error
  list_videos db = call (db_select db) (λ past. svc.select past db) >>= list_or_error

  -- What videosGetHandler does behind the check.
  unfoldable pub list_behind : M (Unit {0})
  unfolding with_db list_videos get_db
  list_behind = do
    emit (span_event "Establishing connection to the database")
    db ← get_db svc
    with_db list_videos db

  unfoldable pub videos_get_body : Request → M (Unit {0})
  unfolding guarded list_behind fga_check
  videos_get_body req = do
    emit (span_event "Authorizing the user")
    allowed ← fga_check svc (req.query "user") "reader"
    guarded list_behind allowed

  unfoldable pub videos_get_handler : Request → M (Unit {0})
  unfolding videos_get_body
  videos_get_handler req = with_span "video-get" (videos_get_body req)

  unfoldable pub insert_video : Request → DbOptions → M (Unit {0})
  unfolding done_or_error http_error_bad_request
  insert_video req db =
      let id = req.query "id" in
      let title = req.query "title" in
      let video : Video = record { id = id; title = title } in
      emit (span_event "Retrieving values...")
      >> (when is_empty id
          then http_error_bad_request "id is empty"
          else when is_empty title
          then http_error_bad_request "title is empty"
          else emit (span_event "Retrieving data from the database...")
            >> (call (db_insert db video) (λ past. svc.insert past db video) >>= done_or_error))

  -- What videoPostHandler does behind the check.
  unfoldable pub insert_behind : Request → M (Unit {0})
  unfolding with_db insert_video get_db
  insert_behind req = do
    emit (span_event "Establishing connection to the database...")
    db ← get_db svc
    with_db (insert_video req) db

  unfoldable pub video_post_body : Request → M (Unit {0})
  unfolding guarded insert_behind fga_check
  video_post_body req = do
    emit (span_event "Authorizing the user")
    allowed ← fga_check svc (req.query "user") "writer"
    guarded (insert_behind req) allowed

  unfoldable pub video_post_handler : Request → M (Unit {0})
  unfolding video_post_body
  video_post_handler req = with_span "video-post" (video_post_body req)
