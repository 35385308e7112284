-- ===== src/Server/Rejections/Tests.antt =====
-- A server that lets nobody in, and one whose database accepts nothing.
use learning_crossplane_e2e.Prelude.{false, some, [], ◌∷◌, refl}
use learning_crossplane_e2e.Server.State.{Services, ok, err, text_response, db_connect, db_insert}
use learning_crossplane_e2e.Server.Errors.{status_unauthorized, status_internal_server_error}
use learning_crossplane_e2e.Server.Database.{db_options}
use learning_crossplane_e2e.Server.Database.Opens.{IsConfigured}
use learning_crossplane_e2e.Server.Videos.{video_post_handler}
use learning_crossplane_e2e.Server.Responses.Post.{video_of}
use learning_crossplane_e2e.Server.Serving.{initial, videos_get, handle}
use learning_crossplane_e2e.Server.Concurrent.Authorization.{reading}
use learning_crossplane_e2e.Server.Catalog.{unchecked, configuration_of}
use learning_crossplane_e2e.Server.Catalog.Tests.{variable, intro}
use learning_crossplane_e2e.Server.Rejections.{Adds, denied, refused, insert_failed}
use learning_crossplane_e2e.Server.Rejections.Refused.{handle-Rejects}
use learning_crossplane_e2e.Server.Rejections.Unstored.{video_post_handler-Reports}

abbrev strict : Services
strict = record {
  getenv = λ name. "value";
  quote = λ s. s;
  new_sdk_client = λ configuration. ok configuration;
  check = λ past client body. ok (some false);
  select = λ past db. err "connection refused";
  insert = λ past db video. err "connection refused";
  inject = λ context headers. ("traceparent", context) ∷ headers;
  extra_stack = 0;
  get = λ past headers url. err "no route to host";
}

abbrev broken : Services
broken = record strict { getenv = variable }

broken-IsConfigured : IsConfigured broken
broken-IsConfigured = record { endpoint = refl; port = refl; user = refl; pass = refl; name = refl }

handle-Rejects_example :
    Adds
      (text_response status_unauthorized "not allowed")
      []
      (handle strict videos_get intro initial)
handle-Rejects_example =
    handle-Rejects strict videos_get "reader" intro initial status_unauthorized "not allowed"
      reading (refused (denied (configuration_of strict) refl refl refl refl (λ past. refl)))

video_post_handler-Reports_example :
    Adds
      (text_response status_internal_server_error "connection refused")
      (db_insert (db_options broken) (video_of intro) ∷ db_connect (db_options broken) ∷ [])
      (video_post_handler broken intro initial)
video_post_handler-Reports_example =
    video_post_handler-Reports broken intro initial status_internal_server_error
      "connection refused" (db_insert (db_options broken) (video_of intro) ∷ []) broken-IsConfigured
      (unchecked refl) refl (insert_failed "connection refused" refl refl (λ past. refl))
