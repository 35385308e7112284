-- ===== src/Server/Concurrent/Tests.antt =====
-- A POST and a GET, between the events of a third request.
use learning_crossplane_e2e.Prelude.{true, some, [], ◌∷◌, ◌++◌, refl, ap, subst}
use learning_crossplane_e2e.Server.State.{
  Services, run, span_start, span_event, span_end, db_connect, db_add_query_hook, db_insert,
  db_select, json_response, text_response, debug, log, fga_client, fga_request, ok,
}
use learning_crossplane_e2e.Server.Errors.{status_ok}
use learning_crossplane_e2e.Server.Database.{db_options}
use learning_crossplane_e2e.Server.Videos.{videos_get_handler, video_post_handler}
use learning_crossplane_e2e.Server.Responses.Post.{video_of}
use learning_crossplane_e2e.Server.Serving.{initial, video_post, videos_get, handle}
use learning_crossplane_e2e.Server.Catalog.{Holds, unchecked, configuration_of}
use learning_crossplane_e2e.Server.Catalog.Tests.{
  inserted, inserted-Holds, videos_or, intro, memory, memory-IsConfigured,
}
use learning_crossplane_e2e.Server.Concurrent.{History, local, Ran}
use learning_crossplane_e2e.Server.Concurrent.RoundTrip.{Answered, Ran-Answered}
use learning_crossplane_e2e.Server.Concurrent.Authorization.{
  AllowedFirst, writing, Ran-AllowedFirst,
}
use learning_crossplane_e2e.Server.Openfga.{check_request}

abbrev older : History
older =
    (1, span_end)
    ∷ (1, db_insert (db_options memory) (video_of intro))
    ∷ (1, span_event "Retrieving data from the database...")
    ∷ (1, span_event "Retrieving values...")
    ∷ (3, debug "Handling request" "/")
    ∷ (1, db_add_query_hook (db_options memory))
    ∷ (1, db_connect (db_options memory))
    ∷ (1, span_event "Establishing connection to the database...")
    ∷ (1, span_event "Authorizing the user")
    ∷ (1, span_start "video-post")
    ∷ []

abbrev newer : History
newer =
    (2, span_end)
    ∷ (2, json_response status_ok (video_of intro ∷ []))
    ∷ (2, db_select (db_options memory))
    ∷ (2, db_add_query_hook (db_options memory))
    ∷ (2, db_connect (db_options memory))
    ∷ (3, text_response status_ok "This is a silly demo")
    ∷ (2, span_event "Establishing connection to the database")
    ∷ (2, span_event "Authorizing the user")
    ∷ (2, span_start "video-get")
    ∷ []

posted : Ran memory (newer ++ older) 1 video_post intro
unfolding handle run video_post_handler
posted = record { final = record initial { trace = local 1 older }; returns = refl; events = refl }

listed : Ran memory (newer ++ older) 2 videos_get intro
unfolding handle run videos_get_handler
listed = record { final = record initial { trace = local 2 newer }; returns = refl; events = refl }

Ran-Answered_example : Answered (video_of intro) (local 2 (newer ++ older))
Ran-Answered_example =
    Ran-Answered memory newer older 1 2 intro intro memory-IsConfigured (unchecked refl)
      (unchecked refl) (λ past. (inserted past, refl))
      (λ past videos v a e.
        subst (Holds v) (ap (videos_or []) e) (inserted-Holds memory (db_options memory) v past a))
      posted refl refl listed refl

-- The same POST where the authorization server is asked.
abbrev asked_memory : Services
asked_memory = record memory {
  getenv = λ name. "value";
  check = λ past client body. ok (some true);
}

abbrev asked_history : History
asked_history =
    (1, span_end)
    ∷ (1, db_insert (db_options asked_memory) (video_of intro))
    ∷ (1, span_event "Retrieving data from the database...")
    ∷ (1, span_event "Retrieving values...")
    ∷ (1, db_add_query_hook (db_options asked_memory))
    ∷ (1, db_connect (db_options asked_memory))
    ∷ (1, span_event "Establishing connection to the database...")
    ∷ (3, debug "Handling request" "/")
    ∷ (1, fga_request (check_request (intro.query "user") "writer"))
    ∷ (1, fga_client (configuration_of asked_memory))
    ∷ (1, log "Creating client...")
    ∷ (1, span_event "Authorizing the user")
    ∷ (1, span_start "video-post")
    ∷ []

asked_posted : Ran asked_memory asked_history 1 video_post intro
unfolding handle run video_post_handler
asked_posted = record {
  final = record initial { trace = local 1 asked_history };
  returns = refl;
  events = refl;
}

Ran-AllowedFirst_example :
    AllowedFirst asked_memory 1 (check_request (intro.query "user") "writer") asked_history
Ran-AllowedFirst_example =
    Ran-AllowedFirst asked_memory asked_history 1 video_post "writer" intro writing asked_posted
