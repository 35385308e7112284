-- ===== src/Server/Catalog/Tests.antt =====
-- The round trip on a database that answers by the history of its insertions, and a ping.
use text.Mathlib.Text.{◌==◌ as str_eq}
use learning_crossplane_e2e.Prelude.{
  String, false, some, List, [], ◌∷◌, ◌≡◌, refl, ap, subst, if◌then◌else◌,
}
use learning_crossplane_e2e.Server.State.{
  Event, Video, State, Services, Request, DbOptions, Result, ok, err, db_insert, text_response,
  ping_request, done, run, span_start, span_event, span_end, db_connect, db_add_query_hook,
}
use learning_crossplane_e2e.Server.Database.{db_options}
use learning_crossplane_e2e.Server.Database.Opens.{IsConfigured}
use learning_crossplane_e2e.Server.Videos.{videos_get_handler, video_post_handler}
use learning_crossplane_e2e.Server.Pages.{ping_handler}
use learning_crossplane_e2e.Server.Pages.Relay.{
  traced, in_query, unreachable, Pings, ping_handler-Pings,
}
use learning_crossplane_e2e.Server.Errors.{status_bad_request}
use learning_crossplane_e2e.Server.Responses.Post.{video_of}
use learning_crossplane_e2e.Server.Serving.{initial, here}
use learning_crossplane_e2e.Server.Catalog.{Holds, there, Accepted, now, later, unchecked}
use learning_crossplane_e2e.Server.Catalog.Stored.{Stores, video_post_handler-Stores}
use learning_crossplane_e2e.Server.Catalog.RoundTrip.{Shows, videos_get_handler-Shows}

-- The videos inserted so far, the newest first.
abbrev pub inserted : List Event → List Video
inserted [] = []
inserted (db_insert _ v ∷ past) = v ∷ inserted past
inserted (_ ∷ past) = inserted past

abbrev pub variable : String → String
variable name = if str_eq name "FGA_API_URL" then "" else "value"

abbrev pub memory : Services
memory = record {
  getenv = variable;
  quote = λ s. s;
  new_sdk_client = λ configuration. ok configuration;
  check = λ past client body. ok (some false);
  select = λ past db. ok (inserted past);
  insert = λ past db video. ok tt;
  inject = λ context headers. ("traceparent", context) ∷ headers;
  extra_stack = 0;
  get = λ past headers url. err "no route to host";
}

pub memory-IsConfigured : IsConfigured memory
memory-IsConfigured = record { endpoint = refl; port = refl; user = refl; pass = refl; name = refl }

inserted-later :
    (v : Video) (past : List Event) (e : Event)
    → Holds v (inserted past)
    → Holds v (inserted (e ∷ past))
inserted-later v past (db_insert _ w) h = there h
inserted-later v past _ h = h

pub inserted-Holds :
    (svc : Services) (db : DbOptions) (v : Video) (past : List Event)
    → Accepted svc db v past
    → Holds v (inserted past)
inserted-Holds svc db v past (now _) = Holds.here
inserted-Holds svc db v (e ∷ past) (later _ a) =
    inserted-later v past e (inserted-Holds svc db v past a)

abbrev pub videos_or : List Video → Result (List Video) → List Video
videos_or other (ok videos) = videos
videos_or other (err message) = other

abbrev lookup : List (String × String) → String → String
lookup [] name = ""
lookup (p ∷ ps) name = if str_eq p.0 name then p.1 else lookup ps name

abbrev request : List (String × String) → Request
request fields = record { query = lookup fields; request_uri = "/"; trace_context = "00-1-1-01" }

abbrev pub intro : Request
intro = request (("user", "ana") ∷ ("id", "1") ∷ ("title", "Intro") ∷ [])

video_post_handler-Stores_example :
    Stores memory intro initial (video_post_handler memory intro initial)
video_post_handler-Stores_example =
    video_post_handler-Stores memory intro initial refl refl (λ past _. refl) memory-IsConfigured
      (unchecked refl) refl

-- The state after the POST, from the initial one.
abbrev pub stored : Services → State
stored svc = record initial {
  trace =
      span_end
      ∷ db_insert (db_options svc) (video_of intro)
      ∷ span_event "Retrieving data from the database..."
      ∷ span_event "Retrieving values..."
      ∷ db_add_query_hook (db_options svc)
      ∷ db_connect (db_options svc)
      ∷ span_event "Establishing connection to the database..."
      ∷ span_event "Authorizing the user"
      ∷ span_start "video-post"
      ∷ [];
}

posted_intro : video_post_handler memory intro initial ≡ done tt (stored memory)
unfolding run video_post_handler
posted_intro = refl

videos_get_handler-Shows_example :
    Shows (video_of intro) (videos_get_handler memory intro (stored memory))
videos_get_handler-Shows_example =
    videos_get_handler-Shows memory intro intro initial (stored memory) (stored memory)
      memory-IsConfigured (unchecked refl) (unchecked refl) (λ past. (inserted past, refl))
      (λ past videos v a e.
        subst (Holds v) (ap (videos_or []) e) (inserted-Holds memory (db_options memory) v past a))
      here posted_intro refl here

abbrev other_server : Request
other_server = request (("url", "http://other:8080/") ∷ [])

ping_handler-Pings_example :
    Pings
      (text_response status_bad_request "no route to host")
      (ping_request (traced memory other_server) "http://other:8080/" ∷ [])
      initial
      (ping_handler memory other_server initial)
ping_handler-Pings_example =
    ping_handler-Pings memory other_server initial status_bad_request "no route to host"
      (ping_request (traced memory other_server) "http://other:8080/" ∷ [])
      (unreachable "no route to host" (in_query refl) (λ past. refl))
