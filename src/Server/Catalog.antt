-- ===== src/Server/Catalog.antt =====
-- The videos that the database has accepted from videoPostHandler, as videosGetHandler lists them;
-- and what the two handlers of video.go rely on in the services that they call.
pub mod Stages
pub mod Allowed
pub mod Stored
pub mod Posted
pub mod Listed
pub mod RoundTrip
pub mod Tests
use learning_crossplane_e2e.Prelude.{String, true, false, some, List, [], ◌∷◌, ◌≡◌, is_empty}
use learning_crossplane_e2e.Server.State.{
  Video, DbOptions, Event, State, Services, Result, ok, Request, ClientConfiguration,
  ClientCheckRequest, text_response, json_response, db_connect, db_select, db_insert,
}

pub data Holds (v : Video) : List Video → Type 0 where
  here : {vs : List Video} → Holds v (v ∷ vs)
  there : {w : Video} {vs : List Video} → Holds v vs → Holds v (w ∷ vs)

-- The database behind `db` has accepted the video at some time.
pub data Accepted (svc : Services) (db : DbOptions) (v : Video) : List Event → Type 0 where
  now :
      {past : List Event} → svc.insert past db v ≡ ok tt → Accepted svc db v (db_insert db v ∷ past)
  later : {past : List Event} (e : Event) → Accepted svc db v past → Accepted svc db v (e ∷ past)

-- The responses, and what the database is asked for.
abbrev pub visible : List Event → List Event
visible [] = []
visible (text_response status body ∷ past) = text_response status body ∷ visible past
visible (json_response status videos ∷ past) = json_response status videos ∷ visible past
visible (db_connect db ∷ past) = db_connect db ∷ visible past
visible (db_select db ∷ past) = db_select db ∷ visible past
visible (db_insert db video ∷ past) = db_insert db video ∷ visible past
visible (_ ∷ past) = visible past

-- The videos that the database was asked to insert, the newest first.
abbrev pub insertions : List Event → List Video
insertions [] = []
insertions (db_insert db video ∷ past) = video ∷ insertions past
insertions (_ ∷ past) = insertions past

abbrev pub inserted_in : List Event → List Video
inserted_in past = insertions (visible past)

-- What the code gives to `NewSdkClient`.
abbrev pub configuration_of : Services → ClientConfiguration
configuration_of svc = record {
  api_url = svc.getenv "FGA_API_URL";
  store_id = svc.getenv "FGA_STORE_ID";
  authorization_model_id = svc.getenv "FGA_MODEL_ID";
}

-- No authorization server is configured, or it can be asked and always allows the request.
pub data Allows (svc : Services) (body : ClientCheckRequest) : Type 0 where
  unchecked : is_empty (svc.getenv "FGA_API_URL") ≡ true → Allows svc body
  asked :
      (client : ClientConfiguration)
      → is_empty (svc.getenv "FGA_API_URL") ≡ false
      → is_empty (svc.getenv "FGA_STORE_ID") ≡ false
      → is_empty (svc.getenv "FGA_MODEL_ID") ≡ false
      → svc.new_sdk_client (configuration_of svc) ≡ ok client
      → ((past : List Event) → svc.check past client body ≡ ok (some true))
      → Allows svc body
