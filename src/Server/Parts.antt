-- ===== src/Server/Parts.antt =====
-- One proof for every property of the handlers' parts that each single event keeps: a preorder
-- on states that every event but the start and the end of a span moves along.
use learning_crossplane_e2e.Prelude.{
  ℕ, String, Bool, true, false, Option, none, some, List, ◌≡◌, refl, if◌then◌else◌,
}
use learning_crossplane_e2e.Server.State.{
  when◌then◌else◌, Event, State, ClientConfiguration, ClientCheckRequest, DbOptions, Video, Request,
  Services, Result, ok, err, M, pure, ◌>>=◌, emit, call, run, record_event, span_start, span_end,
}
use learning_crossplane_e2e.Server.Relate.{Relates, Ensures, >>=-Ensures, when-Ensures}
use learning_crossplane_e2e.Server.Errors.{http_error}
use learning_crossplane_e2e.Server.Openfga.{
  client_or_fatal, get_fga_client, allowed_of, check_with, fga_check,
}
use learning_crossplane_e2e.Server.Database.{missing, connect, session_or, open_db, get_db}
use learning_crossplane_e2e.Server.Videos.{
  guarded, with_db, list_or_error, done_or_error, list_videos, insert_video, list_behind,
  insert_behind, videos_get_body, video_post_body,
}
use learning_crossplane_e2e.Server.Pages.{root_handler, relay, ping_body}

abbrev pub is_span_event : Event → Bool
is_span_event (span_start _) = true
is_span_event span_end = true
is_span_event _ = false

pub record IsKept (R : State → State → Type 0) : Type 0 where
  pub same : (s : State) → R s s
  pub trans : (s t u : State) → R s t → R t u → R s u
  pub event : (e : Event) (s : State) → is_span_event e ≡ false → R s (record_event e s)

module _ (R : State → State → Type 0) (k : IsKept R) where
  abbrev pub Keeps {ℓ} : {A : Type ℓ} → M A → Type 0
  Keeps m = Ensures R R m

  pub seq {ℓ κ} :
      {A : Type ℓ} {B : Type κ} {m : M A} {f : A → M B}
      → Keeps m
      → ((a : A) → Keeps (f a))
      → Keeps (m >>= f)
  seq {m} {f} hm hf = >>=-Ensures R R k.trans k.trans m f hm hf

  pub emit-Keeps : (e : Event) → is_span_event e ≡ false → Keeps (emit e)
  unfolding emit
  emit-Keeps e h = record { holds = λ s. k.event e s h }

  pub call-Keeps {ℓ} :
      {A : Type ℓ} (e : Event) (f : List Event → A) → is_span_event e ≡ false → Keeps (call e f)
  unfolding call
  call-Keeps e f h = record { holds = λ s. k.event e s h }

  pub pure-Keeps {ℓ} : {A : Type ℓ} (a : A) → Keeps (pure a)
  unfolding pure
  pure-Keeps a = record { holds = λ s. k.same s }

  pub choose {ℓ} :
      {A : Type ℓ} (b : Bool) {m n : M A} → Keeps m → Keeps n → Keeps (when b then m else n)
  choose b {m} {n} hm hn = when-Ensures R R b m n hm hn

  pub http_error-Keeps : (message : String) (status : ℕ) → Keeps (http_error message status)
  unfolding http_error
  http_error-Keeps message status =
      seq (emit-Keeps _ refl)
        λ _. seq (emit-Keeps _ refl) λ _. seq (emit-Keeps _ refl) λ _. emit-Keeps _ refl

  client_or_fatal-Keeps : (r : Result ClientConfiguration) → Keeps (client_or_fatal r)
  unfolding client_or_fatal
  client_or_fatal-Keeps (ok client) = (pure-Keeps _)
  client_or_fatal-Keeps (err message) = record { holds = λ s. k.event _ s refl }

  list_or_error-Keeps : (r : Result (List Video)) → Keeps (list_or_error r)
  unfolding list_or_error
  list_or_error-Keeps (ok videos) = emit-Keeps _ refl
  list_or_error-Keeps (err message) = http_error-Keeps message _

  done_or_error-Keeps : (r : Result (Unit {0})) → Keeps (done_or_error r)
  unfolding done_or_error
  done_or_error-Keeps (ok _) = (pure-Keeps _)
  done_or_error-Keeps (err message) = http_error-Keeps message _

  pub relay-Keeps : (svc : Services) (r : Result String) → Keeps (relay svc r)
  unfolding relay
  relay-Keeps svc (ok body) = seq (emit-Keeps _ refl) λ _. emit-Keeps _ refl
  relay-Keeps svc (err message) = http_error-Keeps message _

  pub with_db-Keeps :
      {next : DbOptions → M (Unit {0})} (db : Option DbOptions)
      → ((options : DbOptions) → Keeps (next options))
      → Keeps (with_db next db)
  unfolding with_db
  with_db-Keeps none h = (pure-Keeps _)
  with_db-Keeps (some options) h = h options

  pub guarded-Keeps : {next : M (Unit {0})} (r : Result Bool) → Keeps next → Keeps (guarded next r)
  unfolding guarded
  guarded-Keeps (ok true) h = h
  guarded-Keeps (ok false) h = http_error-Keeps _ _
  guarded-Keeps (err message) h = http_error-Keeps message _

  missing-Keeps : (message : String) → Keeps (missing message)
  unfolding missing
  missing-Keeps message = seq (emit-Keeps _ refl) λ _. seq (emit-Keeps _ refl) λ _. (pure-Keeps _)

  connect-Keeps : (options : DbOptions) → Keeps (connect options)
  unfolding connect
  connect-Keeps options = seq (emit-Keeps _ refl) λ _. seq (emit-Keeps _ refl) λ _. (pure-Keeps _)

  module _ (svc : Services) where
    pub get_fga_client-Keeps : (url : String) → Keeps (get_fga_client svc url)
    unfolding get_fga_client
    get_fga_client-Keeps url = seq (emit-Keeps _ refl) λ _.
        choose _ (pure-Keeps _)
          (choose _ (pure-Keeps _) (seq (call-Keeps _ _ refl) client_or_fatal-Keeps))

    allowed_of-Keeps : (r : Result (Option Bool)) → Keeps (allowed_of svc r)
    unfolding allowed_of run
    allowed_of-Keeps (ok none) = record { holds = λ s. k.same s }
    allowed_of-Keeps (ok (some b)) = record { holds = λ s. k.same s }
    allowed_of-Keeps (err message) = (pure-Keeps _)

    check_with-Keeps :
        (body : ClientCheckRequest) (r : Result ClientConfiguration) → Keeps (check_with svc body r)
    unfolding check_with
    check_with-Keeps body (ok client) = seq (call-Keeps _ _ refl) allowed_of-Keeps
    check_with-Keeps body (err message) = (pure-Keeps _)

    pub fga_check-Keeps : (user relation : String) → Keeps (fga_check svc user relation)
    unfolding fga_check
    fga_check-Keeps user relation =
        choose _ (pure-Keeps _) (seq (get_fga_client-Keeps _) (check_with-Keeps _))

    open_db-Keeps : Keeps (open_db svc)
    unfolding open_db
    open_db-Keeps = choose _ (missing-Keeps _) (
        choose _ (missing-Keeps _) (
          choose _ (missing-Keeps _)
            (choose _ (missing-Keeps _) (choose _ (missing-Keeps _) (connect-Keeps _)))))

    get_db_from-Keeps :
        (s : State) (db : Option DbOptions) → Relates R R s (session_or db (open_db svc) s)
    get_db_from-Keeps s (some db) = k.same s
    get_db_from-Keeps s none = open_db-Keeps.holds s

    pub get_db-Keeps : Keeps (get_db svc)
    unfolding get_db
    get_db-Keeps = record { holds = λ s. get_db_from-Keeps s s.db_session }

    pub list_videos-Keeps : (db : DbOptions) → Keeps (list_videos svc db)
    unfolding list_videos
    list_videos-Keeps db = seq (call-Keeps _ _ refl) list_or_error-Keeps

    pub insert_video-Keeps : (req : Request) (db : DbOptions) → Keeps (insert_video svc req db)
    unfolding insert_video
    insert_video-Keeps req db = seq (emit-Keeps _ refl) λ _. choose _ (http_error-Keeps _ _) (
        choose _ (http_error-Keeps _ _)
          (seq (emit-Keeps _ refl) λ _. seq (call-Keeps _ _ refl) done_or_error-Keeps))

    pub root_handler-Keeps : (req : Request) → Keeps (root_handler svc req)
    unfolding root_handler
    root_handler-Keeps req =
        choose _ (seq (emit-Keeps _ refl) λ _. emit-Keeps _ refl) (emit-Keeps _ refl)

    -- The bodies of the handlers, inside their spans.
    pub videos_get_body-Keeps : (req : Request) → Keeps (videos_get_body svc req)
    unfolding videos_get_body list_behind
    videos_get_body-Keeps req = seq (emit-Keeps _ refl) λ _. seq (fga_check-Keeps _ _) λ allowed.
        guarded-Keeps allowed
          (seq (emit-Keeps _ refl) λ _. seq get_db-Keeps λ db. with_db-Keeps db list_videos-Keeps)

    pub video_post_body-Keeps : (req : Request) → Keeps (video_post_body svc req)
    unfolding video_post_body insert_behind
    video_post_body-Keeps req = seq (emit-Keeps _ refl) λ _. seq (fga_check-Keeps _ _) λ allowed.
        guarded-Keeps allowed (
          seq (emit-Keeps _ refl)
            λ _. seq get_db-Keeps λ db. with_db-Keeps db (insert_video-Keeps req))

    pub ping_body-Keeps : (req : Request) → Keeps (ping_body svc req)
    unfolding ping_body
    ping_body-Keeps req =
        choose _ (http_error-Keeps _ _)
          (seq (emit-Keeps _ refl) λ _. seq (call-Keeps _ _ refl) (relay-Keeps svc))
