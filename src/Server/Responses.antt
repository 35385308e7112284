-- ===== src/Server/Responses.antt =====
-- How often the video handlers answer.
pub mod Post
use learning_crossplane_e2e.Prelude.{
  ℕ, suc, ◌+◌, String, Bool, true, false, Option, none, some, List, [], ◌∷◌, ◌≡◌, refl, ◌∙◌, ap,
  ◌⊎◌, inl, inr, arith, is_empty,
}
use learning_crossplane_e2e.Server.State.{
  State, Event, Outcome, done, panic, exit, unfinished, Services, Request, DbOptions, Video,
  ClientConfiguration, ClientCheckRequest, Result, ok, err, M, ◌>>=◌, emit, pure, call, after, run,
  ended, when◌then◌else◌, record_event, text_response, json_response, log, db_insert, db_select,
}
use learning_crossplane_e2e.Server.Errors.{
  http_error, http_error_internal_server_error, http_status_unauthorized,
}
use learning_crossplane_e2e.Server.Openfga.{
  client_or_fatal, get_fga_client, allowed_of, check_with, fga_check, check_request,
}
use learning_crossplane_e2e.Server.Database.{missing, connect, open_db, session_or, get_db}
use learning_crossplane_e2e.Server.Videos.{
  guarded, with_db, list_or_error, done_or_error, list_videos, insert_video, list_behind,
  insert_behind, videos_get_body, video_post_body, videos_get_handler, video_post_handler,
}

abbrev pub responses : List Event → ℕ
responses [] = 0
responses (text_response _ _ ∷ past) = suc (responses past)
responses (json_response _ _ ∷ past) = suc (responses past)
responses (_ ∷ past) = responses past

-- One answer, to its end.
pub record AnswersOnce (s : State) (o : Outcome (Unit {0})) : Type 0 where
  pub final : State
  pub returns : o ≡ done tt final
  pub once : responses final.trace ≡ suc (responses s.trace)

-- Both branches of a choice.
pub when_cases {ℓ κ} :
    {A : Type ℓ} (P : Outcome A → Type κ) (b : Bool) (m n : M A) (s : State)
    → P (m s)
    → P (n s)
    → P ((when b then m else n) s)
unfolding when◌then◌else◌
when_cases P true m n s hm hn = hm
when_cases P false m n s hm hn = hn

-- Nothing is answered.
abbrev pub Silent {ℓ} : {A : Type ℓ} → ℕ → Outcome A → Type 0
Silent n (done a t) = responses t.trace ≡ n
Silent n (panic t) = responses t.trace ≡ n
Silent n (exit t) = responses t.trace ≡ n
Silent n (unfinished t) = ⊥

-- A return has answered once, and a panic or an exit has not answered.
abbrev pub AnsweredOnce {ℓ} : {A : Type ℓ} → ℕ → Outcome A → Type 0
AnsweredOnce n (done a t) = responses t.trace ≡ suc n
AnsweredOnce n (panic t) = responses t.trace ≡ n
AnsweredOnce n (exit t) = responses t.trace ≡ n
AnsweredOnce n (unfinished t) = ⊥

-- getDB answers exactly where it gives no connection.
abbrev pub AnsweredUnless : ℕ → Outcome (Option DbOptions) → Type 0
AnsweredUnless n (done none t) = responses t.trace ≡ suc n
AnsweredUnless n (done (some db) t) = responses t.trace ≡ n
AnsweredUnless n _ = ⊥

client_or_fatal-Silent :
    (r : Result ClientConfiguration) (s : State) → Silent (responses s.trace) (client_or_fatal r s)
unfolding client_or_fatal run
client_or_fatal-Silent (ok client) s = refl
client_or_fatal-Silent (err message) s = refl

allowed_of-Silent :
    (svc : Services) (r : Result (Option Bool)) (s : State)
    → Silent (responses s.trace) (allowed_of svc r s)
unfolding allowed_of run
allowed_of-Silent svc (ok none) s = refl
allowed_of-Silent svc (ok (some b)) s = refl
allowed_of-Silent svc (err message) s = refl

check_with-Silent :
    (svc : Services) (body : ClientCheckRequest) (r : Result ClientConfiguration) (s : State)
    → Silent (responses s.trace) (check_with svc body r s)
unfolding check_with run
check_with-Silent svc body (ok client) s = allowed_of-Silent svc (svc.check s.trace client body) _
check_with-Silent svc body (err message) s = refl

get_fga_client-Silent :
    (svc : Services) (url : String) (s : State)
    → Silent (responses s.trace) (get_fga_client svc url s)
unfolding get_fga_client ◌>>=◌ emit pure call
get_fga_client-Silent svc url s =
    when_cases (Silent (responses s.trace)) _ _ _ _ refl
      (when_cases (Silent (responses s.trace)) _ _ _ _ refl (client_or_fatal-Silent _ _))

after_check-Silent :
    (svc : Services) (body : ClientCheckRequest) (n : ℕ) (o : Outcome (Result ClientConfiguration))
    → Silent n o
    → Silent n (after (check_with svc body) o)
after_check-Silent svc body n (done r t) h = rw (← h) (check_with-Silent svc body r t)
after_check-Silent svc body n (panic t) h = h
after_check-Silent svc body n (exit t) h = h
after_check-Silent svc body n (unfinished t) h = h

pub fga_check-Silent :
    (svc : Services) (user relation : String) (s : State)
    → Silent (responses s.trace) (fga_check svc user relation s)
unfolding fga_check ◌>>=◌ pure
fga_check-Silent svc user relation s =
    when_cases (Silent (responses s.trace)) _ _ _ s refl
      (after_check-Silent svc _ _ _ (get_fga_client-Silent svc _ s))

open_db-AnsweredUnless :
    (svc : Services) (s : State) → AnsweredUnless (responses s.trace) (open_db svc s)
unfolding open_db missing connect ◌>>=◌ emit pure
open_db-AnsweredUnless svc s =
    let P = AnsweredUnless (responses s.trace) in
    when_cases P _ _ _ s refl (
      when_cases P _ _ _ s refl
        (when_cases P _ _ _ s refl (when_cases P _ _ _ s refl (when_cases P _ _ _ s refl refl))))

pub session_or-AnsweredUnless :
    (svc : Services) (session : Option DbOptions) (s : State)
    → AnsweredUnless (responses s.trace) (session_or session (open_db svc) s)
session_or-AnsweredUnless svc none s = open_db-AnsweredUnless svc s
session_or-AnsweredUnless svc (some db) s = refl

after_db-AnsweredOnce :
    (next : DbOptions → M (Unit {0})) (n : ℕ) (o : Outcome (Option DbOptions))
    → AnsweredUnless n o
    → ((db : DbOptions) (t : State) → AnsweredOnce (responses t.trace) (next db t))
    → AnsweredOnce n (after (with_db next) o)
unfolding with_db pure
after_db-AnsweredOnce next n (done none t) h k = h
after_db-AnsweredOnce next n (done (some db) t) h k = rw (← h) (k db t)
after_db-AnsweredOnce next n (panic t) h k = absurd h
after_db-AnsweredOnce next n (exit t) h k = absurd h
after_db-AnsweredOnce next n (unfinished t) h k = absurd h

list_or_error-AnsweredOnce :
    (r : Result (List Video)) (t : State) → AnsweredOnce (responses t.trace) (list_or_error r t)
unfolding list_or_error run
list_or_error-AnsweredOnce (ok videos) t = refl
list_or_error-AnsweredOnce (err message) t = refl

list_behind-AnsweredOnce :
    (svc : Services) (s : State) → AnsweredOnce (responses s.trace) (list_behind svc s)
unfolding list_behind run
list_behind-AnsweredOnce svc s =
    after_db-AnsweredOnce (list_videos svc) _ _ (session_or-AnsweredUnless svc s.db_session _)
      (λ db t. list_or_error-AnsweredOnce (svc.select t.trace db) _)

after-guarded-AnsweredOnce :
    (rest : M (Unit {0})) (n : ℕ) (o : Outcome (Result Bool))
    → Silent n o
    → ((t : State) → AnsweredOnce (responses t.trace) (rest t))
    → AnsweredOnce n (after (guarded rest) o)
unfolding guarded run
after-guarded-AnsweredOnce rest n (done (ok true) t) h k = rw (← h) (k t)
after-guarded-AnsweredOnce rest n (done (ok false) t) h k = ap suc h
after-guarded-AnsweredOnce rest n (done (err message) t) h k = ap suc h
after-guarded-AnsweredOnce rest n (panic t) h k = h
after-guarded-AnsweredOnce rest n (exit t) h k = h
after-guarded-AnsweredOnce rest n (unfinished t) h k = absurd h

ended-AnsweredOnce : (n : ℕ) (o : Outcome (Unit {0})) → AnsweredOnce n o → AnsweredOnce n (ended o)
ended-AnsweredOnce n (done a t) h = h
ended-AnsweredOnce n (panic t) h = h
ended-AnsweredOnce n (exit t) h = h
ended-AnsweredOnce n (unfinished t) h = h

-- videosGetHandler always ends: it returns after exactly one response, or it panics or the process
-- exits before any response.
pub videos_get_handler-AnsweredOnce :
    (svc : Services) (req : Request) (s : State)
    → AnsweredOnce (responses s.trace) (videos_get_handler svc req s)
unfolding videos_get_handler run
videos_get_handler-AnsweredOnce svc req s = ended-AnsweredOnce _ _ (
    after-guarded-AnsweredOnce (list_behind svc) _ _ (fga_check-Silent svc _ _ _)
      (list_behind-AnsweredOnce svc))
