-- ===== src/Server/Authorization/Check.antt =====
-- fgaCheck of openfga.go, and the video handlers that run behind it.
use learning_crossplane_e2e.Prelude.{
  String, Bool, true, false, Option, none, some, List, ◌≡◌, refl, is_empty, inl, inr, Bool-cases,
}
use learning_crossplane_e2e.Server.State.{
  State, Event, Outcome, done, panic, exit, unfinished, ClientConfiguration, ClientCheckRequest,
  Services, Request, Result, ok, err, M, ◌>>=◌, ◌>>◌, after, run, log, emit, span_event, with_span,
  record_event, span_start, fga_request, ended,
}
use learning_crossplane_e2e.Server.Relate.{Relates, Ensures}
use learning_crossplane_e2e.Server.Parts.{
  IsKept, seq, emit-Keeps, get_db-Keeps, with_db-Keeps, list_videos-Keeps, insert_video-Keeps,
}
use learning_crossplane_e2e.Server.Openfga.{
  client_or_fatal, check_request, get_fga_client, allowed_of, check_with, fga_check,
}
use learning_crossplane_e2e.Server.Videos.{
  guarded, list_behind, insert_behind, videos_get_handler, video_post_handler,
}
use learning_crossplane_e2e.Server.Authorization.{
  Extends, here, next, Extends-Grows, IsGranted, unchecked, answered, Grows, same, other, granted,
  Grows-trans, StateGrows, GrowsBehind, GrowsBehind-trans, is_db_event,
}

module _ (svc : Services) (body : ClientCheckRequest) (base : List Event) where
  -- Behind a grant every event may happen.
  behind : IsKept (GrowsBehind svc body base)
  behind = record {
    same = λ s h. same;
    trans = GrowsBehind-trans svc body base;
    event = λ e s p h. granted e h same;
  }

  -- What fgaCheck leaves: a trace with no database event, and on "allowed" a grant.
  abbrev IsChecked : State → Outcome (Result Bool) → Type 0
  IsChecked s (done (ok true) t) =
      Grows svc body base s.trace t.trace × IsGranted svc body base t.trace
  IsChecked s (done (ok false) t) = Grows svc body base s.trace t.trace
  IsChecked s (done (err message) t) = Grows svc body base s.trace t.trace
  IsChecked s (panic t) = Grows svc body base s.trace t.trace
  IsChecked s (exit t) = Grows svc body base s.trace t.trace
  IsChecked s (unfinished t) = Grows svc body base s.trace t.trace

  IsChecked-trans :
      (s t : State) (o : Outcome (Result Bool))
      → Grows svc body base s.trace t.trace
      → IsChecked t o
      → IsChecked s o
  IsChecked-trans s t (done (ok true) u) g (k, h) = (Grows-trans svc body base g k, h)
  IsChecked-trans s t (done (ok false) u) g k = Grows-trans svc body base g k
  IsChecked-trans s t (done (err message) u) g k = Grows-trans svc body base g k
  IsChecked-trans s t (panic u) g k = Grows-trans svc body base g k
  IsChecked-trans s t (exit u) g k = Grows-trans svc body base g k
  IsChecked-trans s t (unfinished u) g k = Grows-trans svc body base g k

  answer-IsChecked :
      (client : ClientConfiguration) (s : State) (r : Result (Option Bool))
      → Extends base s.trace
      → svc.check s.trace client body ≡ r
      → IsChecked s (allowed_of svc r (record_event (fga_request body) s))
  unfolding allowed_of run
  answer-IsChecked client s (ok (some true)) x e = (other _ refl same, answered client x e)
  answer-IsChecked client s (ok (some false)) x e = other _ refl same
  answer-IsChecked client s (ok none) x e = other _ refl same
  answer-IsChecked client s (err message) x e = other _ refl same

  check_with-IsChecked :
      (r : Result ClientConfiguration) (s : State)
      → Extends base s.trace
      → IsChecked s (check_with svc body r s)
  unfolding check_with run
  check_with-IsChecked (ok client) s x =
      answer-IsChecked client s (svc.check s.trace client body) x refl
  check_with-IsChecked (err message) s x = same

  after-IsChecked :
      (s : State) (o : Outcome (Result ClientConfiguration))
      → Extends base s.trace
      → Relates (StateGrows svc body base) (StateGrows svc body base) s o
      → IsChecked s (after (check_with svc body) o)
  after-IsChecked s (done r t) x g =
      IsChecked-trans s t _ g (check_with-IsChecked r t (Extends-Grows svc body base x g))
  after-IsChecked s (panic t) x g = g
  after-IsChecked s (exit t) x g = g
  after-IsChecked s (unfinished t) x g = g

  client_or_fatal-Grows :
      (e : Event) (r : Result ClientConfiguration) (s : State)
      → is_db_event e ≡ false
      → Relates
          (StateGrows svc body base)
          (StateGrows svc body base)
          s
          (client_or_fatal r (record_event e s))
  unfolding client_or_fatal run
  client_or_fatal-Grows e (ok client) s h = other e h same
  client_or_fatal-Grows e (err message) s h = other _ refl (other e h same)

  Relates-plain :
      (e : Event) (s : State) (o : Outcome (Result ClientConfiguration))
      → is_db_event e ≡ false
      → Relates (StateGrows svc body base) (StateGrows svc body base) (record_event e s) o
      → Relates (StateGrows svc body base) (StateGrows svc body base) s o
  Relates-plain e s (done a t) h g = Grows-trans svc body base (other _ h same) g
  Relates-plain e s (panic t) h g = Grows-trans svc body base (other _ h same) g
  Relates-plain e s (exit t) h g = Grows-trans svc body base (other _ h same) g
  Relates-plain e s (unfinished t) h g = Grows-trans svc body base (other _ h same) g

  get_fga_client-Grows :
      (url : String) (s : State)
      → Relates (StateGrows svc body base) (StateGrows svc body base) s (get_fga_client svc url s)
  unfolding get_fga_client run
  get_fga_client-Grows url s = elim (Bool-cases (is_empty (svc.getenv "FGA_STORE_ID"))) [
    | inl missing ↦ rw missing (other _ refl same)
    | inr store ↦ elim (Bool-cases (is_empty (svc.getenv "FGA_MODEL_ID"))) [
      | inl missing ↦ rw (store, missing) (other _ refl same)
      | inr model ↦
          rw (store, model)
            (Relates-plain (log "Creating client...") s _ refl
              (client_or_fatal-Grows _ (svc.new_sdk_client _) (record_event _ s) refl))
    ]
  ]

module _ (svc : Services) (user relation : String) (base : List Event) where
  abbrev asked : ClientCheckRequest
  asked = check_request user relation

  pub fga_check-IsChecked :
      (s : State)
      → Extends base s.trace
      → IsChecked svc asked base s (fga_check svc user relation s)
  unfolding fga_check run
  fga_check-IsChecked s x = elim (Bool-cases (is_empty (svc.getenv "FGA_API_URL"))) [
    | inl unset ↦ rw unset (same, unchecked unset)
    | inr closed ↦
        rw closed (after-IsChecked svc asked base s _ x (get_fga_client-Grows svc asked base _ s))
  ]

  -- What is kept behind a grant is kept outright from a state with one.
  Relates-granted {ℓ} :
      {A : Type ℓ} (s t : State) (o : Outcome A)
      → Grows svc asked base s.trace t.trace
      → IsGranted svc asked base t.trace
      → Relates (GrowsBehind svc asked base) (GrowsBehind svc asked base) t o
      → Relates (StateGrows svc asked base) (StateGrows svc asked base) s o
  Relates-granted s t (done a u) g h k = Grows-trans svc asked base g (k h)
  Relates-granted s t (panic u) g h k = Grows-trans svc asked base g (k h)
  Relates-granted s t (exit u) g h k = Grows-trans svc asked base g (k h)
  Relates-granted s t (unfinished u) g h k = Grows-trans svc asked base g (k h)

  after-guarded-Grows :
      (rest : M (Unit {0})) (s : State) (o : Outcome (Result Bool))
      → IsChecked svc asked base s o
      → Ensures (GrowsBehind svc asked base) (GrowsBehind svc asked base) rest
      → Relates (StateGrows svc asked base) (StateGrows svc asked base) s (after (guarded rest) o)
  unfolding guarded run
  after-guarded-Grows rest s (done (ok true) t) (g, h) k =
      Relates-granted s t (rest t) g h (k.holds t)
  after-guarded-Grows rest s (done (ok false) t) g k =
      other _ refl (other _ refl (other _ refl (other _ refl g)))
  after-guarded-Grows rest s (done (err message) t) g k =
      other _ refl (other _ refl (other _ refl (other _ refl g)))
  after-guarded-Grows rest s (panic t) g k = g
  after-guarded-Grows rest s (exit t) g k = g
  after-guarded-Grows rest s (unfinished t) g k = g

  ended-Grows {ℓ} :
      {A : Type ℓ} (s : State) (o : Outcome A)
      → Relates (StateGrows svc asked base) (StateGrows svc asked base) s o
      → Relates (StateGrows svc asked base) (StateGrows svc asked base) s (ended o)
  ended-Grows s (done a t) g = other _ refl g
  ended-Grows s (panic t) g = other _ refl g
  ended-Grows s (exit t) g = g
  ended-Grows s (unfinished t) g = g

  -- A handler in its span: an event, the check, and `rest` behind it.
  span_check-Grows :
      (name message : String) (rest : M (Unit {0})) (s : State)
      → Extends base s.trace
      → Ensures (GrowsBehind svc asked base) (GrowsBehind svc asked base) rest
      → Relates (StateGrows svc asked base) (StateGrows svc asked base) s (
          with_span name
            (do
              emit (span_event message)
              allowed ← fga_check svc user relation
              guarded rest allowed)
            s)
  unfolding run
  span_check-Grows name message rest s x k =
      let t = record_event (span_event message) (record_event (span_start name) s) in
      ended-Grows s _ (
        after-guarded-Grows rest s (fga_check svc user relation t)
          (IsChecked-trans svc asked base s t _ (other _ refl (other _ refl same))
            (fga_check-IsChecked t (next _ (next _ x))))
          k)

-- Each use of the database by a run from `s` comes after a grant of `body` in that run.
abbrev pub GrantsFirst {ℓ} :
    {A : Type ℓ} → Services → ClientCheckRequest → State → Outcome A → Type 0
GrantsFirst svc body s o = Relates (StateGrows svc body s.trace) (StateGrows svc body s.trace) s o

-- In every run of videosGetHandler, to its end, to a panic or to an exit, each use of the
-- database comes after the run was granted "reader" for the user of the request, or no
-- authorization server is configured.
pub videos_get_handler-GrantsFirst :
    (svc : Services) (req : Request) (s : State)
    → GrantsFirst svc (check_request (req.query "user") "reader") s (videos_get_handler svc req s)
unfolding videos_get_handler list_behind
videos_get_handler-GrantsFirst svc req s =
    let k = behind svc (check_request (req.query "user") "reader") s.trace in
    span_check-Grows svc _ "reader" s.trace "video-get" "Authorizing the user" (list_behind svc) s
      here
      (seq _ k (emit-Keeps _ k _ refl)
        λ _. seq _ k (get_db-Keeps _ k svc) λ db. with_db-Keeps _ k db (list_videos-Keeps _ k svc))

-- In every run of videoPostHandler, to its end, to a panic or to an exit, each use of the
-- database comes after the run was granted "writer" for the user of the request, or no
-- authorization server is configured.
pub video_post_handler-GrantsFirst :
    (svc : Services) (req : Request) (s : State)
    → GrantsFirst svc (check_request (req.query "user") "writer") s (video_post_handler svc req s)
unfolding video_post_handler insert_behind
video_post_handler-GrantsFirst svc req s =
    let k = behind svc (check_request (req.query "user") "writer") s.trace in
    span_check-Grows svc _ "writer" s.trace "video-post" "Authorizing the user"
      (insert_behind svc req) s here
      (seq _ k (emit-Keeps _ k _ refl) λ _.
        seq _ k (get_db-Keeps _ k svc) λ db. with_db-Keeps _ k db (insert_video-Keeps _ k svc req))
