-- ===== src/Server/Concurrent/Authorization.antt =====
-- fgaCheck of openfga.go before the database, among the events of other requests.
use learning_crossplane_e2e.Prelude.{
  ℕ, String, Bool, true, false, some, List, [], ◌∷◌, ◌++◌, ◌≡◌, refl, ap, sym, subst, ◌∙◌, ◌&&◌,
  ◌==◌, is_empty, if◌then◌else◌,
}
use learning_crossplane_e2e.Server.State.{
  Event, Services, Request, ClientConfiguration, ClientCheckRequest, ok, fga_request,
}
use learning_crossplane_e2e.Server.Openfga.{check_request}
use learning_crossplane_e2e.Server.Serving.{initial, Handler, video_post, videos_get, handle}
use learning_crossplane_e2e.Server.Authorization.{
  is_db_event, IsGranted, unchecked, answered, earlier, Grows, other, granted,
}
use learning_crossplane_e2e.Server.Authorization.Check.{
  GrantsFirst, videos_get_handler-GrantsFirst, video_post_handler-GrantsFirst,
}
use learning_crossplane_e2e.Server.Concurrent.{History, all, local, count, moment, view, Ran}
use learning_crossplane_e2e.Server.Concurrent.Moments.{moment-here, append_assoc}

module _ (svc : Services) (i : ℕ) (body : ClientCheckRequest) where
  -- No check is configured, or the server answered `body` with "allowed" when request `i` asked.
  pub data IsAllowed : History → Type 0 where
    no_check : {past : History} → is_empty (svc.getenv "FGA_API_URL") ≡ true → IsAllowed past
    allowed :
        {past : History} (k : ℕ) (client : ClientConfiguration)
        → (k == i) ≡ true
        → svc.check (all past) client body ≡ ok (some true)
        → IsAllowed ((k, fga_request body) ∷ past)
    before : {past : History} (p : ℕ × Event) → IsAllowed past → IsAllowed (p ∷ past)

  -- Request `i` uses the database only after it was allowed.
  pub data AllowedFirst : History → Type 0 where
    start : AllowedFirst []
    harmless :
        {past : History} (p : ℕ × Event)
        → ((p.0 == i) && is_db_event p.1) ≡ false
        → AllowedFirst past
        → AllowedFirst (p ∷ past)
    behind :
        {past : History} (p : ℕ × Event)
        → IsAllowed past
        → AllowedFirst past
        → AllowedFirst (p ∷ past)

module _ (svc : Services) (i : ℕ) (body : ClientCheckRequest) (history : History) where
  abbrev seen : Services
  seen = view svc history i

  own-IsAllowed :
      (k : ℕ) (e : Event) (mine : List Event) (past : History)
      → (k == i) ≡ true
      → ((client : ClientConfiguration)
          → seen.check mine client body ≡ svc.check (all past) client body)
      → (IsGranted seen body [] mine → IsAllowed svc i body past)
      → IsGranted seen body [] (e ∷ mine)
      → IsAllowed svc i body ((k, e) ∷ past)
  own-IsAllowed k e mine past own agree rest (unchecked u) = no_check u
  own-IsAllowed k _ mine past own agree rest (answered client x a) =
      allowed k client own (sym (agree client) ∙ a)
  own-IsAllowed k e mine past own agree rest (earlier _ h) = before (k, e) (rest h)

  event-IsAllowed :
      (own : Bool) (k : ℕ) (e : Event) (mine : List Event) (past : History)
      → (k == i) ≡ own
      → (own ≡ true
          → (client : ClientConfiguration)
          → seen.check mine client body ≡ svc.check (all past) client body)
      → (IsGranted seen body [] mine → IsAllowed svc i body past)
      → IsGranted seen body [] (if own then e ∷ mine else mine)
      → IsAllowed svc i body ((k, e) ∷ past)
  event-IsAllowed true k e mine past own agree rest h =
      own-IsAllowed k e mine past own (agree refl) rest h
  event-IsAllowed false k e mine past own agree rest h = before (k, e) (rest h)

  local-IsAllowed :
      (newer older : History)
      → history ≡ newer ++ older
      → IsGranted seen body [] (local i older)
      → IsAllowed svc i body older
  local-IsAllowed newer [] split (unchecked u) = no_check u
  local-IsAllowed newer ((k, e) ∷ past) split h =
      event-IsAllowed (k == i) k e (local i past) past refl
        (λ own client.
          ap (λ h. svc.check (all h) client body)
            (ap (moment i (count (local i past))) split ∙ moment-here i k newer past e own))
        (local-IsAllowed (newer ++ (k, e) ∷ []) past (split ∙ append_assoc (k, e) newer past)) h

  own-AllowedFirst :
      (k : ℕ) (e : Event) (mine : List Event) (past : History)
      → (k == i) ≡ true
      → (IsGranted seen body [] mine → IsAllowed svc i body past)
      → (Grows seen body [] [] mine → AllowedFirst svc i body past)
      → Grows seen body [] [] (e ∷ mine)
      → AllowedFirst svc i body ((k, e) ∷ past)
  own-AllowedFirst k e mine past own grants rest (other _ p g) =
      harmless (k, e) (rw (own, p)) (rest g)
  own-AllowedFirst k e mine past own grants rest (granted _ h g) = behind (k, e) (grants h) (rest g)

  event-AllowedFirst :
      (own : Bool) (k : ℕ) (e : Event) (mine : List Event) (past : History)
      → (k == i) ≡ own
      → (IsGranted seen body [] mine → IsAllowed svc i body past)
      → (Grows seen body [] [] mine → AllowedFirst svc i body past)
      → Grows seen body [] [] (if own then e ∷ mine else mine)
      → AllowedFirst svc i body ((k, e) ∷ past)
  event-AllowedFirst true k e mine past own grants rest g =
      own-AllowedFirst k e mine past own grants rest g
  event-AllowedFirst false k e mine past own grants rest g = harmless (k, e) (rw own) (rest g)

  local-AllowedFirst :
      (newer older : History)
      → history ≡ newer ++ older
      → Grows seen body [] [] (local i older)
      → AllowedFirst svc i body older
  local-AllowedFirst newer [] split g = start
  local-AllowedFirst newer ((k, e) ∷ past) split g =
      let split_next = split ∙ append_assoc (k, e) newer past in
      event-AllowedFirst (k == i) k e (local i past) past refl
        (local-IsAllowed (newer ++ (k, e) ∷ []) past split_next)
        (local-AllowedFirst (newer ++ (k, e) ∷ []) past split_next) g

-- What the two handlers of video.go ask for.
pub data Asks : Handler → String → Type 0 where
  reading : Asks videos_get "reader"
  writing : Asks video_post "writer"

asked-GrantsFirst :
    (svc : Services) (h : Handler) (relation : String) (req : Request)
    → Asks h relation
    → GrantsFirst svc (check_request (req.query "user") relation) initial (handle svc h req initial)
unfolding handle
asked-GrantsFirst svc _ _ req reading = videos_get_handler-GrantsFirst svc req initial
asked-GrantsFirst svc _ _ req writing = video_post_handler-GrantsFirst svc req initial

-- While the server serves any requests at the same time: a request of /videos or /video that ran to
-- its end used the database only after the authorization server had answered, when this request
-- asked, that its user may read or write, or no authorization server is configured.
pub Ran-AllowedFirst :
    (svc : Services) (history : History) (i : ℕ) (h : Handler) (relation : String) (req : Request)
    → Asks h relation
    → Ran svc history i h req
    → AllowedFirst svc i (check_request (req.query "user") relation) history
Ran-AllowedFirst svc history i h relation req asks ran =
    let body = check_request (req.query "user") relation in
    let grows =
      subst (GrantsFirst (view svc history i) body initial) ran.returns
        (asked-GrantsFirst (view svc history i) h relation req asks) in
    local-AllowedFirst svc i body history [] history refl
      (subst (Grows (view svc history i) body [] []) (sym ran.events) grows)
