-- ===== src/Server/Authorization.antt =====
-- Whether a trace shows that the user was authorized before the database was used.
pub mod Check
use learning_crossplane_e2e.Prelude.{
  String, Bool, true, false, Option, some, List, ◌∷◌, ◌≡◌, is_empty,
}
use learning_crossplane_e2e.Server.State.{
  Event, State, ClientConfiguration, ClientCheckRequest, Services, ok, fga_request, db_connect,
  db_add_query_hook, db_select, db_insert,
}

abbrev pub is_db_event : Event → Bool
is_db_event (db_connect _) = true
is_db_event (db_add_query_hook _) = true
is_db_event (db_select _) = true
is_db_event (db_insert _ _) = true
is_db_event _ = false

-- `now` is `base` with newer events on top.
pub data Extends (base : List Event) : List Event → Type 0 where
  here : Extends base base
  next : {now : List Event} (e : Event) → Extends base now → Extends base (e ∷ now)

module _ (svc : Services) (body : ClientCheckRequest) (base : List Event) where
  -- No check is configured, or since `base` the server answered `body` with "allowed".
  pub data IsGranted : List Event → Type 0 where
    unchecked : {past : List Event} → is_empty (svc.getenv "FGA_API_URL") ≡ true → IsGranted past
    answered :
        {past : List Event} (client : ClientConfiguration)
        → Extends base past
        → svc.check past client body ≡ ok (some true)
        → IsGranted (fga_request body ∷ past)
    earlier : {past : List Event} (e : Event) → IsGranted past → IsGranted (e ∷ past)

  -- `Grows past now`: `now` extends `past`, and each database event in between came after a grant.
  pub data Grows (past : List Event) : List Event → Type 0 where
    same : Grows past past
    other :
        {now : List Event} (e : Event)
        → is_db_event e ≡ false
        → Grows past now
        → Grows past (e ∷ now)
    granted : {now : List Event} (e : Event) → IsGranted now → Grows past now → Grows past (e ∷ now)

  pub Grows-IsGranted : {past now : List Event} → IsGranted past → Grows past now → IsGranted now
  Grows-IsGranted h same = h
  Grows-IsGranted h (other e _ g) = earlier e (Grows-IsGranted h g)
  Grows-IsGranted h (granted e _ g) = earlier e (Grows-IsGranted h g)

  pub Extends-Grows :
      {past now : List Event} → Extends base past → Grows past now → Extends base now
  Extends-Grows x same = x
  Extends-Grows x (other e _ g) = next e (Extends-Grows x g)
  Extends-Grows x (granted e _ g) = next e (Extends-Grows x g)

  pub Grows-trans :
      {past now later : List Event} → Grows past now → Grows now later → Grows past later
  Grows-trans g same = g
  Grows-trans g (other e p k) = other e p (Grows-trans g k)
  Grows-trans g (granted e p k) = granted e p (Grows-trans g k)

  abbrev pub StateGrows : State → State → Type 0
  StateGrows s t = Grows s.trace t.trace

  -- The relation of a computation that runs behind the check.
  abbrev pub GrowsBehind : State → State → Type 0
  GrowsBehind s t = IsGranted s.trace → Grows s.trace t.trace

  pub GrowsBehind-trans : (s t u : State) → GrowsBehind s t → GrowsBehind t u → GrowsBehind s u
  GrowsBehind-trans s t u g k h = Grows-trans (g h) (k (Grows-IsGranted h (g h)))
