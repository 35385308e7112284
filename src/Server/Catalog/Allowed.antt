-- ===== src/Server/Catalog/Allowed.antt =====
-- fgaCheck of openfga.go for a user whom the authorization server allows.
use learning_crossplane_e2e.Prelude.{String, Bool, true, ◌≡◌, refl}
use learning_crossplane_e2e.Server.State.{
  State, Video, DbOptions, Services, Outcome, done, ok, run, record_event, Result, log, fga_client,
  fga_request,
}
use learning_crossplane_e2e.Server.Openfga.{check_request, fga_check}
use learning_crossplane_e2e.Server.Catalog.{
  visible, Accepted, later, Allows, unchecked, asked, configuration_of,
}

-- The state in which the check returns.
abbrev pub asked_state : Services → String → String → State → State
asked_state svc user relation s =
    record_event (fga_request (check_request user relation))
      (record_event (fga_client (configuration_of svc)) (record_event (log "Creating client...") s))

-- The user is allowed; the session is left alone, and so is what can be seen and what the database
-- has accepted.
pub record Passes (svc : Services) (s : State) (o : Outcome (Result Bool)) : Type 0 where
  pub final : State
  pub returns : o ≡ done (ok true) final
  pub session : final.db_session ≡ s.db_session
  pub unseen : visible final.trace ≡ visible s.trace
  pub kept :
      (db : DbOptions) (v : Video) → Accepted svc db v s.trace → Accepted svc db v final.trace

pub fga_check-Passes :
    (svc : Services) (user relation : String) (s : State)
    → Allows svc (check_request user relation)
    → Passes svc s (fga_check svc user relation s)
unfolding fga_check run
fga_check-Passes svc user relation s (unchecked e) = record {
  final = s;
  returns = rw e;
  session = refl;
  unseen = refl;
  kept = λ db v a. a;
}
fga_check-Passes svc user relation s (asked client url store model made allowed) = record {
  final = asked_state svc user relation s;
  returns = rw (url, store, model, made, allowed);
  session = refl;
  unseen = refl;
  kept = λ db v a. later _ (later _ (later _ a));
}
