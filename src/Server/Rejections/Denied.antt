-- ===== src/Server/Rejections/Denied.antt =====
-- What follows fgaCheck in the handlers of video.go, where it lets the user in and where it does not.
use learning_crossplane_e2e.Prelude.{ℕ, String, Bool, false, List, ◌∷◌, ◌≡◌, refl, ap, ◌∙◌}
use learning_crossplane_e2e.Server.State.{
  State, Event, Services, Outcome, done, Result, ok, err, M, run, ended, after, record_event,
  span_end, log, text_response,
}
use learning_crossplane_e2e.Server.Errors.{
  http_error, http_error_internal_server_error, http_status_unauthorized, status_unauthorized,
  status_internal_server_error,
}
use learning_crossplane_e2e.Server.Openfga.{check_request, fga_check}
use learning_crossplane_e2e.Server.Videos.{guarded}
use learning_crossplane_e2e.Server.Catalog.{visible}
use learning_crossplane_e2e.Server.Catalog.Allowed.{asked_state, Passes}
use learning_crossplane_e2e.Server.Rejections.{
  Adds, Refusal, store_missing, model_missing, check_failed, denied,
}

-- What fgaCheck returns for a user who is not let in.
pub data IsNo : Result Bool → ℕ → String → Type 0 where
  no : IsNo (ok false) status_unauthorized "not allowed"
  failed : (message : String) → IsNo (err message) status_internal_server_error message

-- The check returns, and nothing of it can be seen.
pub record Checks (answer : Result Bool) (s : State) (o : Outcome (Result Bool)) : Type 0 where
  pub final : State
  pub returns : o ≡ done answer final
  pub session : final.db_session ≡ s.db_session
  pub unseen : visible final.trace ≡ visible s.trace

-- A check that returns a no.
pub record Refuses (status : ℕ) (message : String) (s : State) (o : Outcome (Result Bool))
    : Type 0 where
  pub answer : Result Bool
  pub checks : Checks answer s o
  pub is_no : IsNo answer status message

pub fga_check-Refuses :
    (svc : Services) (user relation : String) (s : State) (status : ℕ) (message : String)
    → Refusal svc (check_request user relation) status message
    → Refuses status message s (fga_check svc user relation s)
unfolding fga_check run
fga_check-Refuses svc user relation s _ _ (store_missing url store) = record {
  answer = _;
  checks = record {
    final = record_event (log "Creating client...") s;
    returns = rw (url, store);
    session = refl;
    unseen = refl;
  };
  is_no = failed _;
}
fga_check-Refuses svc user relation s _ _ (model_missing url store model) = record {
  answer = _;
  checks = record {
    final = record_event (log "Creating client...") s;
    returns = rw (url, store, model);
    session = refl;
    unseen = refl;
  };
  is_no = failed _;
}
fga_check-Refuses svc user relation s _ message (check_failed client _ url store model made fails) =
    record {
      answer = err message;
      checks = record {
        final = asked_state svc user relation s;
        returns = rw (url, store, model, made, fails);
        session = refl;
        unseen = refl;
      };
      is_no = failed message;
    }
fga_check-Refuses svc user relation s _ _ (denied client url store model made denies) = record {
  answer = ok false;
  checks = record {
    final = asked_state svc user relation s;
    returns = rw (url, store, model, made, denies);
    session = refl;
    unseen = refl;
  };
  is_no = no;
}

answer_no :
    (next : M (Unit {0})) (t : State) (answer : Result Bool) (status : ℕ) (message : String)
    → IsNo answer status message
    → Adds (text_response status message) (visible t.trace) (ended (guarded next answer t))
unfolding guarded http_status_unauthorized http_error_internal_server_error http_error run
answer_no next t _ _ _ no = record { final = _; returns = refl; added = refl }
answer_no next t _ _ _ (failed message) = record { final = _; returns = refl; added = refl }

pub refused-Adds :
    (next : M (Unit {0})) (s : State) (o : Outcome (Result Bool)) (status : ℕ) (message : String)
    → Refuses status message s o
    → Adds (text_response status message) (visible s.trace) (ended (after (guarded next) o))
refused-Adds next s o status message r =
    let inner = answer_no next r.checks.final r.answer status message r.is_no in
    record {
      final = inner.final;
      returns = ap (λ o. ended (after (guarded next) o)) r.checks.returns ∙ inner.returns;
      added = inner.added ∙ ap (λ l. text_response status message ∷ l) r.checks.unseen;
    }

-- What follows a check that lets the user in.
pub passed-Adds :
    (svc : Services) (next : M (Unit {0})) (event : Event) (above : List Event → List Event)
    (s : State) (o : Outcome (Result Bool))
    → Passes svc s o
    → ((t : State) → t.db_session ≡ s.db_session → Adds event (above (visible t.trace)) (next t))
    → Adds event (above (visible s.trace)) (ended (after (guarded next) o))
unfolding guarded
passed-Adds svc next event above s o c adds =
    let inner = adds c.final c.session in
    record {
      final = record_event span_end inner.final;
      returns = ap (λ o. ended (after (guarded next) o)) c.returns ∙ ap ended inner.returns;
      added = inner.added ∙ ap (λ l. event ∷ above l) c.unseen;
    }
