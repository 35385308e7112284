-- ===== src/Server/Openfga.antt =====
-- openfga.go: the authorization check that the video handlers make first.
use learning_crossplane_e2e.Prelude.{
  ◌⊕◌, String, ◌∷◌, Bool, true, Option, none, some, is_empty, if◌then◌else◌,
}
use learning_crossplane_e2e.Server.State.{
  when◌then◌else◌, ClientConfiguration, ClientCheckRequest, done, panic, exit, M, pure, ◌>>=◌, ◌>>◌,
  emit, call, Result, ok, err, Services, log, fga_client, fga_request,
}

-- `log.Fatal`: the message is logged and the process exits.
abbrev pub fatal {ℓ} : {A : Type ℓ} → String → M A
fatal message s = exit (record s { trace = log message ∷ s.trace })

-- `*p`, which panics where `p` is nil.
abbrev pub deref {ℓ} : {A : Type ℓ} → Option A → M A
deref none s = panic s
deref (some a) s = done a s

abbrev pub check_request : String → String → ClientCheckRequest
check_request user relation = record {
  user = "user:" ⊕ user;
  relation = relation;
  object = "document:silly-demo";
}

-- What follows `NewSdkClient`: an error of it ends the process.
unfoldable pub client_or_fatal : Result ClientConfiguration → M (Result ClientConfiguration)
client_or_fatal (ok client) = pure (ok client)
client_or_fatal (err message) = fatal message

module _ (svc : Services) where
  unfoldable pub get_fga_client : String → M (Result ClientConfiguration)
  unfolding client_or_fatal
  get_fga_client url =
      let store_id = svc.getenv "FGA_STORE_ID" in
      let model_id = svc.getenv "FGA_MODEL_ID" in
      let configuration : ClientConfiguration = record {
        api_url = url;
        store_id = store_id;
        authorization_model_id = model_id;
      } in
      emit (log "Creating client...")
      >> (when is_empty store_id
          then pure (err "FGA_STORE_ID env. var. is missing")
          else when is_empty model_id
          then pure (err "FGA_MODEL_ID env. var. is missing")
          else call (fga_client configuration) (λ _. svc.new_sdk_client configuration)
            >>= client_or_fatal)

  -- What follows `Execute`: an error is returned, and the answer is `*data.Allowed`.
  unfoldable pub allowed_of : Result (Option Bool) → M (Result Bool)
  allowed_of (err message) = pure (err message)
  allowed_of (ok allowed) = deref allowed >>= λ b. pure (ok b)

  -- What follows `getFgaClient`.
  unfoldable pub check_with : ClientCheckRequest → Result ClientConfiguration → M (Result Bool)
  unfolding allowed_of
  check_with body (err message) = pure (err message)
  check_with body (ok client) =
      call (fga_request body) (λ past. svc.check past client body) >>= allowed_of

  unfoldable pub fga_check : String → String → M (Result Bool)
  unfolding get_fga_client check_with
  fga_check user relation =
      let fga_url = svc.getenv "FGA_API_URL" in
      when is_empty fga_url
      then pure (ok true)
      else get_fga_client fga_url >>= check_with (check_request user relation)
