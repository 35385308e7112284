-- ===== src/Server/Errors.antt =====
-- The helpers of main.go that turn an error into a response.
use learning_crossplane_e2e.Prelude.{ℕ, String}
use learning_crossplane_e2e.Server.State.{
  M, ◌>>◌, emit, span_error, span_status_error, log, text_response,
}

abbrev pub status_ok : ℕ
status_ok = 200

abbrev pub status_bad_request : ℕ
status_bad_request = 400

abbrev pub status_unauthorized : ℕ
status_unauthorized = 401

abbrev pub status_internal_server_error : ℕ
status_internal_server_error = 500

unfoldable pub http_error : String → ℕ → M (Unit {0})
http_error err status = do
  emit (log err)
  emit (span_error err)
  emit (span_status_error err)
  emit (text_response status err)

unfoldable pub http_error_bad_request : String → M (Unit {0})
unfolding http_error
http_error_bad_request err = http_error err status_bad_request

unfoldable pub http_error_internal_server_error : String → M (Unit {0})
unfolding http_error
http_error_internal_server_error err = http_error err status_internal_server_error

unfoldable pub http_status_unauthorized : String → M (Unit {0})
unfolding http_error
http_status_unauthorized err = http_error err status_unauthorized
