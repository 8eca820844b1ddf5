-- ===== src/Worker/Errors.antt =====
-- The errors a worker sees: contracts/errors.go, the answers that tc-worker/internal/client/
-- http_client.go turns into errors, and tc-worker/internal/runtime/attempt_errors.go.
pub mod Dropped
use Prim.Native.String
use touch_connect.Prelude.{
  ℕ, ◌+◌, String, Bool, true, false, ◌==◌, ◌!=◌, ◌||◌, nat_eq, ltb, leb, not, ◌&&◌, if◌then◌else◌,
  Option, none, some,
}
use touch_connect.Memory.Refs.{write_digits}
use touch_connect.Api.Answers.{ErrorResponse}

-- APIError, AttemptDrop, and any error that unwraps to neither.
pub data WorkerError : Type 0 where
  api_error : ℕ → ErrorResponse → WorkerError
  attempt_drop : String → ℕ → WorkerError → WorkerError
  failure : String → WorkerError

pub record AttemptDrop : Type 0 where
  pub code : String
  pub status_code : ℕ
  pub err : WorkerError

-- fmt's %d.
unfoldable pub decimal : ℕ → String
decimal n = write_digits (1 + n) 1 n ""

-- What get and post make of an answer outside 200 to 299, by its status and its decoded body.
unfoldable pub answer_error : ℕ → Option ErrorResponse → WorkerError
unfolding decimal write_digits
answer_error status none = api_error status (record {
  code = String.◌++◌ "server_status_" (decimal status);
  message = String.◌++◌ "server returned status " (decimal status);
  quality_decision = none;
})
answer_error status (some response) =
    if response.code != ""
    then api_error status response
    else (api_error status (record {
      code = String.◌++◌ "server_status_" (decimal status);
      message = String.◌++◌ "server returned status " (decimal status);
      quality_decision = none;
    }))

-- The test for an answer that carries a result.
unfoldable pub is_success : ℕ → Bool
is_success status = not (ltb status 200 || leb 300 status)

unfoldable pub recoverable_attempt_status : ℕ → Bool
recoverable_attempt_status status = nat_eq status 401 || nat_eq status 403 || nat_eq status 409

unfoldable pub recoverable_attempt_code : String → Bool
recoverable_attempt_code code =
    code == "lease_expired" || code == "stale_attempt" || code == "message_dead_lettered"

-- `status_text` is http.StatusText.
unfoldable pub recoverable_attempt_drop : (ℕ → String) → WorkerError → Option AttemptDrop
unfolding recoverable_attempt_status recoverable_attempt_code
recoverable_attempt_drop status_text (attempt_drop code status_code err) =
    some (record { code = code; status_code = status_code; err = err })
recoverable_attempt_drop status_text (api_error status response) =
    if recoverable_attempt_status status || recoverable_attempt_code response.code
    then some (record {
      code = if response.code == "" then status_text status else response.code;
      status_code = status;
      err = api_error status response;
    })
    else none
recoverable_attempt_drop status_text (failure text) = none
