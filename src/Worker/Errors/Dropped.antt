-- ===== src/Worker/Errors/Dropped.antt =====
-- The server's errors as the worker meets them: handler.go's answer, through http_client.go, to
-- recoverableAttemptDrop.
use touch_connect.Prelude.{
  ℕ, String, Bool, true, false, if◌then◌else◌, Option, none, some, ◌≡◌, refl, ap, ◌∙◌,
}
use touch_connect.Domain.Errors.{Error, delivery_failed, joined}
use touch_connect.Service.ErrorText.{error_text}
use touch_connect.Api.Answers.{ErrorResponse, is_conflict_error, write_failure}
use touch_connect.Worker.Errors.{
  WorkerError, AttemptDrop, answer_error, is_success, recoverable_attempt_drop,
}

-- An error of the domain or of the quality gate: nothing is joined, and nothing comes from the
-- delivery adapter.
unfoldable pub is_plain : Error → Bool
is_plain (joined e f) = false
is_plain (delivery_failed text) = false
is_plain e = true

-- JSON on the wire: json.NewEncoder, and json.NewDecoder where it succeeds.
pub record ErrorCodec : Type 1 where
  pub Body : Type 0
  pub encode : ErrorResponse → Body
  pub decode : Body → Option ErrorResponse
  pub decode-encode : (r : ErrorResponse) → decode (encode r) ≡ some r

module _ (codec : ErrorCodec) (status_text : ℕ → String) where
  -- What the worker's client returns when the server answers with the error.
  abbrev pub seen_by_worker : Error → WorkerError
  seen_by_worker e =
      let (status, response) = write_failure e in
      answer_error status (codec.decode (codec.encode response))

  abbrev pub drops : Error → Option AttemptDrop
  drops e = recoverable_attempt_drop status_text (seen_by_worker e)

  answer_seen :
      (e : Error) → seen_by_worker e ≡ answer_error (write_failure e).0 (some (write_failure e).1)
  answer_seen e = ap (answer_error (write_failure e).0) (codec.decode-encode (write_failure e).1)

  -- The drop that the worker makes of a conflict.
  abbrev pub conflict_drop : Error → AttemptDrop
  conflict_drop e = record {
    code = error_text e;
    status_code = 409;
    err = answer_error 409 (some (write_failure e).1);
  }

  plain_answer :
      (e : Error)
      → is_plain e ≡ true
      → (is_success (write_failure e).0 ≡ false)
        × (recoverable_attempt_drop status_text
              (answer_error (write_failure e).0 (some (write_failure e).1))
            ≡ (if is_conflict_error e then some (conflict_drop e) else none))
  unfolding is_plain is_success write_failure answer_error recoverable_attempt_drop
  plain_answer (joined e f) h = cc
  plain_answer (delivery_failed text) h = cc
  plain_answer e h = (refl, refl)

  -- The answer to an error of the domain is no success for the worker's client, and the worker drops
  -- its attempt exactly for the conflicts, with the error's code and status 409; any other error is
  -- not recovered from.
  pub drops-conflict :
      (e : Error)
      → is_plain e ≡ true
      → (is_success (write_failure e).0 ≡ false)
        × (drops e ≡ (if is_conflict_error e then some (conflict_drop e) else none))
  drops-conflict e h = (
    (plain_answer e h).0,
    ap (recoverable_attempt_drop status_text) (answer_seen e) ∙ (plain_answer e h).1,
  )
