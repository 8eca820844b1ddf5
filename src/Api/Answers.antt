-- ===== src/Api/Answers.antt =====
-- writeResult and writeError of handler.go: the status and the body of an answer that is an error.
use touch_connect.Prelude.{ℕ, String, Bool, true, false, ◌||◌, if◌then◌else◌, Option, none, some}
use touch_connect.Contracts.Policy.{QualityDecision}
use touch_connect.Domain.Errors.{
  Error, endpoint_already_online, endpoint_not_found, capability_not_found, message_not_found,
  message_unavailable, attempt_not_found, stale_attempt, endpoint_stale, lease_expired,
  message_dead_lettered, artifact_not_found, artifact_exists, approval_not_found, approval_required,
  approval_rejected, approval_expired, approval_hash_mismatch, self_approval, side_effect_not_found,
  side_effect_conflict, quality_rejected, joined,
}
use touch_connect.Service.ErrorText.{error_text}

pub record ErrorResponse : Type 0 where
  pub code : String
  pub message : String
  pub quality_decision : Option QualityDecision

-- errors.Is looks into both sides of errors.Join.
unfoldable pub is_not_found_error : Error → Bool
is_not_found_error endpoint_not_found = true
is_not_found_error capability_not_found = true
is_not_found_error message_not_found = true
is_not_found_error attempt_not_found = true
is_not_found_error artifact_not_found = true
is_not_found_error approval_not_found = true
is_not_found_error side_effect_not_found = true
is_not_found_error (joined e f) = is_not_found_error e || is_not_found_error f
is_not_found_error e = false

unfoldable pub is_conflict_error : Error → Bool
is_conflict_error message_unavailable = true
is_conflict_error endpoint_already_online = true
is_conflict_error stale_attempt = true
is_conflict_error endpoint_stale = true
is_conflict_error lease_expired = true
is_conflict_error message_dead_lettered = true
is_conflict_error artifact_exists = true
is_conflict_error approval_required = true
is_conflict_error approval_rejected = true
is_conflict_error approval_expired = true
is_conflict_error approval_hash_mismatch = true
is_conflict_error self_approval = true
is_conflict_error side_effect_conflict = true
is_conflict_error (joined e f) = is_conflict_error e || is_conflict_error f
is_conflict_error e = false

-- errors.As(err, &qualityRejected): the first one, depth first.
unfoldable pub as_quality_rejected : Error → Option QualityDecision
as_quality_rejected (quality_rejected decision) = some decision
as_quality_rejected (joined e f) = elim (as_quality_rejected e) [
  | none ↦ as_quality_rejected f
  | some decision ↦ some decision
]
as_quality_rejected e = none

-- The status and the response.
abbrev pub Answer : Type 0
Answer = ℕ × ErrorResponse

unfoldable pub write_error : ℕ → String → String → Answer
write_error status code message =
    (status, record { code = code; message = message; quality_decision = none })

-- writeResult, where err is not nil.
unfoldable pub write_failure : Error → Answer
unfolding is_not_found_error is_conflict_error as_quality_rejected write_error error_text
write_failure e = elim (as_quality_rejected e) [
  | some decision ↦ (
    400,
    record {
      code = "quality_rejected";
      message = "message failed the enforce quality gate";
      quality_decision = some decision;
    },
  )
  | none ↦
      if is_not_found_error e
      then write_error 404 (error_text e) (error_text e)
      else if is_conflict_error e
      then write_error 409 (error_text e) (error_text e)
      else write_error 400 (error_text e) (error_text e)
]
