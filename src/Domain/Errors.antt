-- ===== src/Domain/Errors.antt =====
-- The errors of tc-server/internal/domain/validation.go, with those that carry a value: the quality
-- rejection of application/quality_error.go, what a delivery adapter reports, and errors.Join. A Go pair of a result
-- and an error is a `Result`.
use touch_connect.Prelude.{String, Bool, true, false}
use touch_connect.Contracts.Policy.{QualityDecision}

pub data Error : Type 0 where
  invalid_input : Error
  endpoint_already_online : Error
  endpoint_not_found : Error
  capability_not_found : Error
  message_not_found : Error
  message_unavailable : Error
  attempt_not_found : Error
  stale_attempt : Error
  endpoint_stale : Error
  lease_expired : Error
  message_dead_lettered : Error
  artifact_not_found : Error
  artifact_exists : Error
  approval_not_found : Error
  approval_required : Error
  approval_rejected : Error
  approval_expired : Error
  approval_hash_mismatch : Error
  self_approval : Error
  side_effect_not_found : Error
  side_effect_conflict : Error
  quality_rejected : QualityDecision → Error
  delivery_failed : String → Error
  joined : Error → Error → Error

pub data Result {ℓ} (A : Type ℓ) : Type ℓ where
  ok : A → Result A
  err : Error → Result A

-- The first error of two checks in turn.
infixl 5 ◌>>◌
abbrev pub ◌>>◌ : Result (Unit {0}) → Result (Unit {0}) → Result (Unit {0})
ok passed >> later = later
err e >> later = err e

-- if !condition { return e }
abbrev pub require : Bool → Error → Result (Unit {0})
require true e = ok tt
require false e = err e
