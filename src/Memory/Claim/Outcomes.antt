-- ===== src/Memory/Claim/Outcomes.antt =====
-- ClaimMessage for its caller: the result against the store.
use touch_connect.Prelude.{◌+◌, ◌≡◌, refl, Option, none, some}
use touch_connect.GoMap.{get}
use touch_connect.GoMap.Laws.{get-put_self}
use touch_connect.Domain.States.{attempt_state_claimed, message_state_claimed}
use touch_connect.Domain.Errors.{Result, ok, err}
use touch_connect.Domain.Model.{Message, Checkpoint, ClaimRequest, ClaimResult}
use touch_connect.Memory.Store.{Store}
use touch_connect.Memory.Claim.{
  claim_message, claim_available_message, takeover_message, resume_from, succeed, orphan_attempt,
  latest_checkpoint, slice_at,
}
use touch_connect.Memory.Claim.Step.{
  ClaimStep, missing, available, dead, lost, held, settled, exhausted, resumed, expired,
  claim_message-Step,
}

-- The message and the attempt of the result are stored, and belong to each other and to the request.
pub record Handed (claim : ClaimRequest) (s : Store) (r : ClaimResult) : Type 0 where
  pub message_stored : get s.messages r.message.message_ref ≡ some r.message
  pub attempt_stored : get s.attempts claim.attempt_ref ≡ some r.attempt
  pub message_claimed : r.message.state ≡ message_state_claimed
  pub attempt_claimed : r.attempt.state ≡ attempt_state_claimed
  pub named : r.attempt.attempt_ref ≡ claim.attempt_ref
  pub current : r.message.attempt_ref ≡ claim.attempt_ref
  pub of_message : r.attempt.message_ref ≡ r.message.message_ref
  pub of_endpoint : r.attempt.endpoint_ref ≡ claim.endpoint.endpoint_ref
  pub leased : r.attempt.lease_expires_at ≡ claim.lease_expires_at
  pub epoch : r.attempt.claim_epoch ≡ r.message.redelivery_count + 1

abbrev pub HandedIf : ClaimRequest → Result ClaimResult × Store → Type 0
HandedIf claim (ok r, t) = Handed claim t r
HandedIf claim (err e, t) = Unit {0}

available-Handed :
    (m : Message) (claim : ClaimRequest) (s : Store)
    → HandedIf claim (succeed (claim_available_message m claim s))
unfolding claim_available_message
available-Handed m claim s = record {
  message_stored = get-put_self s.messages m.message_ref _;
  attempt_stored = get-put_self s.attempts claim.attempt_ref _;
  message_claimed = refl;
  attempt_claimed = refl;
  named = refl;
  current = refl;
  of_message = refl;
  of_endpoint = refl;
  leased = refl;
  epoch = refl;
}

resume-Handed :
    (o : Option Checkpoint) (claim : ClaimRequest) (r : ClaimResult) (t : Store)
    → Handed claim t r
    → Handed claim t (resume_from o r)
unfolding resume_from
resume-Handed none claim r t h = record {
  message_stored = h.message_stored;
  attempt_stored = h.attempt_stored;
  message_claimed = h.message_claimed;
  attempt_claimed = h.attempt_claimed;
  named = h.named;
  current = h.current;
  of_message = h.of_message;
  of_endpoint = h.of_endpoint;
  leased = h.leased;
  epoch = h.epoch;
}
resume-Handed (some latest) claim r t h = record {
  message_stored = h.message_stored;
  attempt_stored = h.attempt_stored;
  message_claimed = h.message_claimed;
  attempt_claimed = h.attempt_claimed;
  named = h.named;
  current = h.current;
  of_message = h.of_message;
  of_endpoint = h.of_endpoint;
  leased = h.leased;
  epoch = h.epoch;
}

takeover-Handed :
    (m : Message) (claim : ClaimRequest) (s : Store)
    → HandedIf claim (succeed (takeover_message m claim s))
unfolding takeover_message
takeover-Handed m claim s =
    resume-Handed (latest_checkpoint (slice_at s.checkpoints m.attempt_ref)) claim _ _
      (available-Handed (record m { redelivery_count = m.redelivery_count + 1 }) claim s)

step-Handed :
    {claim : ClaimRequest} {s : Store} {o : Result ClaimResult × Store}
    → ClaimStep claim s o
    → HandedIf claim o
step-Handed (missing e) = tt
step-Handed {claim} {s} (available m e here) = available-Handed m claim s
step-Handed (dead m e here) = tt
step-Handed (lost m e here ea) = tt
step-Handed (held m a e here ea early) = tt
step-Handed (settled m e here) = tt
step-Handed (exhausted m a e due ea full) = tt
step-Handed {claim} {s} (resumed m a e here ea room) = takeover-Handed m claim s
step-Handed {claim} {s} (expired m a e here ea late room) =
    takeover-Handed m claim (orphan_attempt a s)

-- Where ClaimMessage returns a result, that message and a new attempt of it are stored as returned:
-- both claimed, the attempt current for the message, held by the claiming endpoint until the requested
-- time, and numbered one more than the message's redeliveries.
pub claim_message-Handed :
    (claim : ClaimRequest) (s : Store) → HandedIf claim (claim_message claim s)
claim_message-Handed claim s = step-Handed (claim_message-Step claim s)
