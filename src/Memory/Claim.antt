-- ===== src/Memory/Claim.antt =====
-- ClaimMessage of memory/store.go: a message goes to an endpoint, is taken over after its lease, or
-- is dead-lettered after too many redeliveries.
pub mod Step
pub mod Preserves
pub mod Numbered
pub mod Outcomes
pub mod Exclusive
pub mod Latest
use touch_connect.Prelude.{
  ◌+◌, String, true, false, ◌&&◌, ltb, leb, ◌==◌, ◌!=◌, if◌then◌else◌, Option, none, some, List, [],
  ◌∷◌,
}
use touch_connect.GoMap.{Map, get, put}
use touch_connect.Domain.States.{
  attempt_state_claimed, attempt_state_orphaned, message_state_available, message_state_claimed,
  message_state_processing, message_state_takeover_candidate, message_state_dead_lettered,
}
use touch_connect.Domain.Errors.{
  Result, ok, err, message_not_found, message_unavailable, message_dead_lettered,
}
use touch_connect.Domain.Model.{Message, Attempt, Checkpoint, DeadLetter, ClaimResult, ClaimRequest}
use touch_connect.Memory.Store.{Store}

-- m[k] for a map of slices: a missing key reads as nil.
unfoldable pub slice_at : {A : Type 0} → Map (List A) → String → List A
slice_at m k = elim (get m k) [ none ↦ [] | some xs ↦ xs ]

unfoldable pub latest_from : Checkpoint → List Checkpoint → Checkpoint
latest_from latest [] = latest
latest_from latest (item ∷ rest) =
    latest_from (if ltb latest.revision item.revision then item else latest) rest

unfoldable pub latest_checkpoint : List Checkpoint → Option Checkpoint
unfolding latest_from
latest_checkpoint [] = none
latest_checkpoint (first ∷ rest) = some (latest_from first rest)

unfoldable pub new_attempt : Message → ClaimRequest → Attempt
new_attempt message claim = record {
  attempt_ref = claim.attempt_ref;
  message_ref = message.message_ref;
  endpoint_ref = claim.endpoint.endpoint_ref;
  state = attempt_state_claimed;
  lease_expires_at = claim.lease_expires_at;
  revision = 1;
  attempt_no = message.redelivery_count + 1;
  claim_epoch = message.redelivery_count + 1;
}

unfoldable pub claim_available_message : Message → ClaimRequest → Store → ClaimResult × Store
unfolding new_attempt
claim_available_message message claim s =
    let attempt = new_attempt message claim in
    let claimed : Message = record message {
      state = message_state_claimed;
      attempt_ref = claim.attempt_ref;
    } in
    (
      record {
        message = claimed;
        attempt = attempt;
        takeover = false;
        last_checkpoint_ref = "";
        resume_summary = "";
        resume_artifact_refs = [];
      },
      record s {
        attempts = put s.attempts claim.attempt_ref attempt;
        messages = put s.messages message.message_ref claimed;
      },
    )

-- The fields that a takeover adds to the result.
unfoldable pub resume_from : Option Checkpoint → ClaimResult → ClaimResult
resume_from none result = record result { takeover = true }
resume_from (some latest) result = record result {
  takeover = true;
  last_checkpoint_ref = latest.checkpoint_ref;
  resume_summary = latest.summary;
  resume_artifact_refs = latest.artifact_refs;
}

unfoldable pub takeover_message : Message → ClaimRequest → Store → ClaimResult × Store
unfolding claim_available_message resume_from
takeover_message message claim s =
    let latest = latest_checkpoint (slice_at s.checkpoints message.attempt_ref) in
    let (result, s') =
      claim_available_message (record message { redelivery_count = message.redelivery_count + 1 })
        claim s in
    (resume_from latest result, s')

unfoldable pub last_checkpoint_ref : Option Checkpoint → String
last_checkpoint_ref none = ""
last_checkpoint_ref (some latest) = latest.checkpoint_ref

unfoldable pub dead_letter_of : Message → Attempt → ClaimRequest → Store → DeadLetter
unfolding last_checkpoint_ref
dead_letter_of message attempt claim s = record {
  dead_letter_ref = claim.dead_letter_ref;
  message_ref = message.message_ref;
  last_attempt_ref = attempt.attempt_ref;
  last_checkpoint_ref =
      last_checkpoint_ref (latest_checkpoint (slice_at s.checkpoints attempt.attempt_ref));
  reason = "max_redelivery_exceeded";
  redelivery_count = message.redelivery_count;
  created_at = claim.now;
}

unfoldable pub orphan_attempt : Attempt → Store → Store
orphan_attempt attempt s = record s {
  attempts = put s.attempts attempt.attempt_ref (record attempt { state = attempt_state_orphaned });
}

unfoldable pub dead_letter_message : Message → Attempt → ClaimRequest → Store → Store
unfolding orphan_attempt dead_letter_of
dead_letter_message message attempt claim s = record (orphan_attempt attempt s) {
  messages =
      put s.messages message.message_ref (record message { state = message_state_dead_lettered });
  dead_letters = put s.dead_letters claim.dead_letter_ref (dead_letter_of message attempt claim s);
}

-- return result, nil
abbrev pub succeed : ClaimResult × Store → Result ClaimResult × Store
succeed (result, s) = (ok result, s)

-- The tail of ClaimMessage, for a message in state takeover_candidate with its attempt.
unfoldable pub claim_candidate :
    Message → Attempt → ClaimRequest → Store → Result ClaimResult × Store
unfolding dead_letter_message takeover_message
claim_candidate message current claim s =
    if leb claim.max_redelivery message.redelivery_count
    then (err message_dead_lettered, dead_letter_message message current claim s)
    else succeed (takeover_message message claim s)

-- The tail of ClaimMessage, for a claimed or processing message with its attempt.
unfoldable pub claim_leased : Message → Attempt → ClaimRequest → Store → Result ClaimResult × Store
unfolding dead_letter_message takeover_message orphan_attempt
claim_leased message current claim s =
    if leb claim.now current.lease_expires_at
    then (err message_unavailable, s)
    else if leb claim.max_redelivery message.redelivery_count
    then (err message_dead_lettered, dead_letter_message message current claim s)
    else succeed (takeover_message message claim (orphan_attempt current s))

unfoldable pub with_attempt :
    Option Attempt
    → (Attempt → Store → Result ClaimResult × Store)
    → Store
    → Result ClaimResult × Store
with_attempt none f s = (err message_unavailable, s)
with_attempt (some current) f s = f current s

unfoldable pub claim_found : Message → ClaimRequest → Store → Result ClaimResult × Store
unfolding claim_candidate claim_leased with_attempt claim_available_message
claim_found message claim s =
    if message.state == message_state_available
    then succeed (claim_available_message message claim s)
    else if message.state == message_state_dead_lettered
    then (err message_dead_lettered, s)
    else if message.state == message_state_takeover_candidate
    then with_attempt (get s.attempts message.attempt_ref)
        (λ current. claim_candidate message current claim) s
    else if message.state != message_state_claimed && message.state != message_state_processing
    then (err message_unavailable, s)
    else with_attempt (get s.attempts message.attempt_ref)
        (λ current. claim_leased message current claim) s

unfoldable pub claim_message : ClaimRequest → Store → Result ClaimResult × Store
unfolding claim_found
claim_message claim s = elim (get s.messages claim.message_ref) [
  | none ↦ (err message_not_found, s)
  | some message ↦ claim_found message claim s
]
