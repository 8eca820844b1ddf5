-- ===== src/Service/Commands.antt =====
-- application/control_commands.go: the operator's commands on tasks and dead letters.
use touch_connect.Prelude.{
  ◌+◌, String, Bool, not, ◌||◌, ◌==◌, if◌then◌else◌, Option, none, some, List, [], ◌∷◌, ◌++◌,
  is_empty,
}
use touch_connect.Contracts.Messages.{MessageIngressRequest}
use touch_connect.Contracts.Governance.{
  TaskCommandRequest, TaskCommandResponse, DlqReplayRequest, DlqReplayResponse,
}
use touch_connect.Domain.States.{
  attempt_state_canceled, message_state_available, message_state_completed, message_state_failed,
  message_state_dead_lettered, message_state_input_required, message_state_canceled,
}
use touch_connect.Domain.Errors.{invalid_input, message_not_found}
use touch_connect.Domain.Model.{Message, DeadLetter}
use touch_connect.Exec.{Exec, pure, ensure, ◌>>=◌, ◌>>◌}
use touch_connect.Memory.Store.{Store}
use touch_connect.Memory.Ledger.{get_attempt, get_message, update_attempt, update_message}
use touch_connect.Service.AttemptState.{attempt_closed}
use touch_connect.Service.World.{Service, World, Settings, on_store, read, found}
use touch_connect.Service.Lookups.{service_snapshot}
use touch_connect.Service.Ingress.{ingress_message}

unfoldable pub with_correlation : String → List Message → List Message
with_correlation task_ref [] = []
with_correlation task_ref (message ∷ rest) =
    let later = with_correlation task_ref rest in
    if message.correlation_ref == task_ref then message ∷ later else later

unfoldable pub messages_for_task : Settings → Store → String → List Message
unfolding with_correlation
messages_for_task settings s task_ref =
    with_correlation task_ref (service_snapshot settings s).messages

-- The reference of the attempt that was canceled, if one was open.
unfoldable pub cancel_open_attempt : String → Exec World (Option String)
cancel_open_attempt attempt_ref w =
    if attempt_ref == "" then (pure none w) else elim (get_attempt w.store attempt_ref) [
      | none ↦ pure none w
      | some attempt ↦
          if attempt_closed attempt.state
          then (pure none w)
          else ((do
            on_store (update_attempt (record attempt { state = attempt_state_canceled }))
            pure (some attempt.attempt_ref))
              w)
    ]

unfoldable pub add_message : Message → TaskCommandResponse → TaskCommandResponse
add_message message response = record response {
  message_refs = response.message_refs ++ message.message_ref ∷ [];
  affected_messages = response.affected_messages + 1;
}

unfoldable pub add_attempt : Option String → TaskCommandResponse → TaskCommandResponse
add_attempt none response = response
add_attempt (some attempt_ref) response = record response {
  attempt_refs = response.attempt_refs ++ attempt_ref ∷ [];
  affected_attempts = response.affected_attempts + 1;
}

abbrev pub empty_response : String → String → TaskCommandResponse
empty_response task_ref state = record {
  task_ref = task_ref;
  state = state;
  message_refs = [];
  attempt_refs = [];
  affected_messages = 0;
  affected_attempts = 0;
}

-- One round of CancelTask.
unfoldable pub cancel_message : Message → TaskCommandResponse → Exec World TaskCommandResponse
unfolding cancel_open_attempt add_message add_attempt
cancel_message message response =
    if message.state == message_state_completed || message.state == message_state_canceled
    then pure response
    else (do
      on_store (update_message (record message { state = message_state_canceled }))
      canceled ← cancel_open_attempt message.attempt_ref
      pure (add_attempt canceled (add_message message response)))

unfoldable pub cancel_messages : List Message → TaskCommandResponse → Exec World TaskCommandResponse
unfolding cancel_message
cancel_messages [] response = pure response
cancel_messages (message ∷ rest) response = do
  response' ← cancel_message message response
  cancel_messages rest response'

unfoldable pub cancel_task : Service → TaskCommandRequest → Exec World TaskCommandResponse
unfolding cancel_messages
cancel_task svc req = do
  ensure (not (req.task_ref == "")) invalid_input
  messages ← read (λ s. messages_for_task svc.settings s req.task_ref)
  ensure (not (is_empty messages)) message_not_found
  cancel_messages messages (empty_response req.task_ref message_state_canceled)

unfoldable pub is_retryable : String → Bool
is_retryable state =
    state == message_state_failed
    || state == message_state_dead_lettered
    || state == message_state_input_required
    || state == message_state_canceled

-- One round of RetryTask.
unfoldable pub retry_message : Message → TaskCommandResponse → Exec World TaskCommandResponse
unfolding is_retryable add_message
retry_message message response = if not (is_retryable message.state) then pure response else (do
  on_store (update_message (record message { state = message_state_available; attempt_ref = "" }))
  pure (add_message message response))

unfoldable pub retry_messages : List Message → TaskCommandResponse → Exec World TaskCommandResponse
unfolding retry_message
retry_messages [] response = pure response
retry_messages (message ∷ rest) response = do
  response' ← retry_message message response
  retry_messages rest response'

unfoldable pub retry_task : Service → TaskCommandRequest → Exec World TaskCommandResponse
unfolding retry_messages
retry_task svc req = do
  ensure (not (req.task_ref == "")) invalid_input
  messages ← read (λ s. messages_for_task svc.settings s req.task_ref)
  ensure (not (is_empty messages)) message_not_found
  retry_messages messages (empty_response req.task_ref message_state_available)

unfoldable pub find_dead_letter : String → List DeadLetter → Option DeadLetter
find_dead_letter ref [] = none
find_dead_letter ref (item ∷ rest) =
    if item.dead_letter_ref == ref then some item else find_dead_letter ref rest

unfoldable pub dead_letter : Settings → Store → String → Option DeadLetter
unfolding find_dead_letter
dead_letter settings s ref = find_dead_letter ref (service_snapshot settings s).dead_letters

unfoldable pub replay_request : Message → MessageIngressRequest
replay_request original = record {
  message_ref = "";
  sender_endpoint_ref = original.sender_endpoint_ref;
  target_capability = original.target_capability;
  target_endpoint_ref = original.target_endpoint_ref;
  preferred_endpoint_ref = original.preferred_endpoint_ref;
  depends_on_message_refs = original.depends_on_message_refs;
  payload = original.payload;
  constraints = original.constraints;
  correlation_ref = original.correlation_ref;
  readback_required = original.readback_required;
  phraseology_policy = none;
  quality_gate = "";
}

unfoldable pub replay_dead_letter : Service → DlqReplayRequest → Exec World DlqReplayResponse
unfolding replay_request
replay_dead_letter svc req = do
  ensure (not (req.dead_letter_ref == "")) invalid_input
  letter ← read (λ s. dead_letter svc.settings s req.dead_letter_ref) >>= found message_not_found
  original ← read (λ s. get_message s letter.message_ref) >>= found message_not_found
  replayed ← ingress_message svc (replay_request original)
  pure (record {
    dead_letter_ref = req.dead_letter_ref;
    original_ref = original.message_ref;
    message_ref = replayed.message_ref;
    delivery_ref = replayed.delivery_ref;
    state = replayed.state;
  })
