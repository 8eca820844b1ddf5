-- ===== src/Examples/Data.antt =====
-- A service without a delivery adapter, a worker, and a message for it.
use touch_connect.Prelude.{ℕ, String, false, none, some, List, [], ◌∷◌}
use touch_connect.Platform.{Platform}
use touch_connect.Contracts.Endpoints.{Capability, EndpointRegistrationRequest}
use touch_connect.Contracts.Messages.{MessageIngressRequest, ClaimMessageRequest}
use touch_connect.Contracts.Governance.{SideEffectExecutionRequest}
use touch_connect.Domain.Model.{
  Endpoint, Message, Attempt, Checkpoint, ClaimRequest, ClaimNextRequest, SideEffectExecution,
  ApprovalDecision,
}
use touch_connect.Memory.Store.{Store, new_store}
use touch_connect.Quality.Rules.{ValidationInput}
use touch_connect.Service.World.{Service, World}
use touch_connect.Service.History.{Request, register, ingress, claim}

-- Case and time do not matter in these runs.
abbrev pub plain : Platform
plain = record { to_lower = λ s. s; format_time = λ n. "a time"; parse_time = λ s. none }

abbrev pub service : Service
service = record {
  settings = record {
    version = "1";
    minimum_worker_version = "1";
    endpoint_heartbeat_timeout = 30;
    attempt_lease_duration = 10;
    max_redelivery = 3;
    now = 0;
  };
  delivery = none;
  platform = plain;
}

abbrev pub coding : Capability
coding = record { name = "code.*"; execution_hints = [] }

abbrev pub worker_request : EndpointRegistrationRequest
worker_request = record {
  endpoint_ref = "w";
  display_name = "Worker";
  actor_id = "actor";
  workspace_id = "space";
  connection_state = "online";
  capabilities = coding ∷ [];
  execution_hints = [];
  worker_version = "1";
  started_at = "";
}

abbrev pub review_request : MessageIngressRequest
review_request = record {
  message_ref = "m";
  sender_endpoint_ref = "s";
  target_capability = "code.review";
  target_endpoint_ref = "";
  preferred_endpoint_ref = "";
  depends_on_message_refs = [];
  payload = record { summary = "review"; body = "please review"; references = some [] };
  constraints = some [];
  correlation_ref = "t";
  readback_required = false;
  phraseology_policy = none;
  quality_gate = "skip";
}

abbrev pub by_worker : ClaimMessageRequest
by_worker = record { endpoint_ref = "w" }

-- The worker registers, a message arrives, and the worker claims it.
abbrev pub first_events : List (ℕ × Request)
first_events =
    (1, register worker_request) ∷ (2, ingress review_request) ∷ (3, claim "m" by_worker) ∷ []

abbrev pub first_attempt : Attempt
first_attempt = record {
  attempt_ref = "tc://attempt/att_000001";
  message_ref = "m";
  endpoint_ref = "w";
  state = "claimed";
  lease_expires_at = 13;
  revision = 1;
  attempt_no = 1;
  claim_epoch = 1;
}

-- The worker as it is stored.
abbrev pub worker : Endpoint
worker = record {
  endpoint_ref = "w";
  display_name = "Worker";
  actor_id = "actor";
  workspace_id = "space";
  connection_state = "online";
  capabilities = ("code.*", coding) ∷ [];
  execution_hints = [];
  worker_version = "1";
  started_at = "";
  registered_at = 1;
  last_heartbeat_at = 1;
  current_attempt_ref = "";
  last_activity_at = 0;
  progress_summary = "";
}

-- A message in a state, in the hands of the first attempt or of none.
abbrev pub message_in : String → String → Message
message_in state attempt_ref = record {
  message_ref = "m";
  delivery_ref = "d";
  sender_endpoint_ref = "s";
  target_capability = "code.review";
  target_endpoint_ref = "";
  preferred_endpoint_ref = "";
  depends_on_message_refs = [];
  payload = record { summary = "review"; body = "please review"; references = some [] };
  constraints = some [];
  correlation_ref = "t";
  readback_required = false;
  state = state;
  attempt_ref = attempt_ref;
  redelivery_count = 0;
}

abbrev pub waiting_store : Store
waiting_store = record new_store { messages = ("m", message_in "available" "") ∷ [] }

abbrev pub leased_store : Store
leased_store = record new_store {
  messages = ("m", message_in "claimed" "tc://attempt/att_000001") ∷ [];
  attempts = ("tc://attempt/att_000001", first_attempt) ∷ [];
}

-- A claim of the message by the worker at a time.
abbrev pub claim_at : ℕ → ClaimRequest
claim_at now = record {
  message_ref = "m";
  endpoint = worker;
  attempt_ref = "tc://attempt/att_000002";
  dead_letter_ref = "tc://dead-letter/dlq_000001";
  lease_expires_at = 30;
  now = now;
  max_redelivery = 3;
}

abbrev pub claim_any : ClaimNextRequest
claim_any = record {
  endpoint = worker;
  attempt_ref = "";
  dead_letter_ref = "";
  lease_expires_at = 30;
  now = 20;
  max_redelivery = 3;
  preferred_endpoints = [];
}

abbrev pub deploy : SideEffectExecution
deploy = record {
  side_effect_execution_ref = "x1";
  idempotency_key = "deploy-1";
  protected_scope = "production";
  approval_ref = "a";
  approval_hash = "h";
  message_ref = "m";
  task_ref = "t";
  attempt_ref = "tc://attempt/att_000001";
  operation_kind = "deploy";
  external_target = "cluster";
  requested_by_actor_id = "actor";
  executed_by_actor_id = "actor";
  executed_by_endpoint_ref = "w";
  status = "executing";
  started_at = 5;
  completed_at = 0;
  result_ref = "";
  failure_reason_code = "";
}

abbrev pub deploy_request : SideEffectExecutionRequest
deploy_request = record {
  endpoint_ref = "w";
  idempotency_key = "deploy-1";
  protected_scope = "production";
  approval_ref = "a";
  approval_hash = "h";
  task_ref = "t";
  operation_kind = "deploy";
  external_target = "cluster";
  requested_by_actor_id = "actor";
}

abbrev pub review_input : ValidationInput
review_input = record {
  decision_ref = "q";
  message_ref = "m";
  request = review_request;
  created_at = 2;
  created_by = "s";
}

abbrev pub approval : ApprovalDecision
approval = record {
  approval_ref = "a";
  attempt_ref = "tc://attempt/att_000001";
  message_ref = "m";
  target_type = "side_effect";
  target_ref = "deploy";
  requested_by_actor_id = "actor";
  approver_subjects_or_roles = "lead" ∷ [];
  approval_scope = "production";
  approval_hash = "h";
  status = "approved";
  reason = "";
  decided_by_actor_id = "lead";
  decision_note = "";
  requested_at = 4;
  expires_at = 9;
  decided_at = 4;
}

-- The worker holds the message and has the approval.
abbrev pub approved_world : World
approved_world = record {
  store = record leased_store { endpoints = ("w", worker) ∷ []; approvals = ("a", approval) ∷ [] };
  calls = [];
}

-- The checkpoint of a revision.
abbrev pub checkpoint_at : ℕ → Checkpoint
checkpoint_at revision = record {
  checkpoint_ref = "c";
  attempt_ref = "tc://attempt/att_000001";
  endpoint_ref = "w";
  state = "in_progress";
  summary = "half";
  revision = revision;
  artifact_refs = [];
  failure_reason_code = "";
  missing_fields = [];
  missing_reasons = [];
}
