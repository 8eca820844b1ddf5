-- ===== src/Service/Claims.antt =====
-- ClaimMessage and ClaimNextMessage of application/service.go, with and without a delivery adapter.
use touch_connect.Prelude.{
  ◌+◌, String, Bool, true, false, not, ◌||◌, ◌!=◌, if◌then◌else◌, Option, none, some, List, [], ◌∷◌,
  items, is_empty,
}
use Prim.Native.String
use touch_connect.Platform.{Platform}
use touch_connect.Contracts.Messages.{
  Constraint, ClaimMessageRequest, ClaimMessageResponse, ClaimNextMessageRequest,
  ClaimNextMessageResponse,
}
use touch_connect.Domain.Errors.{
  Error, Result, ok, err, joined, endpoint_not_found, message_not_found, capability_not_found,
  message_unavailable, message_dead_lettered, endpoint_stale,
}
use touch_connect.Domain.Model.{Endpoint, Message, ClaimResult, ClaimRequest, ClaimNextRequest}
use touch_connect.Exec.{Exec, pure, fail, ensure, ◌>>=◌, ◌>>◌}
use touch_connect.Memory.Ledger.{get_endpoint, get_message}
use touch_connect.Memory.Claim.{claim_message}
use touch_connect.Memory.ClaimNext.{claim_next_message}
use touch_connect.Memory.Reconcile.{reconcile_expired_claims}
use touch_connect.Service.World.{
  Service, World, DeliveryAdapter, DeliveryRecord, DeliveryFetchRequest, on_store, read, found,
  allocate, ack_with, nak_with, fetch_with, endpoint_is_stale,
}
use touch_connect.Service.Lookups.{
  service_claimable, service_dependencies_completed, online_endpoints_by_ref, capability_names,
}
use touch_connect.Service.ErrorText.{error_text}

unfoldable pub constraint_codes : List Constraint → List String
constraint_codes [] = []
constraint_codes (item ∷ rest) =
    let later = constraint_codes rest in if item.code != "" then item.code ∷ later else later

-- strings.Join(parts, ",")
unfoldable pub join_comma : List String → String
join_comma [] = ""
join_comma (part ∷ []) = part
join_comma (part ∷ rest) = String.◌++◌ part (String.◌++◌ "," (join_comma rest))

unfoldable pub constraint_summary : List Constraint → String
unfolding constraint_codes join_comma
constraint_summary constraints = join_comma (constraint_codes constraints)

unfoldable pub claim_response_from_result : Platform → ClaimResult → String → ClaimMessageResponse
unfolding constraint_summary
claim_response_from_result platform result endpoint_ref = record {
  message_ref = result.message.message_ref;
  attempt_ref = result.attempt.attempt_ref;
  endpoint_ref = endpoint_ref;
  state = result.attempt.state;
  lease_expires_at = platform.format_time result.attempt.lease_expires_at;
  takeover = result.takeover;
  redelivery_count = result.message.redelivery_count;
  last_checkpoint_ref = result.last_checkpoint_ref;
  resume_summary = result.resume_summary;
  resume_artifact_refs = result.resume_artifact_refs;
  readback_required = result.message.readback_required;
  target_capability = result.message.target_capability;
  target_endpoint_ref = result.message.target_endpoint_ref;
  preferred_endpoint_ref = result.message.preferred_endpoint_ref;
  depends_on_message_refs = result.message.depends_on_message_refs;
  correlation_ref = result.message.correlation_ref;
  payload = result.message.payload;
  constraints = result.message.constraints;
  payload_summary = result.message.payload.summary;
  constraint_summary = constraint_summary (items result.message.constraints);
  confidence_band = "";
}

-- The request for a message at the present time.
unfoldable pub claim_request : Service → String → Endpoint → String → String → ClaimRequest
claim_request svc message_ref endpoint attempt_ref dead_letter_ref = record {
  message_ref = message_ref;
  endpoint = endpoint;
  attempt_ref = attempt_ref;
  dead_letter_ref = dead_letter_ref;
  lease_expires_at = svc.settings.now + svc.settings.attempt_lease_duration;
  now = svc.settings.now;
  max_redelivery = svc.settings.max_redelivery;
}

-- The two references and the store's ClaimMessage.
unfoldable pub claim_in_store : Service → String → Endpoint → Exec World ClaimResult
unfolding claim_request
claim_in_store svc message_ref endpoint = do
  attempt_ref ← allocate "attempt"
  dead_letter_ref ← allocate "dead-letter"
  on_store (claim_message (claim_request svc message_ref endpoint attempt_ref dead_letter_ref))

unfoldable pub service_claim_message :
    Service → String → ClaimMessageRequest → Exec World ClaimMessageResponse
unfolding claim_in_store
service_claim_message svc message_ref req = do
  endpoint ← read (λ s. get_endpoint s req.endpoint_ref) >>= found endpoint_not_found
  message ← read (λ s. get_message s message_ref) >>= found message_not_found
  claimable ← read (λ s. service_claimable svc.settings s message endpoint)
  ensure claimable capability_not_found
  completed ← read (λ s. service_dependencies_completed s message)
  ensure completed message_unavailable
  ensure (not (endpoint_is_stale svc.settings endpoint)) endpoint_stale
  result ← claim_in_store svc message.message_ref endpoint
  pure (claim_response_from_result svc.platform result endpoint.endpoint_ref)

abbrev pub empty_claim : ClaimNextMessageResponse
empty_claim = record { empty = true; claim = none }

abbrev pub claimed : ClaimMessageResponse → ClaimNextMessageResponse
claimed claim = record { empty = false; claim = some claim }

unfoldable pub is_dead_lettered : Error → Bool
is_dead_lettered message_dead_lettered = true
is_dead_lettered _ = false

-- Answers to the adapter; an error of the second kind joins the first.
abbrev pub join_error : Error → Result (Unit {0}) × World → Result (Unit {0}) × World
join_error e (ok u, w) = (ok u, w)
join_error e (err e', w) = (err (joined e e'), w)

abbrev pub or_joined : Error → Exec World (Unit {0}) → Exec World (Unit {0})
or_joined e m w = join_error e (m w)

-- What becomes of a delivery after the store's ClaimMessage.
unfoldable pub settle_delivery :
    Service
    → DeliveryAdapter
    → DeliveryRecord
    → Endpoint
    → Result ClaimResult
    → Exec World ClaimNextMessageResponse
unfolding is_dead_lettered
settle_delivery svc adapter delivery endpoint (ok result) =
    pure (claimed (claim_response_from_result svc.platform result endpoint.endpoint_ref))
settle_delivery svc adapter delivery endpoint (err e) =
    if is_dead_lettered e
    then (do or_joined e (ack_with adapter delivery.delivery_ref); pure empty_claim)
    else (do or_joined e (nak_with adapter delivery.delivery_ref (error_text e)); fail e)

-- The result of a step, kept as a value.
abbrev pub attempt_step : {A : Type 0} → Exec World A → Exec World (Result A)
attempt_step m w = let (r, w') = m w in (ok r, w')

unfoldable pub claim_delivered :
    Service
    → DeliveryAdapter
    → DeliveryRecord
    → Endpoint
    → Option Message
    → Exec World ClaimNextMessageResponse
unfolding settle_delivery
claim_delivered svc adapter delivery endpoint none = do
  nak_with adapter delivery.delivery_ref (error_text message_not_found)
  fail message_not_found
claim_delivered svc adapter delivery endpoint (some message) = do
  claimable ← read (λ s. service_claimable svc.settings s message endpoint)
  completed ← read (λ s. service_dependencies_completed s message)
  if not claimable || not completed
      then (do
        nak_with adapter delivery.delivery_ref (error_text message_unavailable)
        pure empty_claim)
      else (do
        result ← attempt_step (claim_in_store svc delivery.message_ref endpoint)
        settle_delivery svc adapter delivery endpoint result)

unfoldable pub claim_fetched :
    Service
    → DeliveryAdapter
    → Endpoint
    → Option DeliveryRecord
    → Exec World ClaimNextMessageResponse
unfolding claim_delivered
claim_fetched svc adapter endpoint none = pure empty_claim
claim_fetched svc adapter endpoint (some delivery) = do
  message ← read (λ s. get_message s delivery.message_ref)
  claim_delivered svc adapter delivery endpoint message

unfoldable pub claim_next_with_adapter :
    Service → DeliveryAdapter → Endpoint → Exec World ClaimNextMessageResponse
unfolding claim_fetched
claim_next_with_adapter svc adapter endpoint = do
  let request : DeliveryFetchRequest = record {
    endpoint_ref = endpoint.endpoint_ref;
    capabilities = capability_names endpoint.capabilities;
  }
  delivery ← fetch_with adapter request
  claim_fetched svc adapter endpoint delivery

-- s.processing.ReconcileExpiredClaims(now), whose count is dropped.
unfoldable pub reconcile_now : Service → Exec World (Unit {0})
reconcile_now svc w =
    (ok tt, record w { store = (reconcile_expired_claims svc.settings.now w.store).0 })

unfoldable pub claim_next_in_store : Service → Endpoint → Exec World (Option ClaimResult)
claim_next_in_store svc endpoint w =
    let request : ClaimNextRequest = record {
      endpoint = endpoint;
      attempt_ref = "";
      dead_letter_ref = "";
      lease_expires_at = svc.settings.now + svc.settings.attempt_lease_duration;
      now = svc.settings.now;
      max_redelivery = svc.settings.max_redelivery;
      preferred_endpoints = online_endpoints_by_ref svc.settings w.store;
    } in
    let (result, s) = claim_next_message request w.store in (ok result, record w { store = s })

unfoldable pub next_claim_response :
    Service → Endpoint → Option ClaimResult → ClaimNextMessageResponse
next_claim_response svc endpoint none = empty_claim
next_claim_response svc endpoint (some result) =
    claimed (claim_response_from_result svc.platform result endpoint.endpoint_ref)

unfoldable pub claim_next_without_adapter : Service → Endpoint → Exec World ClaimNextMessageResponse
unfolding claim_next_in_store next_claim_response
claim_next_without_adapter svc endpoint = do
  result ← claim_next_in_store svc endpoint
  pure (next_claim_response svc endpoint result)

unfoldable pub service_claim_next_message :
    Service → ClaimNextMessageRequest → Exec World ClaimNextMessageResponse
unfolding reconcile_now claim_next_with_adapter claim_next_without_adapter
service_claim_next_message svc req = do
  endpoint ← read (λ s. get_endpoint s req.endpoint_ref) >>= found endpoint_not_found
  ensure (not (is_empty endpoint.capabilities)) capability_not_found
  ensure (not (endpoint_is_stale svc.settings endpoint)) endpoint_stale
  reconcile_now svc
  elim svc.delivery [
    | some adapter ↦ claim_next_with_adapter svc adapter endpoint
    | none ↦ claim_next_without_adapter svc endpoint
  ]
