-- ===== src/Service/Attempts/Zero.antt =====
-- The zero values that Go's reads of a missing key give.
use touch_connect.Prelude.{false, none, []}
use touch_connect.Domain.Model.{Attempt, Message}

abbrev pub zero_attempt : Attempt
zero_attempt = record {
  attempt_ref = "";
  message_ref = "";
  endpoint_ref = "";
  state = "";
  lease_expires_at = 0;
  revision = 0;
  attempt_no = 0;
  claim_epoch = 0;
}

abbrev pub zero_message : Message
zero_message = record {
  message_ref = "";
  delivery_ref = "";
  sender_endpoint_ref = "";
  target_capability = "";
  target_endpoint_ref = "";
  preferred_endpoint_ref = "";
  depends_on_message_refs = [];
  payload = record { summary = ""; body = ""; references = none };
  constraints = none;
  correlation_ref = "";
  readback_required = false;
  state = "";
  attempt_ref = "";
  redelivery_count = 0;
}
