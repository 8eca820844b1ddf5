-- ===== src/Examples/Histories.antt =====
-- A history in which a worker registers and claims a message.
use touch_connect.Prelude.{◌≡◌, refl, some, any, String}
use touch_connect.GoMap.{get, put}
use touch_connect.GoText.{
  is_space, trim_left, trim_right, trim_space, has_prefix, has_suffix, trim_suffix, blank,
}
use touch_connect.Domain.Routing.{
  capability_matches, endpoint_can_handle, message_claimable_by_endpoint, message_targets_endpoint,
  message_routable_to_endpoint, wildcard_matches, any_wildcard,
}
use touch_connect.Domain.Validation.{
  validate_endpoint_registration, validate_capabilities, validate_message, valid_quality_gate,
}
use touch_connect.Memory.Ledger.{
  get_endpoint, save_endpoint, get_message, save_message, save_quality_decision,
}
use touch_connect.Memory.Claim.{claim_message, slice_at}
use touch_connect.Memory.Refs.{
  kind_prefix, digit, write_digits, decimal6, ref_text, sequence, next_ref,
}
use touch_connect.Memory.Sort.{sort_by, insert_sorted}
use touch_connect.Memory.Snapshots.{snapshot, sorted_map_values, values}
use touch_connect.Service.World.{on_store, read, found, allocate, endpoint_is_stale}
use touch_connect.Service.Lookups.{
  ingress_route_available, service_snapshot, preferred_endpoint_online, service_claimable,
  service_dependencies_completed, capability_map,
}
use touch_connect.Service.Endpoints.{register_endpoint}
use touch_connect.Service.Ingress.{ingress_message, ingress_decision}
use touch_connect.Service.Claims.{service_claim_message, claim_response_from_result}
use touch_connect.Exec.{◌>>=◌}
use touch_connect.Quality.Gate.{validate_message_with_gate}
use touch_connect.Service.AttemptState.{attempt_closed}
use touch_connect.Memory.Reconcile.{reconcile_expired_claims}
use touch_connect.Memory.Reconcile.Preserves.{reconcile_expired_claims-Good}
use touch_connect.Memory.Invariant.Fresh.{Good}
use touch_connect.Service.History.{run, empty_world, history-Good, history_one_open_attempt}
use touch_connect.Examples.Data.{service, first_events, first_attempt}

-- The claim of the history succeeds.
first_claim :
    get (run service first_events empty_world).store.attempts "tc://attempt/att_000001"
    ≡ some first_attempt
unfolding run get put is_space trim_left trim_right trim_space has_prefix has_suffix trim_suffix
    blank capability_matches endpoint_can_handle message_claimable_by_endpoint
    message_targets_endpoint message_routable_to_endpoint wildcard_matches any_wildcard
    validate_endpoint_registration validate_capabilities validate_message get_endpoint save_endpoint
    get_message save_message save_quality_decision claim_message slice_at kind_prefix digit
    write_digits decimal6 ref_text sequence next_ref sort_by insert_sorted snapshot
    sorted_map_values values on_store read found allocate endpoint_is_stale ingress_route_available
    service_snapshot preferred_endpoint_online service_claimable service_dependencies_completed
    capability_map register_endpoint ingress_message ingress_decision service_claim_message
    claim_response_from_result ◌>>=◌ any validate_message_with_gate valid_quality_gate
first_claim = refl

history-Good_example : Good 3 (run service first_events empty_world).store
history-Good_example = history-Good service first_events

history_one_open_attempt_example :
    ◌≡◌ {A = String} "tc://attempt/att_000001" "tc://attempt/att_000001"
unfolding attempt_closed
history_one_open_attempt_example =
    history_one_open_attempt service first_events "tc://attempt/att_000001"
      "tc://attempt/att_000001" first_attempt first_attempt first_claim first_claim refl refl refl

-- The lease of the claim has run out at 20.
reconcile_expired_claims-Good_example :
    Good 3 (reconcile_expired_claims 20 (run service first_events empty_world).store).0
reconcile_expired_claims-Good_example =
    reconcile_expired_claims-Good 20 (run service first_events empty_world).store
      (history-Good service first_events)
