-- ===== src/Memory/ClaimNext.antt =====
-- memory/claim_next.go: the next message for an endpoint, takeover candidates first.
pub mod Preserves
pub mod Numbered
pub mod Eligible
pub mod Picked
use touch_connect.Prelude.{
  Bool, true, false, String, Bool, ◌&&◌, leb, ◌==◌, if◌then◌else◌, Option, none, some, List, [],
  ◌∷◌,
}
use touch_connect.GoMap.{Map, get, keys}
use touch_connect.Domain.States.{message_state_available, message_state_takeover_candidate}
use touch_connect.Domain.Model.{Message, ClaimResult, ClaimRequest, ClaimNextRequest}
use touch_connect.Domain.Routing.{
  message_claimable_by_endpoint, preferred_endpoint_online_for_message,
  message_dependencies_completed,
}
use touch_connect.Memory.Store.{Store}
use touch_connect.Memory.Sort.{sort_strings}
use touch_connect.Memory.Refs.{next_ref}
use touch_connect.Memory.Claim.{claim_available_message, takeover_message, dead_letter_message}

-- The first loop of nextEligibleMessage, by the keys: a range reads each message at its key.
unfoldable pub in_state : String → Option Message → Bool
in_state state none = false
in_state state (some message) = message.state == state

unfoldable pub refs_in_state : String → Map Message → List String → List String
unfolding in_state
refs_in_state state messages [] = []
refs_in_state state messages (ref ∷ refs) =
    let later = refs_in_state state messages refs in
    if in_state state (get messages ref) then ref ∷ later else later

-- The copy of every message's state; the keys are distinct, so each is written once.
unfoldable pub states_of : Map Message → Map String
states_of [] = []
states_of ((ref, message) ∷ rest) = (ref, message.state) ∷ states_of rest

unfoldable pub is_eligible : ClaimNextRequest → Map String → Message → Bool
is_eligible claim states message =
    message_claimable_by_endpoint message claim.endpoint
      (preferred_endpoint_online_for_message message claim.preferred_endpoints)
    && message_dependencies_completed message states

-- The second loop of nextEligibleMessage.
unfoldable pub first_eligible :
    ClaimNextRequest → Map String → Map Message → List String → Option Message
unfolding is_eligible
first_eligible claim states messages [] = none
first_eligible claim states messages (ref ∷ refs) = elim (get messages ref) [
  | none ↦ first_eligible claim states messages refs
  | some message ↦
      let later = first_eligible claim states messages refs in
      if is_eligible claim states message then some message else later
]

unfoldable pub next_eligible_message : String → ClaimNextRequest → Store → Option Message
unfolding first_eligible refs_in_state states_of
next_eligible_message state claim s =
    first_eligible claim (states_of s.messages) s.messages
      (sort_strings (refs_in_state state s.messages (keys s.messages)))

-- A reference of the request, or a new one where it is empty.
unfoldable pub ref_or_next : String → String → Store → String × Store
ref_or_next ref kind s = if ref == "" then next_ref kind s else (ref, s)

unfoldable pub claim_request_for : Message → ClaimNextRequest → String → String → ClaimRequest
claim_request_for message claim attempt_ref dead_letter_ref = record {
  message_ref = message.message_ref;
  endpoint = claim.endpoint;
  attempt_ref = attempt_ref;
  dead_letter_ref = dead_letter_ref;
  lease_expires_at = claim.lease_expires_at;
  now = claim.now;
  max_redelivery = claim.max_redelivery;
}

abbrev pub hand_out : ClaimResult × Store → Option ClaimResult × Store
hand_out (result, s) = (some result, s)

-- Go's triple of a result, a found flag and an error is an `Option` here: the error is always nil.
unfoldable pub claim_next_found : Message → ClaimRequest → Store → Option ClaimResult × Store
claim_next_found message request s =
    if message.state == message_state_available
    then hand_out (claim_available_message message request s)
    else elim (get s.attempts message.attempt_ref) [
      | none ↦ (none, s)
      | some current ↦
          if leb request.max_redelivery message.redelivery_count
          then (none, dead_letter_message message current request s)
          else hand_out (takeover_message message request s)
    ]

unfoldable pub claim_next_eligible_message :
    Message → ClaimNextRequest → Store → Option ClaimResult × Store
unfolding claim_next_found claim_request_for ref_or_next
claim_next_eligible_message message claim s =
    let (attempt_ref, s1) = ref_or_next claim.attempt_ref "attempt" s in
    let (dead_letter_ref, s2) = ref_or_next claim.dead_letter_ref "dead-letter" s1 in
    claim_next_found message (claim_request_for message claim attempt_ref dead_letter_ref) s2

-- The loop over the two states.
unfoldable pub claim_next_in : List String → ClaimNextRequest → Store → Option ClaimResult × Store
claim_next_in [] claim s = (none, s)
claim_next_in (state ∷ states) claim s = elim (next_eligible_message state claim s) [
  | none ↦ claim_next_in states claim s
  | some message ↦ claim_next_eligible_message message claim s
]

unfoldable pub claim_next_message : ClaimNextRequest → Store → Option ClaimResult × Store
unfolding claim_next_in
claim_next_message claim s =
    claim_next_in (message_state_takeover_candidate ∷ message_state_available ∷ []) claim s
