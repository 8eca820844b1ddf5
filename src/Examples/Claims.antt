-- ===== src/Examples/Claims.antt =====
-- Claims of a waiting and of a leased message, and references.
use touch_connect.Prelude.{[], ◌∷◌, some, ◌≡◌, refl, inr, ℕ}
use touch_connect.GoMap.{get, keys}
use touch_connect.GoText.{trim_space, has_suffix, has_prefix, trim_suffix}
use touch_connect.Domain.Routing.{
  message_claimable_by_endpoint, endpoint_can_handle, capability_matches,
  message_dependencies_completed,
}
use touch_connect.Memory.Claim.{claim_message, claim_found, claim_available_message}
use touch_connect.Memory.Claim.Step.{ClaimStep, claim_message-Step}
use touch_connect.Memory.Claim.Outcomes.{HandedIf, claim_message-Handed}
use touch_connect.Memory.Claim.Exclusive.{AfterClaim, claim_message-exclusive}
use touch_connect.Domain.Model.{Checkpoint, ClaimRequest, ClaimResult}
use touch_connect.Memory.Store.{Store}
use touch_connect.Memory.Claim.{latest_checkpoint}
use touch_connect.Memory.Claim.Latest.{IsOneOf, AtMost, latest_checkpoint-AtMost}
use touch_connect.Memory.ClaimNext.{claim_next_found, next_eligible_message}
use touch_connect.Memory.ClaimNext.Preserves.{lower, claim_next_found-claim_message}
use touch_connect.Memory.ClaimNext.Picked.{Picked, next_eligible_message-Picked}
use touch_connect.Memory.Refs.Fresh.{ref_text_injective}
use touch_connect.Memory.Sort.{sort_strings}
use touch_connect.Examples.Data.{
  checkpoint_at, waiting_store, leased_store, claim_at, claim_any, message_in,
}

claim_message-Step_example :
    ClaimStep (claim_at 20) leased_store (claim_message (claim_at 20) leased_store)
claim_message-Step_example = claim_message-Step (claim_at 20) leased_store

claim_message-Handed_example : HandedIf (claim_at 20) (claim_message (claim_at 20) leased_store)
claim_message-Handed_example = claim_message-Handed (claim_at 20) leased_store

-- What the first claim of the waiting message returns, and the store that it leaves.
abbrev first_claim : ClaimResult × Store
first_claim = claim_available_message (message_in "available" "") (claim_at 20) waiting_store

abbrev second_claim : ClaimRequest
second_claim = record (claim_at 40) { attempt_ref = "tc://attempt/att_000003" }

claim_message-exclusive_example :
    AfterClaim
      (claim_at 20)
      first_claim.0
      second_claim
      first_claim.1
      (claim_message second_claim first_claim.1)
unfolding claim_message claim_found get claim_available_message
claim_message-exclusive_example =
    claim_message-exclusive (claim_at 20) second_claim waiting_store first_claim.1 first_claim.0
      refl refl

claim_next_found-claim_message_example :
    claim_next_found (message_in "available" "") (claim_at 20) waiting_store
    ≡ lower (claim_message (claim_at 20) waiting_store)
unfolding get
claim_next_found-claim_message_example =
    claim_next_found-claim_message (message_in "available" "") (claim_at 20) waiting_store refl
      (inr refl)

next_eligible_message-Picked_example :
    Picked "available" claim_any waiting_store
      (next_eligible_message "available" claim_any waiting_store)
next_eligible_message-Picked_example =
    next_eligible_message-Picked "available" claim_any waiting_store

-- The search finds the waiting message.
waiting_is_next :
    next_eligible_message "available" claim_any waiting_store ≡ some (message_in "available" "")
unfolding next_eligible_message get sort_strings keys message_claimable_by_endpoint
    endpoint_can_handle capability_matches trim_space has_suffix has_prefix trim_suffix
    message_dependencies_completed
waiting_is_next = refl

ref_text_injective_example : ◌≡◌ {A = ℕ} 1234567 1234567
ref_text_injective_example = ref_text_injective "delivery" 1234567 1234567 refl

latest_checkpoint-AtMost_example :
    (c : Checkpoint) × (latest_checkpoint (checkpoint_at 1 ∷ checkpoint_at 3 ∷ checkpoint_at 2 ∷ [])
      ≡ some c)
    × IsOneOf c (checkpoint_at 1 ∷ checkpoint_at 3 ∷ checkpoint_at 2 ∷ [])
    × AtMost c (checkpoint_at 1 ∷ checkpoint_at 3 ∷ checkpoint_at 2 ∷ [])
latest_checkpoint-AtMost_example =
    latest_checkpoint-AtMost (checkpoint_at 1) (checkpoint_at 3 ∷ checkpoint_at 2 ∷ [])
