-- ===== src/Service/Preserves/Claims.antt =====
-- ClaimMessage of the service and the invariant of the store.
use touch_connect.Prelude.{ℕ, String, ◌≡◌, refl}
use touch_connect.Contracts.Messages.{ClaimMessageRequest}
use touch_connect.Domain.Model.{Endpoint}
use touch_connect.Memory.Claim.Numbered.{claim_message-Good}
use touch_connect.Memory.Refs.{next_ref}
use touch_connect.Memory.Invariant.Fresh.{Good, sequence-next_ref_ne}
use touch_connect.Service.World.{Service, World}
use touch_connect.Service.Rules.{Ends, Ends-lookup, Ends-read, Ends-ensure, Ends-bind, Ends-pure}
use touch_connect.Service.World.{allocate, on_store}
use touch_connect.Exec.{◌>>=◌}
use touch_connect.Service.Claims.{claim_in_store, claim_request, service_claim_message}
use touch_connect.Service.Preserves.Basics.{GoodAfter, dead_letter_ne_attempt}

module _ {max : ℕ} (svc : Service) (same : svc.settings.max_redelivery ≡ max) where
  pub claim_in_store-Good :
      (ref : String) (endpoint : Endpoint) (w : World)
      → Good max w.store
      → GoodAfter max (claim_in_store svc ref endpoint w)
  unfolding claim_in_store allocate ◌>>=◌ on_store
  claim_in_store-Good ref endpoint w g =
      claim_message-Good w.store (next_ref "dead-letter" (next_ref "attempt" w.store).1).1
        (claim_request svc ref endpoint (next_ref "attempt" w.store).0
          (next_ref "dead-letter" (next_ref "attempt" w.store).1).0)
        g (sequence-next_ref_ne _ "dead-letter" dead_letter_ne_attempt) refl same

  pub service_claim_message-Good :
      (ref : String) (req : ClaimMessageRequest) (w : World)
      → Good max w.store
      → Ends (GoodAfter max) (service_claim_message svc ref req) w
  unfolding service_claim_message
  service_claim_message-Good ref req w g = Ends-lookup _ _ _ g λ endpoint _.
      Ends-lookup _ _ _ g λ message _. Ends-read _ _ (
        Ends-ensure _ _ _ g λ _. Ends-read _ _ (
          Ends-ensure _ _ _ g λ _. Ends-ensure _ _ _ g λ _.
            let after = claim_in_store-Good message.message_ref endpoint w g in
            Ends-bind _ _ (λ _ _. after) (λ result _. Ends-pure _ after)))
