-- ===== src/Service/Preserves/ClaimsNext.antt =====
-- ClaimNextMessage, with and without a delivery adapter.
use touch_connect.Prelude.{
  ℕ, String, not, ◌||◌, ◌≡◌, refl, Option, none, some, inl, inr, Option-cases, Bool-cases,
}
use touch_connect.Contracts.Messages.{ClaimNextMessageRequest}
use touch_connect.Domain.Errors.{Error, Result, ok, err}
use touch_connect.Domain.Model.{Endpoint, Message, ClaimResult}
use touch_connect.Exec.{Exec}
use touch_connect.Memory.Reconcile.Preserves.{reconcile_expired_claims-Good}
use touch_connect.Memory.ClaimNext.Numbered.{claim_next_message-Good}
use touch_connect.Memory.Invariant.Fresh.{Good}
use touch_connect.Service.World.{
  Service, World, DeliveryAdapter, DeliveryRecord, DeliveryFetchRequest, nak_with, fetch_with,
}
use touch_connect.Service.Lookups.{service_claimable, service_dependencies_completed}
use touch_connect.Service.Rules.{
  Ends, Ends-lookup, Ends-read, Ends-ensure, Ends-bind, Ends-pure, Ends-fail,
}
use touch_connect.Service.Claims.{
  claim_in_store, reconcile_now, claim_next_in_store, claim_next_without_adapter,
  claim_next_with_adapter, claim_fetched, claim_delivered, settle_delivery, attempt_step, or_joined,
  join_error, is_dead_lettered, service_claim_next_message,
}
use touch_connect.Service.Preserves.Basics.{
  GoodAfter, Keeps, SameLedger-refl, Ends-Keeps, ack_with-Keeps,
}
use touch_connect.Service.Preserves.Claims.{claim_in_store-Good}

nak_with-Keeps :
    (adapter : DeliveryAdapter) (ref reason : String) (w : World)
    → Ends (Keeps w) (nak_with adapter ref reason) w
unfolding nak_with
nak_with-Keeps adapter ref reason w = record { holds = SameLedger-refl w.store }

fetch_with-Keeps :
    (adapter : DeliveryAdapter) (request : DeliveryFetchRequest) (w : World)
    → Ends (Keeps w) (fetch_with adapter request) w
unfolding fetch_with
fetch_with-Keeps adapter request w = record { holds = SameLedger-refl w.store }

join_error-Keeps :
    (e : Error) (w : World) (r : Result (Unit {0}) × World) → Keeps w r → Keeps w (join_error e r)
join_error-Keeps e w (ok u, v) h = h
join_error-Keeps e w (err x, v) h = h

or_joined-Keeps :
    (e : Error) (m : Exec World (Unit {0})) (w : World)
    → Ends (Keeps w) m w
    → Ends (Keeps w) (or_joined e m) w
or_joined-Keeps e m w h = record { holds = join_error-Keeps e w (m w) h.holds }

module _ {max : ℕ} (svc : Service) where
  settle_delivery-Good :
      (adapter : DeliveryAdapter) (d : DeliveryRecord) (endpoint : Endpoint)
      (r : Result ClaimResult) (w : World)
      → Good max w.store
      → Ends (GoodAfter max) (settle_delivery svc adapter d endpoint r) w
  unfolding settle_delivery
  settle_delivery-Good adapter d endpoint (ok result) w g = Ends-pure _ g
  settle_delivery-Good adapter d endpoint (err e) w g = elim (Bool-cases (is_dead_lettered e)) [
    | inl dead ↦ rw dead (
        Ends-Keeps _ _ g (or_joined-Keeps e _ w (ack_with-Keeps adapter d.delivery_ref w))
          λ _ _ _ last. Ends-pure _ last)
    | inr live ↦ rw live (
        Ends-Keeps _ _ g (or_joined-Keeps e _ w (nak_with-Keeps adapter d.delivery_ref _ w))
          λ _ _ _ last. Ends-fail _ last)
  ]

  module _ (same : svc.settings.max_redelivery ≡ max) (endpoint : Endpoint) where
    claim_delivered-Good :
        (adapter : DeliveryAdapter) (d : DeliveryRecord) (o : Option Message) (w : World)
        → Good max w.store
        → Ends (GoodAfter max) (claim_delivered svc adapter d endpoint o) w
    unfolding claim_delivered
    claim_delivered-Good adapter d none w g =
        Ends-Keeps _ _ g (nak_with-Keeps adapter d.delivery_ref _ w) λ _ _ _ last. Ends-fail _ last
    claim_delivered-Good adapter d (some message) w g = Ends-read _ _ (
        Ends-read _ _
          (elim (Bool-cases (
            not (service_claimable svc.settings w.store message endpoint)
            || not (service_dependencies_completed w.store message))) [
              | inl unfit ↦ rw unfit (
                  Ends-Keeps _ _ g (nak_with-Keeps adapter d.delivery_ref _ w)
                    λ _ _ _ last. Ends-pure _ last)
              | inr fit ↦
                  let after = claim_in_store-Good svc same d.message_ref endpoint w g in
                  rw fit (
                    Ends-bind (attempt_step (claim_in_store svc d.message_ref endpoint)) _
                      (λ _ _. after) λ r _. settle_delivery-Good adapter d endpoint r _ after)
            ]))

    claim_fetched-Good :
        (adapter : DeliveryAdapter) (o : Option DeliveryRecord) (w : World)
        → Good max w.store
        → Ends (GoodAfter max) (claim_fetched svc adapter endpoint o) w
    unfolding claim_fetched
    claim_fetched-Good adapter none w g = Ends-pure _ g
    claim_fetched-Good adapter (some d) w g = Ends-read _ _ (claim_delivered-Good adapter d _ w g)

    claim_next_with_adapter-Good :
        (adapter : DeliveryAdapter) (w : World)
        → Good max w.store
        → Ends (GoodAfter max) (claim_next_with_adapter svc adapter endpoint) w
    unfolding claim_next_with_adapter
    claim_next_with_adapter-Good adapter w g =
        Ends-Keeps _ _ g (fetch_with-Keeps adapter _ w)
          λ o v _ good. claim_fetched-Good adapter o v good

    claim_next_in_store-Good :
        (w : World) → Good max w.store → GoodAfter max (claim_next_in_store svc endpoint w)
    unfolding claim_next_in_store
    claim_next_in_store-Good w g = claim_next_message-Good _ refl refl same w.store g

    claim_next_without_adapter-Good :
        (w : World)
        → Good max w.store
        → Ends (GoodAfter max) (claim_next_without_adapter svc endpoint) w
    unfolding claim_next_without_adapter
    claim_next_without_adapter-Good w g =
        let after = claim_next_in_store-Good w g in
        Ends-bind _ _ (λ _ _. after) (λ r _. Ends-pure _ after)

  reconcile_now-Good : (w : World) → Good max w.store → GoodAfter max (reconcile_now svc w)
  unfolding reconcile_now
  reconcile_now-Good w g = reconcile_expired_claims-Good svc.settings.now w.store g

  pub service_claim_next_message-Good :
      svc.settings.max_redelivery ≡ max
      → (req : ClaimNextMessageRequest) (w : World) → Good max w.store
      → Ends (GoodAfter max) (service_claim_next_message svc req) w
  unfolding service_claim_next_message
  service_claim_next_message-Good same req w g = Ends-lookup _ _ _ g λ (endpoint : Endpoint) _.
      Ends-ensure _ _ _ g λ _. Ends-ensure _ _ _ g λ _.
        let swept = reconcile_now-Good w g in
        Ends-bind _ _ (λ _ _. swept)
          λ _ _. elim (Option-cases svc.delivery) [
            | inl e ↦ rw e (claim_next_without_adapter-Good same endpoint _ swept)
            | inr (adapter, e) ↦ rw e (claim_next_with_adapter-Good same endpoint adapter _ swept)
          ]
