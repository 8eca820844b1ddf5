-- ===== src/Service/Preserves/Ingress.antt =====
-- IngressMessage and the invariant of the store.
use touch_connect.Prelude.{
  ℕ, ◌≤◌, String, ◌==◌, ◌||◌, ◌≡◌, ◌≢◌, refl, inl, inr, arith, none, eq_iff, Bool-cases,
  Option-cases, any,
}
use touch_connect.GoMap.{get}
use touch_connect.Contracts.Policy.{QualityDecision}
use touch_connect.Contracts.Messages.{MessageIngressRequest}
use touch_connect.Domain.Model.{Message}
use touch_connect.Memory.Store.{Store}
use touch_connect.Memory.Refs.{sequence}
use touch_connect.Memory.Claim.{slice_at}
use touch_connect.Memory.Ledger.{save_message, save_quality_decision}
use touch_connect.Memory.Invariant.{Inv, NoOpen}
use touch_connect.Memory.Invariant.Steps.{write_message-Inv_idle}
use touch_connect.Memory.Invariant.Fresh.{Good}
use touch_connect.Service.World.{Service, World, on_store}
use touch_connect.Service.Rules.{Ends, Ends-read, Ends-ensure, Ends-lift, Ends-bind, Ends-pure}
use touch_connect.Service.Ingress.{
  ingress_message, accept_message, publish_accepted, ref_or_allocate, accepted_message,
}
use touch_connect.Service.Preserves.Basics.{
  GoodAfter, Keeps, SameLedger-refl, SameLedger-if, Ends-Keeps, on_store-Keeps, allocate-Keeps,
  publish_with-Keeps,
}

-- No attempt is open at a message that is not stored.
missing-NoOpen :
    {max : ℕ} {s : Store} (k : String) → Inv max s → get s.messages k ≡ none → NoOpen s k
missing-NoOpen k v e j a ea em = ground (arith, v.owned j a)

save_message-Good :
    {max : ℕ} (m : Message) (w : World)
    → m.redelivery_count ≤ max
    → Good max w.store
    → Ends (GoodAfter max) (on_store (save_message m)) w
unfolding on_store save_message
save_message-Good m w below g = elim (Option-cases (get w.store.messages m.message_ref)) [
  | inl e ↦ record {
    holds = rw e (
        unfold sequence in
        record {
          inv =
              write_message-Inv_idle m.message_ref m g.inv (missing-NoOpen m.message_ref g.inv e)
                refl below;
          fresh = g.fresh;
        });
  }
  | inr (x, e) ↦ record { holds = rw e g }
]

save_quality_decision-Keeps :
    (d : QualityDecision) (w : World) → Ends (Keeps w) (on_store (save_quality_decision d)) w
unfolding save_quality_decision sequence
save_quality_decision-Keeps d w = on_store-Keeps _ w (
    SameLedger-if (d.quality_decision_ref == "" || d.message_ref == "") _ _
      (SameLedger-refl w.store)
      (SameLedger-if
        (any (λ (x : QualityDecision). x.quality_decision_ref == d.quality_decision_ref)
          (slice_at w.store.quality_decisions d.message_ref))
        _ _ (SameLedger-refl w.store)
        (record { messages_same = refl; attempts_same = refl; sequence_same = refl })))

publish_accepted-Keeps :
    (svc : Service) (m : Message) (w : World) → Ends (Keeps w) (publish_accepted svc m) w
unfolding publish_accepted
publish_accepted-Keeps svc m w = elim (Option-cases svc.delivery) [
  | inl e ↦ rw e (Ends-pure tt (SameLedger-refl w.store))
  | inr (adapter, e) ↦ rw e (publish_with-Keeps adapter m w)
]

ref_or_allocate-Keeps :
    (ref kind : String) (w : World) → kind ≢ "attempt" → Ends (Keeps w) (ref_or_allocate ref kind) w
unfolding ref_or_allocate
ref_or_allocate-Keeps ref kind w other = elim (Bool-cases (ref == "")) [
  | inl e ↦ rw e (allocate-Keeps kind w other)
  | inr e ↦ rw e (Ends-pure ref (SameLedger-refl w.store))
]

module _ {max : ℕ} (svc : Service) where
  accept_message-Good :
      (m : Message) (d : QualityDecision) (w : World)
      → m.redelivery_count ≤ max
      → Good max w.store
      → Ends (GoodAfter max) (accept_message svc m d) w
  unfolding accept_message
  accept_message-Good m d w below g =
      Ends-Keeps _ _ g (save_quality_decision-Keeps d w) λ _ v _ good. Ends-ensure _ _ _ good λ _.
        let saved = save_message-Good m v below good in
        Ends-bind _ _ (λ _ _. saved.holds)
          λ _ _.
            Ends-Keeps _ _ saved.holds (publish_accepted-Keeps svc m _)
              λ _ _ _ last. Ends-pure _ last

  pub ingress_message-Good :
      (req : MessageIngressRequest) (w : World)
      → Good max w.store
      → Ends (GoodAfter max) (ingress_message svc req) w
  unfolding ingress_message accepted_message
  ingress_message-Good req w g =
      Ends-lift _ _ (λ _. g)
        λ _ _. Ends-read _ _ (
          Ends-ensure _ _ _ g λ _.
            Ends-Keeps _ _ g
              (ref_or_allocate-Keeps req.message_ref "message" w
                (ground (arith, eq_iff "message" "attempt")))
              λ ref v _ good.
                Ends-Keeps _ _ good
                  (allocate-Keeps "delivery" v (ground (arith, eq_iff "delivery" "attempt")))
                  λ delivery u _ good'.
                    Ends-Keeps _ _ good'
                      (allocate-Keeps "quality-decision" u
                        (ground (arith, eq_iff "quality-decision" "attempt")))
                      λ decision z _ last. accept_message-Good _ _ z (omega arith) last)
