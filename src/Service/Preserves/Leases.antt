-- ===== src/Service/Preserves/Leases.antt =====
-- SubmitReadback and RefreshLease: the invariant through the holder's own writes.
use touch_connect.Prelude.{ℕ, String, refl, arith, eq_iff}
use touch_connect.Contracts.Attempts.{ReadbackRequest, RefreshLeaseRequest}
use touch_connect.Domain.Model.{Readback}
use touch_connect.Memory.Refs.{sequence}
use touch_connect.Memory.Ledger.{save_readback, get_attempt}
use touch_connect.Memory.Invariant.Held.{write_attempt-Good}
use touch_connect.Memory.Invariant.Fresh.{Good}
use touch_connect.Service.World.{Service, World, on_store}
use touch_connect.Service.Rules.{Ends, Ends-lookup, Ends-ensure, Ends-lift, Ends-then, Ends-pure}
use touch_connect.Service.Rules.Writes.{Ends-update_attempt}
use touch_connect.Service.Guards.{require_live_attempt-Ends}
use touch_connect.Service.Attempts.{submit_readback, refresh_lease}
use touch_connect.Service.Preserves.Basics.{
  GoodAfter, Keeps, Ends-Keeps, on_store-Keeps, allocate-Keeps,
}

save_readback-Keeps : (r : Readback) (w : World) → Ends (Keeps w) (on_store (save_readback r)) w
unfolding save_readback sequence
save_readback-Keeps r w =
    on_store-Keeps _ w (record { messages_same = refl; attempts_same = refl; sequence_same = refl })

module _ {max : ℕ} (svc : Service) (ref : String) (w : World) (g : Good max w.store) where
  pub submit_readback-Good :
      (req : ReadbackRequest) → Ends (GoodAfter max) (submit_readback svc ref req) w
  unfolding submit_readback
  submit_readback-Good req =
      Ends-lift _ _ (λ _. g)
        λ _ _.
          Ends-then (GoodAfter max) _ _ (require_live_attempt-Ends svc w ref req.endpoint_ref)
            (λ e v same. rw same g)
            λ attempt v (live, same). rw same (
              Ends-Keeps _ _ g
                (allocate-Keeps "readback" w (ground (arith, eq_iff "readback" "attempt")))
                λ _ u _ good.
                  Ends-Keeps _ _ good (save_readback-Keeps _ u) λ _ _ _ last. Ends-pure _ last)

  pub refresh_lease-Good :
      (req : RefreshLeaseRequest) → Ends (GoodAfter max) (refresh_lease svc ref req) w
  unfolding refresh_lease get_attempt
  refresh_lease-Good req = Ends-lookup _ _ _ g λ a e. Ends-ensure _ _ _ g λ _.
      Ends-ensure _ _ _ g λ _. Ends-update_attempt _ _ g λ x ex.
        Ends-pure _ (write_attempt-Good _ a g (cc (g.inv.attempt_keyed ref a e)) refl (λ o. o))
