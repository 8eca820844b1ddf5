-- ===== src/Service/Fencing.antt =====
-- What a worker may do with an attempt that is not, or no longer, its own.
use touch_connect.Prelude.{String, ◌≡◌, ◌⊎◌, refl, inl, inr, arith, eq_iff}
use touch_connect.Contracts.Attempts.{CheckpointRequest, ReadbackRequest, RefreshLeaseRequest}
use touch_connect.Contracts.Governance.{ArtifactVersionRequest, SideEffectExecutionRequest}
use touch_connect.Domain.Errors.{Error, Result, err}
use touch_connect.Domain.Model.{Attempt}
use touch_connect.Exec.{Exec, ◌>>=◌}
use touch_connect.Memory.Ledger.{get_attempt}
use touch_connect.Service.World.{Service, World}
use touch_connect.Service.Rules.{Ends, Ends-lift, Ends-lookup, Ends-ensure, Ends-then}
use touch_connect.Service.Guards.{Live, not_holds, require_live_attempt-Ends}
use touch_connect.Service.Attempts.{
  require_live_attempt, submit_checkpoint, submit_readback, refresh_lease,
}
use touch_connect.Service.Artifacts.{register_artifact_version}
use touch_connect.Service.SideEffects.{start_side_effect_execution}

-- The attempt is stored, open, held by the endpoint and within its lease, or the operation fails and
-- changes nothing: neither the store nor the calls of the delivery adapter.
abbrev pub Fenced : {B : Type 0} → Service → String → String → World → Result B × World → Type 0
Fenced svc ref endpoint_ref w r =
    ((a : Attempt) × Live svc w.store ref endpoint_ref a) ⊎ ((e : Error) × (r ≡ (err e, w)))

module _ {B : Type 0} (svc : Service) (ref endpoint_ref : String) (w : World) where
  -- Whatever follows the guard.
  after_guard :
      (f : Attempt → Exec World B)
      → Ends (Fenced svc ref endpoint_ref w) (require_live_attempt svc ref endpoint_ref >>= f) w
  after_guard f =
      Ends-then (Fenced svc ref endpoint_ref w) _ _
        (require_live_attempt-Ends svc w ref endpoint_ref) (λ e v same. inr (e, rw same refl))
        λ a v (live, same). record { holds = inl (a, live) }

module _ (svc : Service) (ref : String) (w : World) where
  checkpoint-Fenced :
      (req : CheckpointRequest)
      → Fenced svc ref req.endpoint_ref w (submit_checkpoint svc ref req w)
  unfolding submit_checkpoint
  checkpoint-Fenced req =
      (Ends-lift {Q = Fenced svc ref req.endpoint_ref w} _ _ (λ e. inr (e, refl))
        λ _ _. after_guard svc ref req.endpoint_ref w _).holds

  readback-Fenced :
      (req : ReadbackRequest) → Fenced svc ref req.endpoint_ref w (submit_readback svc ref req w)
  unfolding submit_readback
  readback-Fenced req =
      (Ends-lift {Q = Fenced svc ref req.endpoint_ref w} _ _ (λ e. inr (e, refl))
        λ _ _. after_guard svc ref req.endpoint_ref w _).holds

  artifact-Fenced :
      (req : ArtifactVersionRequest)
      → Fenced svc ref req.endpoint_ref w (register_artifact_version svc ref req w)
  unfolding register_artifact_version
  artifact-Fenced req =
      (Ends-lift {Q = Fenced svc ref req.endpoint_ref w} _ _ (λ e. inr (e, refl))
        λ _ _. after_guard svc ref req.endpoint_ref w _).holds

  side_effect-Fenced :
      (req : SideEffectExecutionRequest)
      → Fenced svc ref req.endpoint_ref w (start_side_effect_execution svc ref req w)
  unfolding start_side_effect_execution
  side_effect-Fenced req =
      (Ends-lift {Q = Fenced svc ref req.endpoint_ref w} _ _ (λ e. inr (e, refl))
        λ _ _. after_guard svc ref req.endpoint_ref w _).holds

  refresh-Ends :
      (req : RefreshLeaseRequest)
      → Ends (Fenced svc ref req.endpoint_ref w) (refresh_lease svc ref req) w
  unfolding refresh_lease get_attempt
  refresh-Ends req = Ends-lookup _ _ _ (inr (_, refl)) λ (a : Attempt) e.
      Ends-ensure _ _ _ (inr (_, refl)) λ mine. Ends-ensure _ _ _ (inr (_, refl)) λ alive. record {
        holds = inl (
          a,
          record {
            stored = e;
            held = ground (arith, eq_iff a.endpoint_ref req.endpoint_ref);
            still_open = ground arith;
            in_lease = not_holds _ alive;
          },
        );
      }

-- A checkpoint, a readback, an artifact version, a side effect and a lease refresh are fenced: each of
-- them, called with an attempt and an endpoint, either finds the attempt stored, open, held by that
-- endpoint and within its lease, or fails and changes neither the store nor the calls of the adapter.
pub holder_operations-Fenced :
    (svc : Service) (ref : String) (w : World)
    → ((req : CheckpointRequest)
        → Fenced svc ref req.endpoint_ref w (submit_checkpoint svc ref req w))
      × ((req : ReadbackRequest)
          → Fenced svc ref req.endpoint_ref w (submit_readback svc ref req w))
      × ((req : ArtifactVersionRequest)
          → Fenced svc ref req.endpoint_ref w (register_artifact_version svc ref req w))
      × ((req : SideEffectExecutionRequest)
          → Fenced svc ref req.endpoint_ref w (start_side_effect_execution svc ref req w))
      × ((req : RefreshLeaseRequest)
          → Fenced svc ref req.endpoint_ref w (refresh_lease svc ref req w))
holder_operations-Fenced svc ref w = (
  checkpoint-Fenced svc ref w,
  readback-Fenced svc ref w,
  artifact-Fenced svc ref w,
  side_effect-Fenced svc ref w,
  λ req. (refresh-Ends svc ref w req).holds,
)
