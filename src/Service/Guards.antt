-- ===== src/Service/Guards.antt =====
-- What the guards of requireLiveAttempt and requireApprovedDecision let through.
use touch_connect.Prelude.{◌<◌, String, Bool, true, false, not, ◌≡◌, ◌⊎◌, refl, some, eq_iff, arith}
use touch_connect.Contracts.Governance.{SideEffectExecutionRequest}
use touch_connect.Domain.States.{approval_status_approved}
use touch_connect.Domain.Model.{Attempt, ApprovalDecision}
use touch_connect.GoMap.{get}
use touch_connect.Memory.Store.{Store}
use touch_connect.Memory.Ledger.{get_attempt, get_approval_decision}
use touch_connect.Service.AttemptState.{attempt_closed}
use touch_connect.Service.World.{Service, World}
use touch_connect.Service.World
use touch_connect.Service.Rules.{Ends, Outcome, Ends-lookup, Ends-ensure, Ends-pure}
use touch_connect.Service.Attempts.{require_live_attempt}
use touch_connect.Service.SideEffects.{require_approved_decision}

-- The attempt is stored, open, held by the endpoint and within its lease.
pub record Live (svc : Service) (s : Store) (attempt_ref endpoint_ref : String) (a : Attempt)
    : Type 0 where
  pub stored : get s.attempts attempt_ref ≡ some a
  pub held : a.endpoint_ref ≡ endpoint_ref
  pub still_open : attempt_closed a.state ≡ false
  pub in_lease : World.lease_expired svc.settings a ≡ false

-- The approval is stored, granted for the attempt, of the hash that is asked for, and not run out.
pub record Approved (svc : Service) (s : Store) (attempt : Attempt)
    (req : SideEffectExecutionRequest) (x : ApprovalDecision) : Type 0 where
  pub recorded : get s.approvals req.approval_ref ≡ some x
  pub for_attempt : x.attempt_ref ≡ attempt.attempt_ref
  pub granted : x.status ≡ approval_status_approved
  pub in_time : (x.expires_at ≡ 0) ⊎ (svc.settings.now < x.expires_at)
  pub of_hash : x.approval_hash ≡ req.approval_hash

pub not_holds : (b : Bool) → not b ≡ true → b ≡ false
not_holds true h = absurd (ground arith)
not_holds false h = refl

module _ (svc : Service) (w : World) where
  pub require_live_attempt-Ends :
      (attempt_ref endpoint_ref : String)
      → Ends
          (Outcome (λ a v. Live svc w.store attempt_ref endpoint_ref a × (v ≡ w)) (λ v. v ≡ w))
          (require_live_attempt svc attempt_ref endpoint_ref)
          w
  unfolding require_live_attempt get_attempt
  require_live_attempt-Ends attempt_ref endpoint_ref = Ends-lookup _ _ _ refl λ a e.
      Ends-ensure _ _ _ refl λ mine. Ends-ensure _ _ _ refl λ alive. Ends-pure a (
        record {
          stored = e;
          held = ground (arith, eq_iff a.endpoint_ref endpoint_ref);
          still_open = ground arith;
          in_lease = not_holds _ alive;
        },
        refl,
      )

  pub require_approved_decision-Ends :
      (attempt : Attempt) (req : SideEffectExecutionRequest)
      → Ends
          (Outcome (λ x v. Approved svc w.store attempt req x × (v ≡ w)) (λ v. v ≡ w))
          (require_approved_decision svc attempt req)
          w
  unfolding require_approved_decision get_approval_decision
  require_approved_decision-Ends attempt req = Ends-lookup _ _ _ refl λ x e.
      Ends-ensure _ _ _ refl λ mine. Ends-ensure _ _ _ refl λ granted.
        Ends-ensure _ _ _ refl λ timely. Ends-ensure _ _ _ refl λ same. Ends-pure x (
          record {
            recorded = e;
            for_attempt = ground (arith, eq_iff x.attempt_ref attempt.attempt_ref);
            granted = ground (arith, eq_iff x.status approval_status_approved);
            in_time = ground arith;
            of_hash = ground (arith, eq_iff x.approval_hash req.approval_hash);
          },
          refl,
        )
