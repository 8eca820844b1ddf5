-- ===== src/Service/Approval.antt =====
-- What StartSideEffectExecution asks for before it records an execution.
use touch_connect.Prelude.{String, ◌≡◌, ◌∙◌, refl, inl, inr, Option-cases, Bool-cases, is_some}
use touch_connect.Contracts.Governance.{SideEffectExecutionRequest, SideEffectExecutionResponse}
use touch_connect.Domain.Errors.{Result}
use touch_connect.Domain.Model.{Attempt, ApprovalDecision, SideEffectExecution, Endpoint}
use touch_connect.GoMap.{get}
use touch_connect.Memory.Store.{Store}
use touch_connect.Memory.Refs.{next_ref}
use touch_connect.Memory.Ledger.{save_side_effect_execution, find_effect}
use touch_connect.Service.World.{Service, World, allocate, on_store}
use touch_connect.Service.Rules.{Ends, Outcome, Ends-lookup, Ends-lift, Ends-then, Ends-pure}
use touch_connect.Service.Guards.{
  Live, Approved, require_live_attempt-Ends, require_approved_decision-Ends,
}
use touch_connect.Service.SideEffects.{start_side_effect_execution}

-- The attempt and the approval that an execution started from `s` rests on.
abbrev pub Authorised : Service → Store → String → SideEffectExecutionRequest → Type 0
Authorised svc s attempt_ref req =
    (a : Attempt) × (x : ApprovalDecision) × Live svc s attempt_ref req.endpoint_ref a
    × Approved svc s a req x

-- On success the execution was authorised; on any error no execution is recorded or changed.
abbrev pub Started :
    Service
    → World
    → String
    → SideEffectExecutionRequest
    → Result SideEffectExecutionResponse × World
    → Type 0
Started svc w attempt_ref req =
    Outcome (λ _ _. Authorised svc w.store attempt_ref req)
      (λ v. v.store.side_effects ≡ w.store.side_effects)

allocate-side_effects :
    (kind : String) (w : World)
    → Ends
        (Outcome
          (λ _ v. v.store.side_effects ≡ w.store.side_effects)
          (λ v. v.store.side_effects ≡ w.store.side_effects))
        (allocate kind)
        w
unfolding allocate next_ref
allocate-side_effects kind w = record { holds = refl }

-- An execution that is refused leaves the store as it was.
save_side_effect-refused :
    (x : SideEffectExecution) (w : World)
    → Ends
        (Outcome (λ _ _. Unit {0}) (λ v. v.store.side_effects ≡ w.store.side_effects))
        (on_store (save_side_effect_execution x))
        w
unfolding on_store save_side_effect_execution
save_side_effect-refused x w = elim (Option-cases (find_effect x w.store.side_effects)) [
  | inl fresh ↦ elim (Bool-cases (is_some (get w.store.side_effects x.side_effect_execution_ref))) [
    | inl taken ↦ record { holds = rw (fresh, taken, save_side_effect_execution) refl }
    | inr free ↦ record { holds = rw (fresh, free, save_side_effect_execution) tt }
  ]
  | inr (z, e) ↦ record { holds = rw (e, save_side_effect_execution) tt }
]

-- StartSideEffectExecution succeeds only for an open attempt that the endpoint holds within its
-- lease, with a stored approval of that attempt that is approved, of the requested hash and not
-- expired; where it fails, the recorded executions are as before.
pub start_side_effect_execution-Started :
    (svc : Service) (attempt_ref : String) (req : SideEffectExecutionRequest) (w : World)
    → Started svc w attempt_ref req (start_side_effect_execution svc attempt_ref req w)
unfolding start_side_effect_execution
start_side_effect_execution-Started svc attempt_ref req w =
    (Ends-lift {Q = Started svc w attempt_ref req} _ _ (λ _. refl)
      λ _ _.
        Ends-then (Started svc w attempt_ref req) _ _
          (require_live_attempt-Ends svc w attempt_ref req.endpoint_ref) (λ e v same. rw same refl)
          λ attempt v (live, same). rw same (
            Ends-lookup _ _ _ refl λ (endpoint : Endpoint) _.
              Ends-then (Started svc w attempt_ref req) _ _
                (require_approved_decision-Ends svc w attempt req) (λ e v same. rw same refl)
                λ x v (approved, same). rw same (
                  Ends-then (Started svc w attempt_ref req) _ _
                    (allocate-side_effects "side-effect" w) (λ e v h. h)
                    λ ref v before.
                      Ends-then (Started svc w attempt_ref req) _ _ (save_side_effect-refused _ v)
                        (λ e u h. h ∙ before)
                        λ accepted u _. Ends-pure _ (attempt, x, live, approved)))).holds
