-- ===== src/Service/SelfApproval.antt =====
-- RecordApprovalDecision: who may decide.
use touch_connect.Prelude.{
  String, Bool, true, false, not, ◌&&◌, ◌==◌, ◌!=◌, ◌≡◌, ◌≢◌, ◌⊎◌, refl, inl, inr, arith, eq_iff,
  some, none, Option-cases, Bool-cases, is_empty,
}
use touch_connect.GoMap.{get}
use touch_connect.GoMap.Laws.{get-put_self}
use touch_connect.Contracts.Governance.{ApprovalDecisionRequest, ApprovalDecisionResponse}
use touch_connect.Domain.States.{approval_status_pending}
use touch_connect.Domain.Errors.{Error, Result, ok, ◌>>◌, require, invalid_input, self_approval}
use touch_connect.Domain.Model.{Attempt, ApprovalDecision}
use touch_connect.Domain.Validation.{
  validate_approval_decision, approval_fields_complete, valid_approval_target,
  valid_approval_status,
}
use touch_connect.GoText.{blank}
use touch_connect.Memory.Ledger.{save_approval_decision}
use touch_connect.Service.World.{Service, World, on_store}
use touch_connect.Service.Rules.{
  Ends, Outcome, Ends-lift, Ends-lookup, Ends-found, Ends-then, Ends-pure,
}
use touch_connect.Service.SideEffects.{record_approval_decision, new_approval_decision}

-- Pending, or decided by someone else than who asked.
abbrev pub NotSelf : ApprovalDecisionRequest → Type 0
NotSelf req =
    (req.status ≡ approval_status_pending) ⊎ (req.decided_by_actor_id ≢ req.requested_by_actor_id)

last_passed :
    (a b c d e : Bool) (self : Error) {u : Unit {0}}
    → (require a invalid_input
        >> (require b invalid_input
            >> (require c invalid_input >> (require d invalid_input >> require e self))))
      ≡ ok u
    → e ≡ true
last_passed true true true true true self h = refl
last_passed true true true true false self h = absurd (ground arith)
last_passed true true true false e self h = absurd (ground arith)
last_passed true true false d e self h = absurd (ground arith)
last_passed true false c d e self h = absurd (ground arith)
last_passed false b c d e self h = absurd (ground arith)

not_self :
    (req : ApprovalDecisionRequest)
    → not (
        req.status != approval_status_pending
        && req.decided_by_actor_id == req.requested_by_actor_id)
      ≡ true
    → NotSelf req
not_self req h = elim (Bool-cases (req.status == approval_status_pending)) [
  | inl pending ↦ inl ((eq_iff req.status approval_status_pending).0 pending)
  | inr decided ↦ inr λ same.
      absurd (ground (arith, (eq_iff req.decided_by_actor_id req.requested_by_actor_id).1 same))
]

-- validateApprovalDecision lets no one decide on a request of their own.
validate_approval_decision-NotSelf :
    (req : ApprovalDecisionRequest) {u : Unit {0}}
    → validate_approval_decision req ≡ ok u
    → NotSelf req
unfolding validate_approval_decision
validate_approval_decision-NotSelf req h = not_self req (
    last_passed (approval_fields_complete req) (not (is_empty req.approver_subjects_or_roles))
      (valid_approval_target req.target_type && valid_approval_status req.status)
      (not (req.status != approval_status_pending && blank req.decided_by_actor_id))
      (not (
        req.status != approval_status_pending
        && req.decided_by_actor_id == req.requested_by_actor_id))
      self_approval h)

-- The request is not a decision of one's own, and its approval is stored under its reference, with
-- the status, the hash and the decider of the request.
abbrev pub Decided : ApprovalDecisionRequest → World → Type 0
Decided req v =
    NotSelf req
    × ((d : ApprovalDecision) × (get v.store.approvals req.approval_ref ≡ some d)
        × (d.status ≡ req.status)
        × (d.approval_hash ≡ req.approval_hash)
        × (d.decided_by_actor_id ≡ req.decided_by_actor_id))

-- An approval is stored where none was, or refused.
save_approval_decision-Ends :
    (d : ApprovalDecision) (w : World)
    → Ends
        (Outcome
          (λ _ v.
            (get w.store.approvals d.approval_ref ≡ none)
            × (get v.store.approvals d.approval_ref ≡ some d))
          (λ v. v ≡ w))
        (on_store (save_approval_decision d))
        w
unfolding on_store save_approval_decision
save_approval_decision-Ends d w = elim (Option-cases (get w.store.approvals d.approval_ref)) [
  | inl free ↦ record {
    holds =
        rw (free, save_approval_decision) (refl, get-put_self w.store.approvals d.approval_ref d);
  }
  | inr (x, taken) ↦ record { holds = rw (taken, save_approval_decision) refl }
]

abbrev pub Recorded :
    ApprovalDecisionRequest → World → Result ApprovalDecisionResponse × World → Type 0
Recorded req w =
    Outcome (λ _ v. (get w.store.approvals req.approval_ref ≡ none) × Decided req v) (λ v. v ≡ w)

record_approval_decision-Ends :
    (svc : Service) (attempt_ref : String) (req : ApprovalDecisionRequest) (w : World)
    → Ends (Recorded req w) (record_approval_decision svc attempt_ref req) w
unfolding record_approval_decision new_approval_decision
record_approval_decision-Ends svc attempt_ref req w =
    Ends-lift _ _ (λ _. refl)
      λ u valid. Ends-lookup _ _ _ refl λ (attempt : Attempt) _.
        Ends-found _ _ _ refl λ expires_at _.
          Ends-then (Recorded req w) _ _ (save_approval_decision-Ends _ w) (λ e v same. same)
            λ _ v (free, stored). Ends-pure _ (
              free,
              (
                validate_approval_decision-NotSelf req valid,
                (new_approval_decision svc req attempt expires_at, stored, refl, refl, refl),
              ),
            )

-- RecordApprovalDecision succeeds only where the approval reference is new and the decision is pending
-- or decided by someone else than who asked for it, and then stores it with the status, hash and decider
-- of the request; where it fails, nothing changes.
pub record_approval_decision-Recorded :
    (svc : Service) (attempt_ref : String) (req : ApprovalDecisionRequest) (w : World)
    → Recorded req w (record_approval_decision svc attempt_ref req w)
record_approval_decision-Recorded svc attempt_ref req w =
    (record_approval_decision-Ends svc attempt_ref req w).holds
