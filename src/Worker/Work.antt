-- ===== src/Worker/Work.antt =====
-- The worker's runtime (tc-worker/internal/runtime): its state, and the operations that it calls: the
-- server through the client, the executor, the artifact store. `S` is the state of all that is
-- outside; what the reporter of progress and the executor's own calls change is part of it.
use touch_connect.Prelude.{
  ℕ, ℤ, String, Bool, Option, List, [], ◌∷◌, ◌==◌, any, not, ◌≡◌, ◌⊎◌, refl, inl, inr,
  if◌then◌else◌,
}
use touch_connect.Contracts.Messages.{
  ClaimMessageResponse, ClaimNextMessageRequest, ClaimNextMessageResponse, FollowUpMessageRequest,
}
use touch_connect.Contracts.Attempts.{
  CheckpointRequest, CheckpointResponse, ReadbackRequest, ReadbackResponse, RefreshLeaseRequest,
  RefreshLeaseResponse, CompleteAttemptRequest, CompleteAttemptResponse,
}
use touch_connect.Contracts.Governance.{
  ArtifactVersionRequest, ArtifactVersionResponse, ApprovalDecisionRequest,
  ApprovalDecisionResponse, SideEffectExecutionRequest, SideEffectExecutionResponse,
  CompleteSideEffectExecutionRequest, CompleteSideEffectExecutionResponse,
}
use touch_connect.Worker.Errors.{WorkerError}

-- A Go pair of a result and an error.
pub data Returned (A : Type 0) : Type 0 where
  done : A → Returned A
  fails : WorkerError → Returned A

pub Returned-cases :
    {A : Type 0} (a : Returned A) → ((x : A) × (a ≡ done x)) ⊎ ((e : WorkerError) × (a ≡ fails e))
Returned-cases (done x) = inl (x, refl)
Returned-cases (fails e) = inr (e, refl)

pub record MissingField : Type 0 where
  pub name : String
  pub reason : String

pub record ExecutionResult : Type 0 where
  pub outcome : String
  pub summary : String
  pub artifact_refs : List String
  pub used_skill_refs : List String
  pub missing_fields : List MissingField
  pub failure_reason_code : String
  pub stdout : String
  pub stderr : String
  pub exit_code : ℤ
  pub duration_ms : ℤ
  pub follow_up_messages : List FollowUpMessageRequest

abbrev pub execution_outcome_completed : String
execution_outcome_completed = "completed"

abbrev pub execution_outcome_partial_completed : String
execution_outcome_partial_completed = "partial_completed"

abbrev pub execution_outcome_missing_fields : String
execution_outcome_missing_fields = "missing_fields"

abbrev pub execution_outcome_failed : String
execution_outcome_failed = "failed"

abbrev pub execution_outcome_dropped : String
execution_outcome_dropped = "dropped"

abbrev pub Call : Type 0 → Type 0 → Type 0
Call S A = S → Returned A × S

-- ServerClient, WorkerExecutor and ExecutionArtifactStore, as far as the claim path calls them, with
-- the endpoint of the configuration. `execute` is the executor on the claim's input.
pub record Ports (S : Type 0) : Type 0 where
  pub endpoint_ref : String
  pub claim_next_message : ClaimNextMessageRequest → Call S ClaimNextMessageResponse
  pub submit_checkpoint : String → CheckpointRequest → Call S CheckpointResponse
  pub submit_readback : String → ReadbackRequest → Call S ReadbackResponse
  pub refresh_lease : String → RefreshLeaseRequest → Call S RefreshLeaseResponse
  pub complete_attempt : String → CompleteAttemptRequest → Call S CompleteAttemptResponse
  pub register_artifact_version : String → ArtifactVersionRequest → Call S ArtifactVersionResponse
  pub execute : ClaimMessageResponse → Call S ExecutionResult
  pub store_execution_log :
      Option (ClaimMessageResponse → ExecutionResult → Call S ArtifactVersionRequest)
  pub record_approval_decision : String → ApprovalDecisionRequest → Call S ApprovalDecisionResponse
  pub start_side_effect_execution :
      String → SideEffectExecutionRequest → Call S SideEffectExecutionResponse
  pub complete_side_effect_execution :
      String → CompleteSideEffectExecutionRequest → Call S CompleteSideEffectExecutionResponse
  -- What the goroutine of the lease keeper reports when it is stopped.
  pub keeper_error : ClaimMessageResponse → RefreshLeaseResponse → S → Option WorkerError
  pub status_text : ℕ → String  -- http.StatusText
  pub sha256_hex : String → String  -- sha256.Sum256 in hexadecimal

-- The fields of Runtime that change, but for the time of the last activity.
pub record Runtime (S : Type 0) : Type 0 where
  pub outside : S
  pub current_attempt_ref : String
  pub progress_summary : String
  pub readback_submitted : List String

abbrev pub Work : Type 0 → Type 0 → Type 0
Work S A = Runtime S → Returned A × Runtime S

-- delete(m, ref)
unfoldable pub remove : String → List String → List String
remove ref [] = []
remove ref (x ∷ xs) = if x == ref then remove ref xs else x ∷ remove ref xs

module _ {S : Type 0} where
  unfoldable pub pure : {A : Type 0} → A → Work S A
  pure a r = (done a, r)

  unfoldable pub fail : {A : Type 0} → WorkerError → Work S A
  fail e r = (fails e, r)

  abbrev pub continue :
      {A B : Type 0} → (A → Work S B) → Returned A × Runtime S → Returned B × Runtime S
  continue f (done a, r) = f a r
  continue f (fails e, r) = (fails e, r)

  infixl 5 ◌>>=◌ ◌>>◌
  unfoldable pub ◌>>=◌ : {A B : Type 0} → Work S A → (A → Work S B) → Work S B
  unfolding pure fail
  ◌>>=◌ m f r = continue f (m r)

  abbrev pub ◌>>◌ : {A B : Type 0} → Work S A → Work S B → Work S B
  m >> k = m >>= λ _. k

  unfoldable pub call : {A : Type 0} → Call S A → Work S A
  call m r = let (answer, s) = m r.outside in (answer, record r { outside = s })

  unfoldable pub mark_progress : String → String → Work S (Unit {0})
  mark_progress attempt_ref summary r =
      (done tt, record r { current_attempt_ref = attempt_ref; progress_summary = summary })

  unfoldable pub readback_already_submitted : String → Runtime S → Bool
  readback_already_submitted attempt_ref r = any (λ x. x == attempt_ref) r.readback_submitted

  unfoldable pub mark_readback_submitted : String → Work S (Unit {0})
  mark_readback_submitted attempt_ref r =
      (done tt, record r { readback_submitted = attempt_ref ∷ r.readback_submitted })

  unfoldable pub clear_progress : String → Runtime S → Runtime S
  unfolding remove
  clear_progress attempt_ref r =
      if not (r.current_attempt_ref == attempt_ref) then r else record r {
        current_attempt_ref = "";
        progress_summary = "";
        readback_submitted = remove attempt_ref r.readback_submitted;
      }
