-- ===== src/Worker/Loop.antt =====
-- tc-worker/internal/runtime/loop.go: ProcessNext and the loop around it. The rounds say what the
-- context and the heartbeats report when the loop looks: what is outside of the loop's own steps.
pub mod Bound
use touch_connect.Prelude.{
  ℕ, ◌+◌, ℤ, pos, negsuc, String, Bool, true, false, not, ◌==◌, ◌||◌, ◌&&◌, ltb, leb, if◌then◌else◌,
  Option, none, some, List, [], ◌∷◌,
}
use touch_connect.Contracts.Messages.{ClaimMessageResponse, ClaimNextMessageResponse}
use touch_connect.Worker.Errors.{WorkerError, failure, recoverable_attempt_drop}
use touch_connect.Worker.Work.{
  Ports, Work, Runtime, Returned, done, fails, pure, call, execution_outcome_completed,
  execution_outcome_partial_completed, execution_outcome_missing_fields, execution_outcome_failed,
  execution_outcome_dropped, ◌>>=◌, ◌>>◌,
}
use touch_connect.Worker.Canonical.{task_ref_for_claim}
use touch_connect.Worker.Claim.{acknowledge_claim, finish_claim_after_ack}
use touch_connect.Worker.Lease.{second}

-- Go's int and time.Duration may be negative.
pub record LoopOptions : Type 0 where
  pub poll_interval : ℤ
  pub heartbeat_interval : ℤ
  pub max_messages : ℤ

abbrev pub is_zero : ℤ → Bool
is_zero (pos n) = leb n 0
is_zero (negsuc n) = false

abbrev pub is_negative : ℤ → Bool
is_negative (pos n) = false
is_negative (negsuc n) = true

unfoldable pub validated : LoopOptions → Returned LoopOptions
validated o =
    let polled : LoopOptions =
      if is_zero o.poll_interval then record o { poll_interval = pos second } else o in
    let beaten : LoopOptions =
      if is_zero polled.heartbeat_interval
      then record polled { heartbeat_interval = pos 10000000000 }
      else polled in
    if is_negative beaten.poll_interval
      || is_negative beaten.heartbeat_interval
      || is_negative beaten.max_messages
    then fails (failure "worker loop options must not be negative")
    else done beaten

pub record ProcessResult : Type 0 where
  pub empty : Bool
  pub message_ref : String
  pub attempt_ref : String
  pub task_ref : String
  pub correlation_ref : String
  pub outcome : String
  pub completed : Bool
  pub blocked : Bool
  pub failed : Bool
  pub dropped : Bool
  pub drop_reason : String

abbrev pub empty_result : ProcessResult
empty_result = record {
  empty = true;
  message_ref = "";
  attempt_ref = "";
  task_ref = "";
  correlation_ref = "";
  outcome = "";
  completed = false;
  blocked = false;
  failed = false;
  dropped = false;
  drop_reason = "";
}

module _ {S : Type 0} (p : Ports S) where
  unfoldable pub processed_result : ClaimMessageResponse → String → ProcessResult
  processed_result claim outcome = record {
    empty = false;
    message_ref = claim.message_ref;
    attempt_ref = claim.attempt_ref;
    task_ref = task_ref_for_claim p claim;
    correlation_ref = claim.correlation_ref;
    outcome = outcome;
    completed =
        outcome == execution_outcome_completed || outcome == execution_outcome_partial_completed;
    blocked = outcome == execution_outcome_missing_fields;
    failed = outcome == execution_outcome_failed;
    dropped = false;
    drop_reason = "";
  }

  unfoldable pub dropped_result : ClaimMessageResponse → String → ProcessResult
  dropped_result claim reason = record {
    empty = false;
    message_ref = claim.message_ref;
    attempt_ref = claim.attempt_ref;
    task_ref = task_ref_for_claim p claim;
    correlation_ref = claim.correlation_ref;
    outcome = execution_outcome_dropped;
    completed = false;
    blocked = false;
    failed = false;
    dropped = true;
    drop_reason = reason;
  }

  unfoldable pub process_claim : ClaimMessageResponse → Work S ProcessResult
  unfolding processed_result dropped_result
  process_claim claim r =
      let finished = finish_claim_after_ack p claim r in
      elim finished.0 [
        | done outcome ↦ (done (processed_result claim outcome), finished.1)
        | fails e ↦ elim (recoverable_attempt_drop p.status_text e) [
          | none ↦ (fails e, finished.1)
          | some drop ↦ (done (dropped_result claim drop.code), finished.1)
        ]
      ]

  -- next.Empty || next.Claim == nil
  unfoldable pub process_answer : ClaimNextMessageResponse → Work S ProcessResult
  unfolding process_claim
  process_answer next = if next.empty then pure empty_result else elim next.claim [
    | none ↦ pure empty_result
    | some claim ↦ (do acknowledge_claim p claim; process_claim claim)
  ]

  unfoldable pub process_next : Work S ProcessResult
  unfolding process_answer
  process_next = do
    next ← call (p.claim_next_message (record { endpoint_ref = p.endpoint_ref }))
    process_answer next

-- What a look at the context and the heartbeat's channel finds.
pub data Look : Type 0 where
  quiet : Look
  stopped : Look
  heartbeat_failed : WorkerError → Look

-- Before a round, and while the loop waits for the next poll if the round finds nothing.
pub record Round : Type 0 where
  pub before : Look
  pub waiting : Look

pub data LoopEnd : Type 0 where
  returns_nil : LoopEnd
  returns_error : WorkerError → LoopEnd
  runs_on : LoopEnd

unfoldable pub max_messages_reached : ℕ → ℤ → Bool
max_messages_reached processed (pos max) = ltb 0 max && leb max processed
max_messages_reached processed (negsuc max) = false

module _ {S : Type 0} (p : Ports S) (options : LoopOptions) where
  -- The end, the results that were logged, and the state. Where the rounds end the loop runs on.
  unfoldable pub run_processing_loop :
      List Round → ℕ → Runtime S → LoopEnd × List ProcessResult × Runtime S
  run_processing_loop [] processed r = (runs_on, [], r)
  run_processing_loop (round ∷ rounds) processed r = elim round.before [
    | stopped ↦ (returns_nil, [], r)
    | heartbeat_failed e ↦ (returns_error e, [], r)
    | quiet ↦
        let next = process_next p r in
        elim next.0 [
          | fails e ↦ (returns_error e, [], next.1)
          | done result ↦ elim result.empty [
            | true ↦ elim round.waiting [
              | heartbeat_failed e ↦ (returns_error e, [], next.1)
              | stopped ↦ run_processing_loop rounds processed next.1
              | quiet ↦ run_processing_loop rounds processed next.1
            ]
            | false ↦
                elim (not result.dropped
                  && max_messages_reached (processed + 1) options.max_messages) [
                    | true ↦ (returns_nil, result ∷ [], next.1)
                    | false ↦
                        let rest = run_processing_loop rounds (processed + 1) next.1 in
                        (rest.0, result ∷ rest.1, rest.2)
                  ]
          ]
        ]
  ]
