-- ===== src/Worker/Completed.antt =====
-- What the worker reports as completed, the server has accepted.
use mathlib.Core.Path.{subst}
use touch_connect.Prelude.{
  String, Bool, true, false, ◌==◌, ◌||◌, ◌≡◌, refl, ◌∙◌, ap, inl, inr, arith, Bool-cases,
  Option-cases,
}
use touch_connect.Contracts.Messages.{ClaimMessageResponse, ClaimNextMessageResponse}
use touch_connect.Contracts.Attempts.{
  CompleteAttemptRequest, CompleteAttemptResponse, RefreshLeaseResponse,
}
use touch_connect.Worker.Errors.{recoverable_attempt_drop}
use touch_connect.Worker.Work.{
  Ports, Work, Runtime, Returned, Returned-cases, done, fails, ExecutionResult, pure, call,
  continue, execution_outcome_completed, execution_outcome_partial_completed,
  execution_outcome_missing_fields, execution_outcome_failed, ◌>>=◌, ◌>>◌,
}
use touch_connect.Worker.Canonical.{is_canonical_scenario, complete_canonical_claim}
use touch_connect.Worker.Claim.{
  complete_claim, finish_accepted_claim, work_on_claim, settle, finish_claim_after_ack,
}
use touch_connect.Worker.Loop.{
  ProcessResult, empty_result, process_claim, process_answer, process_next, processed_result,
  dropped_result,
}

module _ {S : Type 0} where
  continue-eq-done :
      {A B : Type 0} (o : Returned A × Runtime S) (f : A → Work S B) {b : B}
      → (continue f o).0 ≡ done b
      → (a : A) × (o.0 ≡ done a) × ((f a o.1).0 ≡ done b)
  continue-eq-done (done a, r) f h = (a, refl, h)
  continue-eq-done (fails e, r) f h = cc

  -- Inversion of a bind that returns.
  >>=-eq-done :
      {A B : Type 0} (m : Work S A) (f : A → Work S B) (r : Runtime S) {b : B}
      → ((m >>= f) r).0 ≡ done b
      → (a : A) × ((m r).0 ≡ done a) × ((f a (m r).1).0 ≡ done b)
  unfolding ◌>>=◌
  >>=-eq-done m f r h = continue-eq-done (m r) f h

  then_pure :
      {A : Type 0} (m : Work S A) (r : Runtime S) (x y : String)
      → ((m >> pure x) r).0 ≡ done y
      → ((a : A) × ((m r).0 ≡ done a)) × (x ≡ y)
  unfolding pure
  then_pure m r x y h = let (a, ran, last) = >>=-eq-done m (λ _. pure x) r h in ((a, ran), cc)

abbrev is_completion : String → Bool
is_completion outcome =
    outcome == execution_outcome_completed || outcome == execution_outcome_partial_completed

no_completion : (x y : String) → x ≡ y → is_completion x ≡ false → is_completion y ≡ true → ⊥
no_completion x y same no_x yes_y = ground (arith, ap is_completion same)

module _ {S : Type 0} (p : Ports S) where
  -- The server accepted a completion of the attempt.
  abbrev pub Accepted : String → Type 0
  Accepted attempt_ref =
      (s : S) × (req : CompleteAttemptRequest) × (x : CompleteAttemptResponse)
      × ((p.complete_attempt attempt_ref req s).0 ≡ done x)

  complete_claim-Accepted :
      (claim : ClaimMessageResponse) (result : ExecutionResult) (r : Runtime S) {u : Unit {0}}
      → (complete_claim p claim result r).0 ≡ done u
      → Accepted claim.attempt_ref
  unfolding complete_claim call
  complete_claim-Accepted claim result r h =
      let (_, _, h1) = >>=-eq-done _ _ r h in
      let (_, _, h2) = >>=-eq-done _ _ _ h1 in
      let (x, accepted, _) = >>=-eq-done _ _ _ h2 in (_, _, x, accepted)

  complete_canonical_claim-Accepted :
      (claim : ClaimMessageResponse) (result : ExecutionResult) (r : Runtime S) {u : Unit {0}}
      → (complete_canonical_claim p claim result r).0 ≡ done u
      → Accepted claim.attempt_ref
  unfolding complete_canonical_claim call
  complete_canonical_claim-Accepted claim result r h =
      let (_, _, h1) = >>=-eq-done _ _ r h in
      let (_, _, h2) = >>=-eq-done _ _ _ h1 in
      let (_, _, h3) = >>=-eq-done _ _ _ h2 in
      let (_, _, h4) = >>=-eq-done _ _ _ h3 in
      let (_, _, h5) = >>=-eq-done _ _ _ h4 in
      let (_, _, h6) = >>=-eq-done _ _ _ h5 in
      let (x, accepted, _) = >>=-eq-done _ _ _ h6 in (_, _, x, accepted)

  -- The outcome of accepted work is a completion only after the server accepted one.
  finish_accepted_claim-Accepted :
      (claim : ClaimMessageResponse) (result : ExecutionResult) (r : Runtime S) {outcome : String}
      → (finish_accepted_claim p claim result r).0 ≡ done outcome
      → is_completion outcome ≡ true
      → Accepted claim.attempt_ref
  unfolding finish_accepted_claim
  finish_accepted_claim-Accepted claim result r {outcome} h completes =
      elim (Bool-cases (result.outcome == execution_outcome_missing_fields)) [
        | inl e ↦
            let (_, same) = then_pure _ r execution_outcome_missing_fields outcome (rw e at h) in
            absurd (no_completion execution_outcome_missing_fields outcome same refl completes)
        | inr e ↦ elim (Bool-cases (result.outcome == execution_outcome_failed)) [
          | inl f ↦
              let (_, same) = then_pure _ r execution_outcome_failed outcome (rw (e, f) at h) in
              absurd (no_completion execution_outcome_failed outcome same refl completes)
          | inr f ↦ elim (Bool-cases (is_canonical_scenario claim)) [
            | inl c ↦
                let ((u, ran), _) =
                  then_pure _ r execution_outcome_completed outcome (rw (e, f, c) at h) in
                complete_canonical_claim-Accepted claim result r ran
            | inr c ↦
                let ((u, ran), _) =
                  then_pure _ r execution_outcome_completed outcome (rw (e, f, c) at h) in
                complete_claim-Accepted claim result r ran
          ]
        ]
      ]

  work_on_claim-Accepted :
      (claim : ClaimMessageResponse) (r : Runtime S) {outcome : String}
      → (work_on_claim p claim r).0 ≡ done outcome
      → is_completion outcome ≡ true
      → Accepted claim.attempt_ref
  unfolding work_on_claim
  work_on_claim-Accepted claim r h completes =
      let (_, _, h1) = >>=-eq-done _ _ r h in
      let (accepted, _, h2) = >>=-eq-done _ _ _ h1 in
      finish_accepted_claim-Accepted claim accepted _ h2 completes

  settle-done :
      (claim : ClaimMessageResponse) (lease : RefreshLeaseResponse)
      (worked : Returned String × Runtime S) {outcome : String}
      → (settle p claim lease worked).0 ≡ done outcome
      → worked.0 ≡ done outcome
  unfolding settle
  settle-done claim lease worked h =
      elim (Option-cases (p.keeper_error claim lease worked.1.outside)) [
        | inl e ↦ rw (e, settle) at h
        | inr (lost, e) ↦ elim (Option-cases (recoverable_attempt_drop p.status_text lost)) [
          | inl d ↦ absurd (ground (arith, rw (e, d, settle) at h))
          | inr (drop, d) ↦ absurd (ground (arith, rw (e, d, settle) at h))
        ]
      ]

  finish_claim_after_ack-Accepted :
      (claim : ClaimMessageResponse) (r : Runtime S) {outcome : String}
      → (finish_claim_after_ack p claim r).0 ≡ done outcome
      → is_completion outcome ≡ true
      → Accepted claim.attempt_ref
  unfolding finish_claim_after_ack
  finish_claim_after_ack-Accepted claim r h completes =
      let (lease, _, h1) = >>=-eq-done _ _ r h in
      let (_, _, h2) = >>=-eq-done _ _ _ h1 in
      work_on_claim-Accepted claim _ (settle-done claim lease _ h2) completes

  process_claim-Completed :
      (claim : ClaimMessageResponse) (r : Runtime S) (result : ProcessResult)
      → (process_claim p claim r).0 ≡ done result
      → result.completed ≡ true
      → Accepted result.attempt_ref
  unfolding process_claim processed_result dropped_result
  process_claim-Completed claim r result h completes =
      elim (Returned-cases (finish_claim_after_ack p claim r).0) [
        | inl (outcome, e) ↦
            let h' : ◌≡◌ {A = Returned ProcessResult} (done (processed_result p claim outcome))
                (done result) =
              rw (e, process_claim) at h in
            let same : processed_result p claim outcome ≡ result = cc in
            subst (λ (x : ProcessResult). Accepted x.attempt_ref) same
              (finish_claim_after_ack-Accepted claim r e
                (ap ProcessResult.completed same ∙ completes))
        | inr (x, e) ↦ elim (Option-cases (recoverable_attempt_drop p.status_text x)) [
          | inl d ↦ absurd (ground (arith, rw (e, d, process_claim) at h))
          | inr (drop, d) ↦
              let h' : ◌≡◌ {A = Returned ProcessResult} (done (dropped_result p claim drop.code))
                  (done result) =
                rw (e, d, process_claim) at h in
              let same : dropped_result p claim drop.code ≡ result = cc in
              absurd (ground (arith, ap ProcessResult.completed same))
        ]
      ]

  nothing_completed :
      (r : Runtime S) (result : ProcessResult)
      → (pure {S = S} empty_result r).0 ≡ done result
      → result.completed ≡ true
      → ⊥
  unfolding pure
  nothing_completed r result h completes =
      let same : empty_result ≡ result = cc in ground (arith, ap ProcessResult.completed same)

  process_answer-Completed :
      (next : ClaimNextMessageResponse) (r : Runtime S) (result : ProcessResult)
      → (process_answer p next r).0 ≡ done result
      → result.completed ≡ true
      → Accepted result.attempt_ref
  unfolding process_answer
  process_answer-Completed next r result h completes = elim (Bool-cases next.empty) [
    | inl e ↦ absurd (nothing_completed r result (rw (e, process_answer) at h) completes)
    | inr e ↦ elim (Option-cases next.claim) [
      | inl c ↦ absurd (nothing_completed r result (rw (e, c, process_answer) at h) completes)
      | inr (claim, c) ↦
          let (_, _, h1) = >>=-eq-done _ _ r (rw (e, c, process_answer) at h) in
          process_claim-Completed claim _ result h1 completes
    ]
  ]

  -- Whatever the server, the executor and the lease keeper do: where ProcessNext reports an attempt as
  -- completed, a call of CompleteAttempt for that attempt was answered by the server with a result.
  pub process_next-Completed :
      (r : Runtime S) (result : ProcessResult)
      → (process_next p r).0 ≡ done result
      → result.completed ≡ true
      → Accepted result.attempt_ref
  unfolding process_next
  process_next-Completed r result h completes =
      let (next, _, h1) = >>=-eq-done _ _ r h in process_answer-Completed next _ result h1 completes
