-- ===== src/Quality/Outcomes.antt =====
-- When the gate rejects a message.
use touch_connect.Prelude.{
  String, Bool, true, false, not, ◌==◌, if◌then◌else◌, is_empty, ◌≡◌, ◌≢◌, refl, ◌↔◌, arith, eq_iff,
}
use touch_connect.Platform.{Platform}
use touch_connect.Contracts.Policy.{QualityDecision}
use touch_connect.Quality.Names.{
  quality_gate_enforce, quality_gate_warn, quality_gate_skip, quality_decision_rejected,
  quality_decision_passed, quality_decision_warned, quality_decision_skipped, quality_fallback_warn,
  quality_decision_clarification_required, quality_decision_review_required,
  quality_fallback_request_clarification, quality_fallback_route_to_review, quality_fallback_reject,
}
use touch_connect.Quality.Policy.{effective_policy}
use touch_connect.Quality.Rules.{ValidationInput, validate_message, decision_status, violations_of}
use touch_connect.Quality.Gate.{skipped_decision, warned_unless_passed, validate_message_with_gate}

-- The status, with the tests of decisionStatus as Booleans.
status_rejected :
    (clean reject clarify review : Bool)
    → (if clean
        then quality_decision_passed
        else if reject
        then quality_decision_rejected
        else if clarify
        then quality_decision_clarification_required
        else if review
        then quality_decision_review_required
        else quality_decision_warned)
      ≡ quality_decision_rejected
    → (clean ≡ false) × (reject ≡ true)
status_rejected true a b c h =
    absurd (ground (arith, eq_iff quality_decision_passed quality_decision_rejected))
status_rejected false true b c h = (refl, refl)
status_rejected false false true c h =
    absurd
      (ground (arith, eq_iff quality_decision_clarification_required quality_decision_rejected))
status_rejected false false false true h =
    absurd (ground (arith, eq_iff quality_decision_review_required quality_decision_rejected))
status_rejected false false false false h =
    absurd (ground (arith, eq_iff quality_decision_warned quality_decision_rejected))

-- There are violations, and the policy's fallback is to reject.
abbrev pub Rejects : Platform → ValidationInput → Type 0
Rejects platform input =
    (is_empty (violations_of platform input.request (effective_policy input.request)) ≡ false)
    × ((effective_policy input.request).fallback_action ≡ quality_fallback_reject)

module _ (platform : Platform) (input : ValidationInput) where
  validate_message-rejected :
      ((validate_message platform input).decision ≡ quality_decision_rejected)
      ↔ Rejects platform input
  unfolding validate_message decision_status
  validate_message-rejected =
      let policy = effective_policy input.request in
      let fallback = policy.fallback_action in
      let violated = violations_of platform input.request policy in
      (
        λ h.
            let (some_violation, rejecting) =
              status_rejected (is_empty violated) (fallback == quality_fallback_reject)
                (fallback == quality_fallback_request_clarification)
                (fallback == quality_fallback_route_to_review) h in
            (some_violation, (eq_iff fallback quality_fallback_reject).0 rejecting),
        λ h. rw (h.0, (eq_iff fallback quality_fallback_reject).1 h.1),
      )

-- The status after the warning gate, with its test as a Boolean.
warned_status :
    (passed : Bool) (d : QualityDecision)
    → (passed ≡ true → d.decision ≡ quality_decision_passed)
    → (if not passed
        then record d {
          decision = quality_decision_warned;
          fallback_action = quality_fallback_warn;
        }
        else d).decision
      ≢ quality_decision_rejected
warned_status true d known h =
    absurd (ground (arith, known refl, eq_iff quality_decision_passed quality_decision_rejected))
warned_status false d known h =
    absurd (ground (arith, eq_iff quality_decision_warned quality_decision_rejected))

warned_ne_rejected :
    (d : QualityDecision) → (warned_unless_passed d).decision ≢ quality_decision_rejected
unfolding warned_unless_passed
warned_ne_rejected d =
    warned_status (d.decision == quality_decision_passed) d
      (eq_iff d.decision quality_decision_passed).0

skipped_ne_rejected :
    (platform : Platform) (input : ValidationInput)
    → (skipped_decision platform input).decision ≢ quality_decision_rejected
unfolding skipped_decision
skipped_ne_rejected platform input =
    ground (arith, eq_iff quality_decision_skipped quality_decision_rejected)

gate_cases :
    (skip warn : Bool) (s d : QualityDecision)
    → s.decision ≢ quality_decision_rejected
    → ((if skip then s else if warn then warned_unless_passed d else d).decision
        ≡ quality_decision_rejected)
      ↔ ((skip ≡ false) × (warn ≡ false) × (d.decision ≡ quality_decision_rejected))
gate_cases true warn s d other = (λ h. absurd (other h), λ h. absurd (ground arith))
gate_cases false true s d other = (λ h. absurd (warned_ne_rejected d h), λ h. absurd (ground arith))
gate_cases false false s d other = (λ h. (refl, refl, h), λ h. h.2)

-- The gate mode that applies: an empty mode enforces.
abbrev pub effective_gate : String → String
effective_gate mode = if mode == "" then quality_gate_enforce else mode

-- The gate rejects a message exactly when its mode is neither skip nor warn (an empty mode enforces),
-- the effective policy is violated, and the policy's fallback action is to reject.
pub validate_message_with_gate-rejected :
    (platform : Platform) (input : ValidationInput) (mode : String)
    → ((validate_message_with_gate platform input mode).decision ≡ quality_decision_rejected) ↔ (
        (effective_gate mode == quality_gate_skip ≡ false)
        × (effective_gate mode == quality_gate_warn ≡ false)
        × Rejects platform input)
unfolding validate_message_with_gate
validate_message_with_gate-rejected platform input mode =
    let split =
      gate_cases (effective_gate mode == quality_gate_skip)
        (effective_gate mode == quality_gate_warn) (skipped_decision platform input)
        (validate_message platform input) (skipped_ne_rejected platform input) in
    let inner = validate_message-rejected platform input in
    (λ h. let (a, b, c) = split.0 h in (a, b, inner.0 c), λ h. split.1 (h.0, h.1, inner.1 h.2))
