-- ===== src/Quality/Rules.antt =====
-- ValidateMessage and decisionStatus of validator.go.
use touch_connect.Prelude.{
  ℕ, String, nat_eq, ◌==◌, if◌then◌else◌, Option, none, some, List, [], ◌∷◌, ◌++◌, is_empty,
}
use touch_connect.Platform.{Platform}
use touch_connect.Contracts.Policy.{PhraseologyPolicy, QualityDecision, QualityViolation}
use touch_connect.Contracts.Messages.{MessageIngressRequest}
use touch_connect.Quality.Names.{
  quality_decision_passed, quality_decision_warned, quality_decision_rejected,
  quality_decision_clarification_required, quality_decision_review_required,
  quality_fallback_reject, quality_fallback_request_clarification, quality_fallback_route_to_review,
}
use touch_connect.Quality.Policy.{
  effective_policy, missing_required_field_violations, missing_readback_target_violation,
}
use touch_connect.Quality.Lineage.{missing_lineage_reference_violation}

pub record ValidationInput : Type 0 where
  pub decision_ref : String
  pub message_ref : String
  pub request : MessageIngressRequest
  pub created_at : ℕ
  pub created_by : String

unfoldable pub decision_status : PhraseologyPolicy → List QualityViolation → String
decision_status policy violations =
    if is_empty violations
    then quality_decision_passed
    else if policy.fallback_action == quality_fallback_reject
    then quality_decision_rejected
    else if policy.fallback_action == quality_fallback_request_clarification
    then quality_decision_clarification_required
    else if policy.fallback_action == quality_fallback_route_to_review
    then quality_decision_review_required
    else quality_decision_warned

abbrev pub to_list : Option QualityViolation → List QualityViolation
to_list none = []
to_list (some v) = v ∷ []

-- The three rules, in the order in which their violations are appended.
unfoldable pub violations_of :
    Platform → MessageIngressRequest → PhraseologyPolicy → List QualityViolation
violations_of platform req policy =
    missing_required_field_violations req policy
    ++ (to_list (missing_readback_target_violation policy)
        ++ to_list (missing_lineage_reference_violation platform req))

-- The decision of an input under its policy, with this status, violations and fallback.
abbrev pub decide :
    Platform → ValidationInput → String → List QualityViolation → String → QualityDecision
decide platform input status violations fallback =
    let policy = effective_policy input.request in
    record {
      quality_decision_ref = input.decision_ref;
      message_ref = input.message_ref;
      policy_ref = policy.policy_ref;
      policy_version = policy.policy_version;
      decision = status;
      violations = violations;
      fallback_action = fallback;
      created_at = if nat_eq input.created_at 0 then "" else platform.format_time input.created_at;
      created_by = input.created_by;
    }

unfoldable pub validate_message : Platform → ValidationInput → QualityDecision
unfolding violations_of decision_status
validate_message platform input =
    let policy = effective_policy input.request in
    let violations = violations_of platform input.request policy in
    decide platform input (decision_status policy violations) violations policy.fallback_action
