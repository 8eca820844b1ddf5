-- ===== src/Quality/Gate.antt =====
-- ValidateMessageWithGate of validator.go: the sender's gate mode decides what a violation does.
use touch_connect.Prelude.{String, ◌==◌, ◌!=◌, if◌then◌else◌, []}
use touch_connect.Platform.{Platform}
use touch_connect.Contracts.Policy.{QualityDecision}
use touch_connect.Quality.Names.{
  quality_gate_enforce, quality_gate_warn, quality_gate_skip, quality_decision_passed,
  quality_decision_warned, quality_decision_skipped, quality_fallback_warn,
}
use touch_connect.Quality.Rules.{ValidationInput, decide, validate_message}

unfoldable pub skipped_decision : Platform → ValidationInput → QualityDecision
skipped_decision platform input =
    decide platform input quality_decision_skipped [] quality_fallback_warn

unfoldable pub warned_unless_passed : QualityDecision → QualityDecision
warned_unless_passed d =
    if d.decision != quality_decision_passed
    then record d { decision = quality_decision_warned; fallback_action = quality_fallback_warn }
    else d

unfoldable pub validate_message_with_gate : Platform → ValidationInput → String → QualityDecision
unfolding skipped_decision warned_unless_passed
validate_message_with_gate platform input mode =
    let gate = if mode == "" then quality_gate_enforce else mode in
    if gate == quality_gate_skip
    then skipped_decision platform input
    else if gate == quality_gate_warn
    then warned_unless_passed (validate_message platform input)
    else validate_message platform input
