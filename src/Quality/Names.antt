-- ===== src/Quality/Names.antt =====
-- The constants of internal/communication/contracts/quality.go and policy.go, and of
-- internal/communication/quality/validator.go.
use touch_connect.Prelude.{String}

abbrev pub quality_decision_passed : String
quality_decision_passed = "passed"

abbrev pub quality_decision_warned : String
quality_decision_warned = "warned"

abbrev pub quality_decision_rejected : String
quality_decision_rejected = "rejected"

abbrev pub quality_decision_clarification_required : String
quality_decision_clarification_required = "clarification_required"

abbrev pub quality_decision_review_required : String
quality_decision_review_required = "review_required"

abbrev pub quality_decision_skipped : String
quality_decision_skipped = "skipped"

abbrev pub quality_fallback_reject : String
quality_fallback_reject = "reject"

abbrev pub quality_fallback_warn : String
quality_fallback_warn = "warn"

abbrev pub quality_fallback_request_clarification : String
quality_fallback_request_clarification = "request_clarification"

abbrev pub quality_fallback_route_to_review : String
quality_fallback_route_to_review = "route_to_review"

abbrev pub quality_severity_info : String
quality_severity_info = "info"

abbrev pub quality_severity_warning : String
quality_severity_warning = "warning"

abbrev pub quality_severity_blocking : String
quality_severity_blocking = "blocking"

abbrev pub quality_gate_enforce : String
quality_gate_enforce = "enforce"

abbrev pub quality_gate_warn : String
quality_gate_warn = "warn"

abbrev pub quality_gate_skip : String
quality_gate_skip = "skip"

abbrev pub rule_missing_required_field : String
rule_missing_required_field = "missing_required_field"

abbrev pub rule_missing_readback_target : String
rule_missing_readback_target = "missing_readback_target"

abbrev pub rule_missing_lineage_reference : String
rule_missing_lineage_reference = "missing_lineage_reference"

abbrev pub default_policy_ref : String
default_policy_ref = "tc://quality-policy/default"

abbrev pub default_policy_version : String
default_policy_version = "v0"
