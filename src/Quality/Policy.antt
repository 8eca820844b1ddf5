-- ===== src/Quality/Policy.antt =====
-- The policy that applies to a request, and its rules on fields and readback (validator.go).
use touch_connect.Prelude.{
  String, Bool, true, false, not, ◌||◌, ◌==◌, ◌!=◌, if◌then◌else◌, Option, none, some, List, [],
  ◌∷◌, items, is_empty, any,
}
use touch_connect.GoText.{trim_space}
use touch_connect.Contracts.Policy.{PhraseologyPolicy, QualityViolation}
use touch_connect.Contracts.Messages.{MessageIngressRequest, Constraint, Reference}
use touch_connect.Quality.Names.{
  default_policy_ref, default_policy_version, quality_fallback_warn, quality_severity_warning,
  rule_missing_required_field, rule_missing_readback_target,
}

abbrev pub default_readback_targets : List String
default_readback_targets = "goal" ∷ "constraints" ∷ "next_action" ∷ []

-- if value == "" { value = fallback }
abbrev pub or_default : String → String → String
or_default value fallback = if value == "" then fallback else value

unfoldable pub given_policy : PhraseologyPolicy → PhraseologyPolicy
given_policy policy = record policy {
  policy_ref = or_default policy.policy_ref default_policy_ref;
  policy_version = or_default policy.policy_version default_policy_version;
  fallback_action = or_default policy.fallback_action quality_fallback_warn;
  severity = or_default policy.severity quality_severity_warning;
}

unfoldable pub default_policy : Bool → PhraseologyPolicy
default_policy readback_required = record {
  policy_ref = default_policy_ref;
  policy_version = default_policy_version;
  scope_kind = "global";
  scope_ref = "";
  applies_to_capabilities = [];
  required_fields = [];
  readback =
      if readback_required
      then record { required = true; targets = default_readback_targets }
      else record { required = false; targets = [] };
  constraint_rules = [];
  ambiguity_rules = [];
  fallback_action = quality_fallback_warn;
  severity = quality_severity_warning;
  audit_mode = "append";
}

unfoldable pub effective_policy : MessageIngressRequest → PhraseologyPolicy
unfolding given_policy default_policy
effective_policy req = elim req.phraseology_policy [
  | some policy ↦ given_policy policy
  | none ↦ default_policy req.readback_required
]

unfoldable pub severity : PhraseologyPolicy → String
severity policy = if policy.severity != "" then policy.severity else quality_severity_warning

unfoldable pub field_in_constraints_or_references : MessageIngressRequest → String → Bool
unfolding any
field_in_constraints_or_references req field =
    any (λ (c : Constraint). c.code == field || c.source_ref == field) (items req.constraints)
    || any (λ (r : Reference). r.ref == field || r.type == field) (items req.payload.references)

unfoldable pub field_present : MessageIngressRequest → String → Bool
unfolding field_in_constraints_or_references
field_present req field =
    let name = trim_space field in
    if name == "message_ref"
    then req.message_ref != ""
    else if name == "sender_endpoint_ref"
    then req.sender_endpoint_ref != ""
    else if name == "target_capability"
    then req.target_capability != ""
    else if name == "correlation_ref"
    then req.correlation_ref != ""
    else if name == "readback_required"
    then req.readback_required
    else if name == "payload.summary"
    then trim_space req.payload.summary != ""
    else if name == "payload.body"
    then trim_space req.payload.body != ""
    else if name == "payload.references" || name == "references"
    then not (is_empty (items req.payload.references))
    else if name == "constraints"
    then not (is_empty (items req.constraints))
    else field_in_constraints_or_references req field

unfoldable pub missing_field : PhraseologyPolicy → String → QualityViolation
missing_field policy field = record {
  code = rule_missing_required_field;
  field = field;
  detail =
      "required field is not present in the message envelope, payload, constraints, or references";
  severity = severity policy;
  suggested_fix =
      "add the required field or remove it from the PhraseologyPolicy required_fields list";
}

-- The loop over policy.RequiredFields.
unfoldable pub missing_fields_of :
    MessageIngressRequest → PhraseologyPolicy → List String → List QualityViolation
missing_fields_of req policy [] = []
missing_fields_of req policy (f ∷ fields) =
    let field = trim_space f in
    let later = missing_fields_of req policy fields in
    if field == "" || field_present req field then later else missing_field policy field ∷ later

unfoldable pub missing_required_field_violations :
    MessageIngressRequest → PhraseologyPolicy → List QualityViolation
unfolding missing_fields_of
missing_required_field_violations req policy = missing_fields_of req policy policy.required_fields

-- A result and an `ok` flag are an `Option`.
unfoldable pub missing_readback_target_violation : PhraseologyPolicy → Option QualityViolation
unfolding any
missing_readback_target_violation policy =
    if not policy.readback.required
    then none
    else if any (λ target. trim_space target != "") policy.readback.targets
    then none
    else some (record {
      code = rule_missing_readback_target;
      field = "readback.targets";
      detail = "readback is required but no readback target field set was configured";
      severity = severity policy;
      suggested_fix = "set readback.targets or rely on the default readback policy";
    })
