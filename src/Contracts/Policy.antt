-- ===== src/Contracts/Policy.antt =====
-- The quality records of internal/communication/contracts/quality.go.
use touch_connect.Prelude.{ℤ, String, Bool, List}

pub record CapabilityClaimItem : Type 0 where
  pub name : String
  pub version : String
  pub scope : String
  pub priority : ℤ

pub record RequiredEvidenceItem : Type 0 where
  pub ref : String
  pub type : String
  pub title : String

pub record CapabilityClaim : Type 0 where
  pub claim_ref : String
  pub capabilities : List CapabilityClaimItem
  pub version_constraints : List String
  pub scope : String
  pub fallback_chain : List CapabilityClaimItem
  pub required_evidence : List RequiredEvidenceItem

pub record PhraseologyReadbackPolicy : Type 0 where
  pub required : Bool
  pub targets : List String

pub record PhraseologyRule : Type 0 where
  pub code : String
  pub field : String
  pub pattern : String
  pub severity : String
  pub fallback : String
  pub suggested_fix : String

pub record PhraseologyPolicy : Type 0 where
  pub policy_ref : String
  pub policy_version : String
  pub scope_kind : String
  pub scope_ref : String
  pub applies_to_capabilities : List CapabilityClaim
  pub required_fields : List String
  pub readback : PhraseologyReadbackPolicy
  pub constraint_rules : List PhraseologyRule
  pub ambiguity_rules : List PhraseologyRule
  pub fallback_action : String
  pub severity : String
  pub audit_mode : String

pub record QualityViolation : Type 0 where
  pub code : String
  pub field : String
  pub detail : String
  pub severity : String
  pub suggested_fix : String

pub record QualityDecision : Type 0 where
  pub quality_decision_ref : String
  pub message_ref : String
  pub policy_ref : String
  pub policy_version : String
  pub decision : String
  pub violations : List QualityViolation
  pub fallback_action : String
  pub created_at : String
  pub created_by : String
