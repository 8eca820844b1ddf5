-- ===== src/Memory/Store.antt =====
-- The fields of the memory store (memory/store.go).
use touch_connect.Prelude.{ℕ, List, []}
use touch_connect.GoMap.{Map}
use touch_connect.Contracts.Policy.{QualityDecision}
use touch_connect.Domain.Model.{
  Endpoint, Message, Attempt, Checkpoint, Readback, ArtifactVersion, ArtifactFinalization,
  DeadLetter, ApprovalDecision, SideEffectExecution,
}

pub record Store : Type 0 where
  pub sequences : Map ℕ
  pub endpoints : Map Endpoint
  pub messages : Map Message
  pub attempts : Map Attempt
  pub checkpoints : Map (List Checkpoint)
  pub readbacks : Map (List Readback)
  pub artifacts : Map ArtifactVersion
  pub finalizations : Map ArtifactFinalization
  pub dead_letters : Map DeadLetter
  pub approvals : Map ApprovalDecision
  pub side_effects : Map SideEffectExecution
  pub quality_decisions : Map (List QualityDecision)

abbrev pub new_store : Store
new_store = record {
  sequences = [];
  endpoints = [];
  messages = [];
  attempts = [];
  checkpoints = [];
  readbacks = [];
  artifacts = [];
  finalizations = [];
  dead_letters = [];
  approvals = [];
  side_effects = [];
  quality_decisions = [];
}
