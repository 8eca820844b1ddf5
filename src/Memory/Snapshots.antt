-- ===== src/Memory/Snapshots.antt =====
-- Snapshot of memory/store.go: every record, sorted by its reference.
use touch_connect.Prelude.{String, ltb, ◌==◌, if◌then◌else◌, List, [], ◌∷◌, ◌++◌}
use touch_connect.GoMap.{Map}
use touch_connect.Contracts.Policy.{QualityDecision}
use touch_connect.Domain.Model.{Checkpoint, Readback, Snapshot}
use touch_connect.Memory.Store.{Store}
use touch_connect.Memory.Sort.{sort_by, string_less}

module _ {A : Type 0} where
  unfoldable pub values : Map A → List A
  values [] = []
  values ((k, v) ∷ rest) = v ∷ values rest

  unfoldable pub sorted_map_values : Map A → (A → String) → List A
  unfolding values
  sorted_map_values m key = sort_by (λ a b. string_less (key a) (key b)) (values m)

  unfoldable pub flatten_values : Map (List A) → List A
  flatten_values [] = []
  flatten_values ((k, vs) ∷ rest) = vs ++ flatten_values rest

unfoldable pub flatten_checkpoints : Map (List Checkpoint) → List Checkpoint
unfolding flatten_values
flatten_checkpoints m =
    sort_by
      (λ a b.
        if a.attempt_ref == b.attempt_ref
        then ltb a.revision b.revision
        else string_less a.attempt_ref b.attempt_ref)
      (flatten_values m)

unfoldable pub flatten_readbacks : Map (List Readback) → List Readback
unfolding flatten_values
flatten_readbacks m =
    sort_by
      (λ a b.
        if a.attempt_ref == b.attempt_ref
        then ltb a.revision b.revision
        else string_less a.attempt_ref b.attempt_ref)
      (flatten_values m)

unfoldable pub flatten_quality_decisions : Map (List QualityDecision) → List QualityDecision
unfolding flatten_values
flatten_quality_decisions m =
    sort_by (λ a b. string_less a.quality_decision_ref b.quality_decision_ref) (flatten_values m)

unfoldable pub snapshot : Store → Snapshot
snapshot s = record {
  endpoints = sorted_map_values s.endpoints (λ x. x.endpoint_ref);
  messages = sorted_map_values s.messages (λ x. x.message_ref);
  attempts = sorted_map_values s.attempts (λ x. x.attempt_ref);
  checkpoints = flatten_checkpoints s.checkpoints;
  readbacks = flatten_readbacks s.readbacks;
  artifacts = sorted_map_values s.artifacts (λ x. x.artifact_version_ref);
  finalizations = sorted_map_values s.finalizations (λ x. x.artifact_version_ref);
  dead_letters = sorted_map_values s.dead_letters (λ x. x.dead_letter_ref);
  approvals = sorted_map_values s.approvals (λ x. x.approval_ref);
  side_effects = sorted_map_values s.side_effects (λ x. x.side_effect_execution_ref);
  quality_decisions = flatten_quality_decisions s.quality_decisions;
}
