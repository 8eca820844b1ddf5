-- ===== src/Examples/Retry.antt =====
-- A message whose worker waits for missing fields is retried, and claimed by another worker.
use touch_connect.Prelude.{
  Bool, false, ◌&&◌, ◌==◌, not, true, ◌≡◌, refl, Option, none, some, [], ◌∷◌,
}
use touch_connect.GoMap.{get, put}
use touch_connect.Domain.Model.{Attempt}
use touch_connect.Memory.Store.{Store, new_store}
use touch_connect.Memory.Claim.{claim_message}
use touch_connect.Service.AttemptState.{attempt_closed}
use touch_connect.Service.Commands.{retry_task, messages_for_task}
use touch_connect.Service.World.{read, on_store}
use touch_connect.Exec.{◌>>=◌}
use touch_connect.Service.Lookups.{service_snapshot}
use touch_connect.Memory.Snapshots.{snapshot, sorted_map_values}
use touch_connect.Memory.Sort.{sort_by}
use touch_connect.Memory.Ledger.{update_message}
use touch_connect.Examples.Data.{service, first_attempt, message_in, claim_at}

abbrev blocked_store : Store
blocked_store = record new_store {
  messages = ("m", message_in "input_required" "tc://attempt/att_000001") ∷ [];
  attempts =
      ("tc://attempt/att_000001", record first_attempt { state = "blocked_missing_fields" }) ∷ [];
}

-- The store after the retry of the task, and after the claim that follows.
abbrev retried : Store
retried =
    (retry_task service (record { task_ref = "t"; reason = "" })
      (record { store = blocked_store; calls = [] })).1.store

abbrev claimed_again : Store
claimed_again = (claim_message (claim_at 5) retried).1

-- The attempt is stored, is one at the message "m", and is open.
abbrev is_open_at_m : Option Attempt → Bool
is_open_at_m none = false
is_open_at_m (some a) = a.message_ref == "m" && not (attempt_closed a.state)

-- After the retry and the claim both attempts at the message are open.
both_open :
    is_open_at_m (get claimed_again.attempts "tc://attempt/att_000001")
      && is_open_at_m (get claimed_again.attempts "tc://attempt/att_000002")
    ≡ true
unfolding retry_task get put claim_message attempt_closed ◌>>=◌ read messages_for_task
    service_snapshot snapshot sorted_map_values sort_by on_store update_message
both_open = refl
