-- ===== src/Service/AttemptState.antt =====
-- tc-server/internal/application/attempt_state.go.
use touch_connect.Prelude.{String, Bool, ◌||◌, ◌==◌}
use touch_connect.Domain.States.{
  attempt_state_completed, attempt_state_failed, attempt_state_orphaned, attempt_state_canceled,
}

unfoldable pub attempt_closed : String → Bool
attempt_closed state =
    state == attempt_state_completed
    || state == attempt_state_failed
    || state == attempt_state_orphaned
    || state == attempt_state_canceled
