-- ===== src/Memory/Reconcile.antt =====
-- ReconcileExpiredClaims of memory/store.go: messages whose lease has run out become candidates for
-- a takeover.
pub mod Preserves
use touch_connect.Prelude.{
  String, ℕ, ◌+◌, ◌&&◌, leb, ◌!=◌, if◌then◌else◌, Option, none, some, List, [], ◌∷◌,
}
use touch_connect.GoMap.{keys, Map, get, put}
use touch_connect.Domain.States.{
  message_state_claimed, message_state_processing, message_state_takeover_candidate,
}
use touch_connect.Domain.Model.{Message, Attempt}
use touch_connect.Memory.Store.{Store}
use touch_connect.Memory.Claim.{orphan_attempt}

-- The attempt of a claimed or processing message whose lease has run out.
unfoldable pub expired_attempt : ℕ → Message → Map Attempt → Option Attempt
expired_attempt now message attempts =
    if message.state != message_state_claimed && message.state != message_state_processing
    then none
    else elim (get attempts message.attempt_ref) [
      | none ↦ none
      | some attempt ↦ if leb now attempt.lease_expires_at then none else some attempt
    ]

unfoldable pub make_candidate : Message → Attempt → Store → Store
unfolding orphan_attempt
make_candidate message attempt s = record (orphan_attempt attempt s) {
  messages =
      put s.messages message.message_ref
        (record message { state = message_state_takeover_candidate });
}

unfoldable pub reconcile_message : ℕ → Message → Store × ℕ → Store × ℕ
unfolding expired_attempt make_candidate
reconcile_message now message (s, reconciled) = elim (expired_attempt now message s.attempts) [
  | none ↦ (s, reconciled)
  | some attempt ↦ (make_candidate message attempt s, reconciled + 1)
]

-- The loop over the messages, by their keys. Go's range reads each message when it comes to it, and
-- no round adds or removes a key.
unfoldable pub reconcile_all : ℕ → List String → Store × ℕ → Store × ℕ
unfolding reconcile_message
reconcile_all now [] state = state
reconcile_all now (ref ∷ rest) (s, reconciled) = reconcile_all now rest (elim (get s.messages ref) [
  | none ↦ (s, reconciled)
  | some message ↦ reconcile_message now message (s, reconciled)
])

unfoldable pub reconcile_expired_claims : ℕ → Store → Store × ℕ
unfolding reconcile_all
reconcile_expired_claims now s = reconcile_all now (keys s.messages) (s, 0)
