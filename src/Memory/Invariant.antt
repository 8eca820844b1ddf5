-- ===== src/Memory/Invariant.antt =====
-- What holds of the memory store between two steps: the maps are keyed by the references of their
-- records, with no message key twice, redeliveries are bounded, and an attempt that is still open is the current attempt of its
-- message.
pub mod Steps
pub mod Fresh
pub mod Held
use touch_connect.Prelude.{ℕ, ◌≤◌, String, Bool, true, false, ◌||◌, ◌==◌, ◌≡◌, Option, none, some}
use touch_connect.GoMap.{get}
use touch_connect.GoMap.Laws.{Distinct}
use touch_connect.Domain.States.{
  message_state_available, message_state_takeover_candidate, message_state_dead_lettered,
}
use touch_connect.Domain.Model.{Message, Attempt}
use touch_connect.Service.AttemptState.{attempt_closed}
use touch_connect.Memory.Store.{Store}

-- The states in which a message waits, so that no attempt at it may be open.
abbrev pub is_waiting : String → Bool
is_waiting state =
    state == message_state_available
    || state == message_state_takeover_candidate
    || state == message_state_dead_lettered

-- The message with reference `message_ref` is in the hands of the attempt `attempt_ref`.
abbrev pub Owns : Store → String → String → Type 0
Owns s attempt_ref message_ref =
    (m : Message) × (get s.messages message_ref ≡ some m)
    × (m.attempt_ref ≡ attempt_ref)
    × (is_waiting m.state ≡ false)

pub record Inv (max : ℕ) (s : Store) : Type 0 where
  pub distinct : Distinct s.messages
  pub message_keyed : (k : String) (m : Message) → get s.messages k ≡ some m → m.message_ref ≡ k
  pub attempt_keyed : (k : String) (a : Attempt) → get s.attempts k ≡ some a → a.attempt_ref ≡ k
  pub bounded : (k : String) (m : Message) → get s.messages k ≡ some m → m.redelivery_count ≤ max
  pub owned :
      (k : String) (a : Attempt)
      → get s.attempts k ≡ some a
      → attempt_closed a.state ≡ false
      → Owns s k a.message_ref

-- No attempt at the message is open.
abbrev pub NoOpen : Store → String → Type 0
NoOpen s message_ref =
    (k : String) (a : Attempt)
    → get s.attempts k ≡ some a
    → a.message_ref ≡ message_ref
    → attempt_closed a.state ≡ true
