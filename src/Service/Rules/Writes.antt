-- ===== src/Service/Rules/Writes.antt =====
-- The rules for the writes of an attempt and of a message that have to be there already.
use touch_connect.Prelude.{◌≡◌, some, inl, inr, Option-cases}
use touch_connect.GoMap.{get, put}
use touch_connect.Domain.Errors.{Result, ok, err, attempt_not_found, message_not_found}
use touch_connect.Domain.Model.{Message, Attempt}
use touch_connect.Exec.{Exec, ◌>>=◌, ◌>>◌}
use touch_connect.Memory.Ledger.{update_attempt, update_message}
use touch_connect.Service.World.{World, on_store}
use touch_connect.Service.Rules.{Ends}

-- The attempt is written under its own reference.
abbrev pub with_attempt_written : Attempt → World → World
with_attempt_written a w = record w {
  store = record w.store { attempts = put w.store.attempts a.attempt_ref a };
}

abbrev pub with_message_written : Message → World → World
with_message_written m w = record w {
  store = record w.store { messages = put w.store.messages m.message_ref m };
}

module _ {B : Type 0} {Q : Result B × World → Type 0} {w : World} where
  pub Ends-update_attempt :
      (a : Attempt) (k : Exec World B)
      → Q (err attempt_not_found, w)
      → ((x : Attempt)
          → get w.store.attempts a.attempt_ref ≡ some x
          → Ends Q k (with_attempt_written a w))
      → Ends Q (on_store (update_attempt a) >> k) w
  unfolding ◌>>=◌ on_store update_attempt
  Ends-update_attempt a k failed passed = elim (Option-cases (get w.store.attempts a.attempt_ref)) [
    | inl e ↦ record { holds = rw e failed }
    | inr (x, e) ↦ record { holds = rw e (passed x e).holds }
  ]

  pub Ends-update_message :
      (m : Message) (k : Exec World B)
      → Q (err message_not_found, w)
      → ((x : Message)
          → get w.store.messages m.message_ref ≡ some x
          → Ends Q k (with_message_written m w))
      → Ends Q (on_store (update_message m) >> k) w
  unfolding ◌>>=◌ on_store update_message
  Ends-update_message m k failed passed = elim (Option-cases (get w.store.messages m.message_ref)) [
    | inl e ↦ record { holds = rw e failed }
    | inr (x, e) ↦ record { holds = rw e (passed x e).holds }
  ]

module _ {w : World} where
  pub Ends-update_message_last :
      {Q : Result (Unit {0}) × World → Type 0} (m : Message)
      → Q (err message_not_found, w)
      → ((x : Message)
          → get w.store.messages m.message_ref ≡ some x
          → Q (ok tt, with_message_written m w))
      → Ends Q (on_store (update_message m)) w
  unfolding on_store update_message
  Ends-update_message_last {Q} m failed passed =
      elim (Option-cases (get w.store.messages m.message_ref)) [
        | inl e ↦ record { holds = rw e failed }
        | inr (x, e) ↦ record { holds = rw e (passed x e) }
      ]
